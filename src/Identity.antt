-- ===== src/Identity.antt =====
-- shared/identity/identity.go: roles and the trusted caller. A Go string is a native `String`.
use chain_pulse.Prelude.{String, Bool, ◌||◌, ◌==◌}

-- The role is an open string type in the source, with four known constants.
abbrev pub Role : Type 0
Role = String

abbrev pub role_admin : Role
role_admin = "admin"

abbrev pub role_supplier : Role
role_supplier = "supplier"

abbrev pub role_warehouse_manager : Role
role_warehouse_manager = "warehouse_manager"

abbrev pub role_analyst : Role
role_analyst = "analyst"

unfoldable pub valid : Role → Bool
valid r = r == role_admin || r == role_supplier || r == role_warehouse_manager || r == role_analyst

pub record Identity : Type 0 where
  pub tenant_id : String
  pub user_id : String
  pub role : Role
  pub region : String
  pub supplier_id : String
