-- ===== src/Policy/Rules.antt =====
-- internal/policy/rules.go: the default rule set. HighValueThresholdUSD stands in `FloatOps`.
pub mod Matrix
pub mod Orders
use chain_pulse.Prelude.{String, ◌&&◌, ◌||◌, not, ◌==◌, List, [], ◌∷◌}
use chain_pulse.Identity.{role_admin, role_supplier, role_warehouse_manager, role_analyst}
use chain_pulse.Policy.{
  FloatOps, Rule, effect_allow, effect_deny, action_create, action_read, action_update,
  action_cancel,
}

module _ {F : Type 0} (fl : FloatOps F) where
  unfoldable pub deny_high_value : Rule F
  deny_high_value = record {
    id = "deny_high_value_order_mutation_non_admin";
    effect = effect_deny;
    reason = "high-value order mutation requires admin";
    match = λ inp.
        inp.resource.type == "order"
        && (inp.action == action_update || inp.action == action_cancel)
        && fl.at_least_threshold inp.resource.value_usd
        && not (inp.actor.role == role_admin);
  }

  unfoldable pub allow_admin : Rule F
  allow_admin = record {
    id = "allow_admin_within_tenant";
    effect = effect_allow;
    reason = "";
    match = λ inp. inp.actor.role == role_admin;
  }

  unfoldable pub allow_analyst_read : Rule F
  allow_analyst_read = record {
    id = "allow_analyst_read";
    effect = effect_allow;
    reason = "";
    match = λ inp. inp.actor.role == role_analyst && inp.action == action_read;
  }

  unfoldable pub allow_wm_read_inventory : Rule F
  allow_wm_read_inventory = record {
    id = "allow_wm_read_inventory";
    effect = effect_allow;
    reason = "";
    match = λ inp.
        inp.actor.role == role_warehouse_manager
        && inp.resource.type == "inventory"
        && inp.action == action_read;
  }

  unfoldable pub allow_wm_write_own_region : Rule F
  allow_wm_write_own_region = record {
    id = "allow_wm_write_own_region_inventory";
    effect = effect_allow;
    reason = "";
    match = λ inp.
        inp.actor.role == role_warehouse_manager
        && inp.resource.type == "inventory"
        && (inp.action == action_create || inp.action == action_update)
        && not (inp.resource.region == "")
        && inp.resource.region == inp.actor.region;
  }

  unfoldable pub allow_wm_orders : Rule F
  allow_wm_orders = record {
    id = "allow_wm_orders";
    effect = effect_allow;
    reason = "";
    match = λ inp.
        inp.actor.role == role_warehouse_manager
        && inp.resource.type == "order"
        && (inp.action == action_read || inp.action == action_create);
  }

  unfoldable pub allow_supplier_own_shipments : Rule F
  allow_supplier_own_shipments = record {
    id = "allow_supplier_own_shipments";
    effect = effect_allow;
    reason = "";
    match = λ inp.
        inp.actor.role == role_supplier
        && inp.resource.type == "shipment"
        && not (inp.resource.owner_supplier_id == "")
        && inp.resource.owner_supplier_id == inp.actor.supplier_id;
  }

  unfoldable pub allow_supplier_read_own_inventory : Rule F
  allow_supplier_read_own_inventory = record {
    id = "allow_supplier_read_own_inventory";
    effect = effect_allow;
    reason = "";
    match = λ inp.
        inp.actor.role == role_supplier
        && inp.resource.type == "inventory"
        && inp.action == action_read
        && not (inp.resource.owner_supplier_id == "")
        && inp.resource.owner_supplier_id == inp.actor.supplier_id;
  }

  unfoldable pub default_rules : List (Rule F)
  unfolding deny_high_value allow_admin allow_analyst_read allow_wm_read_inventory
      allow_wm_write_own_region allow_wm_orders allow_supplier_own_shipments
      allow_supplier_read_own_inventory
  default_rules =
      deny_high_value ∷ allow_admin ∷ allow_analyst_read ∷ allow_wm_read_inventory
      ∷ allow_wm_write_own_region ∷ allow_wm_orders ∷ allow_supplier_own_shipments
      ∷ allow_supplier_read_own_inventory ∷ []
