-- ===== src/Auth/Store/Spelled/Listed.antt =====
-- What List of internal/auth/apikey_postgres.go shows of a key that Create made, for tenants in
-- whatever spelling.
use mathlib.Core.Option
use chain_pulse.Prelude.{String, Option}
use chain_pulse.Auth.ApiKey.{ApiKey}
use chain_pulse.Auth.Rows.{timestamptz}

-- The metadata of a key as the table has it: the tenant as the database prints it, the expiry in
-- whole microseconds.
abbrev pub as_kept : String → ApiKey → ApiKey
as_kept tenant_id k = record k {
  tenant_id = tenant_id;
  expires_at = Option.map timestamptz k.expires_at;
}
