-- ===== src/Gateway/Stub.antt =====
-- internal/gateway/stub.go: the answer of the placeholder handlers and the resource extractor.
use chain_pulse.Prelude.{ℕ, true, ◌==◌, Option, none, some, if◌then◌else◌}
use chain_pulse.Identity.{Identity}
use chain_pulse.Http.{Json, text, number, boolean, object, field, end, Context}
use chain_pulse.Policy.{FloatOps}
use chain_pulse.Policy.Enforce.{ResourceExtractor}

abbrev pub or_zero_identity : Option Identity → Identity
or_zero_identity none = record {
  tenant_id = "";
  user_id = "";
  role = "";
  region = "";
  supplier_id = "";
}
or_zero_identity (some id) = id

-- The map of the stub's answer; encoding/json writes its keys in order.
abbrev pub stub_body : Context → Identity → ℕ → Json
stub_body c id n = object (
    field "actor_id" (text id.user_id) (
      field "call_seq" (number n) (
        field "handler" (text c.full_path) (
          field "ok" (boolean true)
            (field "role" (text id.role) (field "tenant_id" (text id.tenant_id) end))))))

abbrev pub or_value : {F : Type 0} → F → Option F → F
or_value zero_value none = zero_value
or_value zero_value (some f) = f

-- queryResourceExtractor; the type is left empty and set by Enforce.
unfoldable pub query_resource_extractor : {F : Type 0} → FloatOps F → ResourceExtractor F
query_resource_extractor floats c actor = record {
  type = "";
  id = c.query "id";
  tenant_id = c.query "tenant_id";
  region = c.query "region";
  owner_supplier_id = c.query "supplier_id";
  value_usd =
      if c.query "value_usd" == ""
      then floats.zero_value
      else or_value floats.zero_value (floats.parse_float (c.query "value_usd"));
}
