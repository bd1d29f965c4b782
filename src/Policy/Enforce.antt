-- ===== src/Policy/Enforce.antt =====
-- internal/policy/middleware.go: the policy check in front of a handler.
pub mod Gate
use chain_pulse.Prelude.{String, Bool, true, false, not, ◌==◌, Option, none, some, if◌then◌else◌}
use Prim.Native.String.{◌++◌}
use chain_pulse.Identity.{Identity}
use chain_pulse.Http.{Context, Handler, Outcome, or_empty, require_actor, abort, code_forbidden}
use chain_pulse.Audit.{Record, decision_allow, decision_deny}
use chain_pulse.Policy.{Action, Resource, Input, Decision, Engine, Race, evaluate}

-- How a route describes the resource that a request is about. The source allows nil.
abbrev pub ResourceExtractor : Type 0 → Type 0
ResourceExtractor F = Context → Identity → Resource F

-- The resource that the engine is asked about: the type is the route's, and the tenant is the
-- actor's unless the extractor names one. Without an extractor the other fields are zero.
unfoldable pub effective_resource :
    {F : Type 0} → F → String → Option (ResourceExtractor F) → Context → Identity → Resource F
effective_resource zero_value type none c actor = record {
  type = type;
  id = "";
  tenant_id = actor.tenant_id;
  region = "";
  owner_supplier_id = "";
  value_usd = zero_value;
}
effective_resource zero_value type (some extract) c actor =
    let r = extract c actor in
    record r { type = type; tenant_id = if r.tenant_id == "" then actor.tenant_id else r.tenant_id }

abbrev pub decision_text : Decision → String
decision_text d = if d.allow then decision_allow else decision_deny

abbrev pub audit_record :
    {F : Type 0} → Context → Identity → Action → Resource F → Decision → Record
audit_record c actor action resource d = record {
  tenant_id = actor.tenant_id;
  actor_id = actor.user_id;
  actor_role = actor.role;
  action = action;
  resource_type = resource.type;
  resource_id = resource.id;
  policy_decision = decision_text d;
  policy_rule_matched = d.rule_matched;
  request_id = or_empty c.request_id;
  timestamp = none;
}

-- The decision on the context, for the request log.
abbrev pub with_decision : Context → Decision → Context
with_decision c d = record c {
  policy_decision = some (decision_text d);
  policy_rule = some d.rule_matched;
}

module _ {F W : Type 0} where
  -- The part of Enforce behind the identity check; `audit` is the auditor's Write, whose error is
  -- dropped, and `race` is how the evaluation of this request fares against its timeout.
  unfoldable pub authorize :
      Engine F → Race → (Record → W → W) → Action → Resource F → Handler W → Identity → Handler W
  authorize engine race audit action resource next actor c w =
      let d =
        evaluate engine race (record { actor = actor; action = action; resource = resource }) in
      let w' = audit (audit_record c actor action resource d) w in
      let c' = with_decision c d in
      if not d.allow
      then abort 403 code_forbidden ("denied by policy: " ++ d.reason) c' w'
      else next c' w'

  -- Enforce
  unfoldable pub enforce :
      F
      → Engine F
      → Race
      → (Record → W → W)
      → Action
      → String
      → Option (ResourceExtractor F)
      → Handler W
      → Handler W
  unfolding authorize effective_resource
  enforce zero_value engine race audit action type extract next = require_actor λ actor c w.
      authorize engine race audit action (effective_resource zero_value type extract c actor) next
        actor c w
