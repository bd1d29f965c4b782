-- ===== src/Policy/Enforce/Gate.antt =====
-- What internal/policy/middleware.go lets through, and what it leaves in the audit trail.
use chain_pulse.Prelude.{
  String, true, false, ◌≡◌, ◌≢◌, inl, inr, refl, Option, some, Bool-cases, ne_false,
}
use chain_pulse.Identity.{Identity}
use chain_pulse.Http.{Context, Handler, Outcome, abort, require_actor_lem}
use chain_pulse.Audit.{Record, decision_allow, decision_deny}
use chain_pulse.Policy.{
  Action, Input, Engine, Decision, Race, evaluate, crosses_tenant, rule_cross_tenant_deny,
}
use chain_pulse.Policy.Decisions.{evaluate-eq-cross_tenant_deny}
use chain_pulse.Policy.Enforce.{
  ResourceExtractor, effective_resource, audit_record, with_decision, authorize, enforce,
}

module _ {F W : Type 0} (zero_value : F) (engine : Engine F) (race : Race) (audit : Record → W → W)
    (action : Action) (type : String) (extract : Option (ResourceExtractor F)) where
  -- What the engine is asked, and what it answers.
  abbrev pub question : Context → Identity → Input F
  question c actor = record {
    actor = actor;
    action = action;
    resource = effective_resource zero_value type extract c actor;
  }

  abbrev pub answer : Context → Identity → Decision
  answer c actor = evaluate engine race (question c actor)

  abbrev pub trace : Context → Identity → Record
  trace c actor = audit_record c actor action (question c actor).resource (answer c actor)

  -- The two ways through the gate: in both the one record of the decision is written first.
  pub data Passes (next : Handler W) (c : Context) (w : W) (actor : Identity)
      : Outcome W → Type 0 where
    let_through :
        {o : Outcome W}
        → (answer c actor).allow ≡ true
        → (trace c actor).policy_decision ≡ decision_allow
        → o ≡ next (with_decision c (answer c actor)) (audit (trace c actor) w)
        → Passes next c w actor o
    turned_away :
        {o : Outcome W}
        → (answer c actor).allow ≡ false
        → (trace c actor).policy_decision ≡ decision_deny
        → o.world ≡ audit (trace c actor) w
        → o.response.status ≡ 403
        → Passes next c w actor o

  authorize-Passes :
      (next : Handler W) (c : Context) (w : W) (actor : Identity)
      → Passes next c w actor
          (authorize engine race audit action (question c actor).resource next actor c w)
  unfolding authorize abort
  authorize-Passes next c w actor = elim (Bool-cases (answer c actor).allow) [
    | inl allowed ↦ let_through allowed (rw allowed refl) (rw allowed refl)
    | inr denied ↦ turned_away denied (rw denied refl) (rw denied refl) (rw denied refl)
  ]

  -- Every decision about an authenticated request is audited exactly once and before the handler
  -- runs, the record tells the outcome, and the handler runs exactly if the engine allows it; a
  -- denied request gets 403 and changes nothing else.
  pub enforce-Passes :
      (next : Handler W) (c : Context) (w : W) (actor : Identity)
      → c.identity ≡ some actor
      → Passes next c w actor (enforce zero_value engine race audit action type extract next c w)
  unfolding enforce
  enforce-Passes next c w actor i =
      rw (require_actor_lem _ c w actor i) (authorize-Passes next c w actor)

-- A resource that the route marks as another tenant's crosses the tenants' border.
crosses :
    {F : Type 0} (zero_value : F) (type : String) (extract : ResourceExtractor F) (action : Action)
    (c : Context) (actor : Identity)
    → (extract c actor).tenant_id ≢ ""
    → (extract c actor).tenant_id ≢ actor.tenant_id
    → crosses_tenant (record {
      actor = actor;
      action = action;
      resource = effective_resource zero_value type (some extract) c actor;
    })
      ≡ true
unfolding crosses_tenant effective_resource
crosses zero_value type extract action c actor n m = rw (ne_false n, ne_false n, ne_false m) refl

-- A request about a resource that the route marks as another tenant's is answered with 403 by
-- every engine, the handler is not asked, and the one audit record names the built-in rule.
pub enforce-cross_tenant :
    {F W : Type 0} (zero_value : F) (engine : Engine F) (race : Race) (audit : Record → W → W)
    (action : Action) (type : String) (extract : ResourceExtractor F) (next : Handler W)
    (c : Context) (w : W) (actor : Identity)
    → c.identity ≡ some actor
    → (extract c actor).tenant_id ≢ ""
    → (extract c actor).tenant_id ≢ actor.tenant_id
    → let o = enforce zero_value engine race audit action type (some extract) next c w in
      let written = trace {W = W} zero_value engine race audit action type (some extract) c actor in
      (o.response.status ≡ 403)
      × (o.world ≡ audit written w)
      × (written.policy_rule_matched ≡ rule_cross_tenant_deny)
      × (written.policy_decision ≡ decision_deny)
unfolding enforce abort
enforce-cross_tenant zero_value engine race audit action type extract next c w actor i n m =
    let asked : Input _ =
      question {W = _} zero_value engine race audit action type (some extract) c actor in
    let e =
      evaluate-eq-cross_tenant_deny engine race asked
        (crosses zero_value type extract action c actor n m) in
    rw (require_actor_lem _ c w actor i, e) (refl, refl, refl, refl)
