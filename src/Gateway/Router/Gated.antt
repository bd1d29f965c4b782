-- ===== src/Gateway/Router/Gated.antt =====
-- One request behind the limiter of internal/gateway/router.go: idempotency, policy, handler.
use chain_pulse.Prelude.{
  suc, String, Bool, true, false, ◌==◌, ◌≡◌, refl, sym, ap, ◌∙◌, inl, inr, ◌∷◌, Option, none, some,
  Bool-cases, ne_of_false, if◌then◌else◌,
}
use chain_pulse.Identity.{Identity}
use chain_pulse.Http.{Context, Handler, Outcome, abort}
use chain_pulse.Logger.{writes_info, info_written}
use chain_pulse.Audit.{Record, log_write, decision_allow}
use chain_pulse.Policy.{Input, evaluate}
use chain_pulse.Policy.Enforce.{effective_resource}
use chain_pulse.Policy.Enforce.Gate.{Passes, let_through, turned_away, enforce-Passes}
use chain_pulse.Gateway.Idempotency.{persist, idempotency}
use chain_pulse.Gateway.Idempotency.Replay.{
  Handled, degraded, replayed, executed, not_kept, idempotency-Handled,
}
use chain_pulse.Gateway.Deps.{Server, Deps, Arrival}
use chain_pulse.Gateway.Stub.{query_resource_extractor}
use chain_pulse.Gateway.Router.{Route, handle, redis_part, write_audit, gate, guarded}

module _ {F S : Type 0} (d : Deps F S) (a : Arrival) (ρ : Route) where
  -- What the engine is asked about a request to the route.
  unfoldable pub asked : Context → Identity → Input F
  unfolding effective_resource query_resource_extractor
  asked c actor = record {
    actor = actor;
    action = ρ.action;
    resource =
        effective_resource d.floats.zero_value ρ.type (some (query_resource_extractor d.floats)) c
          actor;
  }

  -- The handler ran for the actor: the engine allowed it, the one new line of the audit trail says
  -- so, and the handler was called once.
  pub record Ran (c : Context) (w : Server S) (actor : Identity) (o : Outcome (Server S))
      : Type 0 where
    pub allowed : (evaluate d.engine a.race (asked c actor)).allow ≡ true
    pub line : Record
    pub audited : o.world.trail ≡ line ∷ w.trail
    pub decision : line.policy_decision ≡ decision_allow
    pub about_actor : (line.tenant_id ≡ actor.tenant_id) × (line.actor_id ≡ actor.user_id)
    pub called : o.world.calls ≡ suc w.calls

  pub data Fate (c : Context) (w : Server S) (actor : Identity) (o : Outcome (Server S))
      : Type 0 where
    idle : o.world.calls ≡ w.calls → Fate c w actor o
    ran : Ran c w actor o → Fate c w actor o

  -- It is told of another start with the same counter, trail and question, or of another outcome with
  -- the same counter and trail.
  pub Ran-from :
      {c c' : Context} {w w' : Server S} {actor : Identity} {o : Outcome (Server S)}
      → asked c' actor ≡ asked c actor
      → w'.calls ≡ w.calls
      → w'.trail ≡ w.trail
      → Ran c' w' actor o
      → Ran c w actor o
  Ran-from q n l r = record {
    allowed = ap (λ i. (evaluate d.engine a.race i).allow) (sym q) ∙ r.allowed;
    line = r.line;
    audited = r.audited ∙ ap (◌∷◌ r.line) l;
    decision = r.decision;
    about_actor = r.about_actor;
    called = r.called ∙ ap suc n;
  }

  pub Ran-same :
      {c : Context} {w : Server S} {actor : Identity} {o o' : Outcome (Server S)}
      → o'.world.calls ≡ o.world.calls
      → o'.world.trail ≡ o.world.trail
      → Ran c w actor o
      → Ran c w actor o'
  Ran-same n l r = record {
    allowed = r.allowed;
    line = r.line;
    audited = l ∙ r.audited;
    decision = r.decision;
    about_actor = r.about_actor;
    called = n ∙ r.called;
  }

  pub Fate-from :
      {c c' : Context} {w w' : Server S} {actor : Identity} {o : Outcome (Server S)}
      → asked c' actor ≡ asked c actor
      → w'.calls ≡ w.calls
      → w'.trail ≡ w.trail
      → Fate c' w' actor o
      → Fate c w actor o
  Fate-from q n l (idle e) = idle (e ∙ n)
  Fate-from q n l (ran r) = ran (Ran-from q n l r)

  Fate-same :
      {c : Context} {w : Server S} {actor : Identity} {o o' : Outcome (Server S)}
      → o'.world.calls ≡ o.world.calls
      → o'.world.trail ≡ o.world.trail
      → Fate c w actor o
      → Fate c w actor o'
  Fate-same n l (idle e) = idle (n ∙ e)
  Fate-same n l (ran r) = ran (Ran-same n l r)

  module _ (loud : writes_info d.logger.level ≡ true) (c : Context) (w : Server S)
      (actor : Identity) where
    Passes-Fate :
        {o : Outcome (Server S)}
        → Passes d.floats.zero_value d.engine a.race
            (write_audit d.logger a.audit_time)
            ρ.action
            ρ.type
            (some (query_resource_extractor d.floats))
            handle
            c
            w
            actor
            o
        → Fate c w actor o
    unfolding asked handle log_write
    Passes-Fate (let_through allow says e) = ran (record {
      allowed = allow;
      line = _;
      audited = ap (λ o. o.world.trail) e ∙ info_written d.logger _ w.trail loud;
      decision = says;
      about_actor = (refl, refl);
      called = ap (λ o. o.world.calls) e;
    })
    Passes-Fate (turned_away deny says e status) = idle (ap (λ v. v.calls) e)

    gate-Fate : c.identity ≡ some actor → Fate c w actor (gate d a ρ c w)
    gate-Fate i = Passes-Fate (enforce-Passes _ _ _ _ _ _ _ handle c w actor i)

    persist-Fate :
        (suffix : String) (o : Outcome (Server S)) (b : Option String)
        → Fate c w actor o
        → Fate c w actor (
            persist d.redis redis_part d.codec d.idempotency_ttl a.idempotency actor.tenant_id
              suffix o b)
    persist-Fate suffix o none f = f
    persist-Fate suffix o (some b) f = Fate-same refl refl f

    Handled-Fate :
        {o : Outcome (Server S)}
        → c.identity ≡ some actor
        → Handled d.redis redis_part d.codec d.idempotency_ttl a.idempotency
            (gate d a ρ)
            c
            w
            actor
            o
        → Fate c w actor o
    Handled-Fate i (degraded why e) = rw e (gate-Fate i)
    Handled-Fate i (replayed v sr found u e) = idle (ap (λ o. o.world.calls) e)
    Handled-Fate i (executed why kept e) = rw e (persist-Fate _ _ _ (gate-Fate i))
    Handled-Fate i (not_kept why status e) = rw e (gate-Fate i)

    idempotency-Fate :
        c.identity ≡ some actor
        → Fate c w actor (
            idempotency d.redis redis_part d.codec d.idempotency_ttl a.idempotency (gate d a ρ) c w)
    unfolding idempotency abort
    idempotency-Fate i = elim (Bool-cases (c.header "Idempotency-Key" == "")) [
      | inl e ↦ rw e (idle refl)
      | inr e ↦ Handled-Fate i (
          idempotency-Handled d.redis redis_part d.codec d.idempotency_ttl a.idempotency
            (gate d a ρ) c w actor (ne_of_false e) i)
    ]

    choice-Fate :
        (b : Bool) (x y : Handler (Server S))
        → Fate c w actor (x c w)
        → Fate c w actor (y c w)
        → Fate c w actor ((if b then x else y) c w)
    choice-Fate true x y p q = p
    choice-Fate false x y p q = q

    pub guarded-Fate : c.identity ≡ some actor → Fate c w actor (guarded d a ρ c w)
    guarded-Fate i = choice-Fate ρ.idempotent _ _ (idempotency-Fate i) (gate-Fate i)
