-- ===== src/Gateway/Router/Running.antt =====
-- Requests to a stub route of internal/gateway/router.go that do reach the handler.
use chain_pulse.Prelude.{
  suc, Bool, true, false, ◌==◌, ◌≡◌, refl, sym, ap, ◌∙◌, some, inl, inr, not_true, if◌then◌else◌,
}
use chain_pulse.Identity.{Identity}
use chain_pulse.Http.{Context, Handler, Outcome}
use chain_pulse.Auth.Errors.{ok}
use chain_pulse.Auth.Token.{validate}
use chain_pulse.Storage.{Reply}
use chain_pulse.Policy.{evaluate}
use chain_pulse.Policy.Enforce.Gate.{Passes, let_through, turned_away, enforce-Passes}
use chain_pulse.Gateway.Authenticate.{with_identity, admit, resolve_identity, authenticate}
use chain_pulse.Gateway.Authenticate.Boundary.{resolve_identity-Presents}
use chain_pulse.Gateway.Limit.{or_false, suffix_of, rate_limit}
use chain_pulse.Gateway.Limit.Fallback.{
  Decides, by_primary, by_fallback, Limited, admitted, rejected, rate_limit-Limited,
}
use chain_pulse.Gateway.RequestId.{rid_of, with_request_id}
use chain_pulse.Gateway.AccessLog.{Observed}
use chain_pulse.Gateway.Stub.{query_resource_extractor}
use chain_pulse.Gateway.Deps.{key_hash, Server, Deps, Arrival}
use chain_pulse.Gateway.Router.{
  Route, handle, redis_limiter, memory_limiter, resolver_of, gate, limited, write_audit, serve,
}
use chain_pulse.Gateway.Router.Gated.{asked}
use chain_pulse.Gateway.Router.KeyRoutes.{looked_up}
use chain_pulse.Gateway.Router.Pipeline.{Granted, Decides-Kept, Presents-Kept}

module _ {F S : Type 0} (d : Deps F S) (a : Arrival) (ρ : Route) where
  -- The handler was called once more than the counter says, and its answer is the response.
  record Answered (c : Context) (w : Server S) (o : Outcome (Server S)) : Type 0 where
    called : o.world.calls ≡ suc w.calls
    status : o.response.status ≡ (if c.method == "POST" then 201 else 200)

  Passes-Answered :
      {c : Context} {w : Server S} {actor : Identity} {o : Outcome (Server S)}
      → (evaluate d.engine a.race (asked d a ρ c actor)).allow ≡ true
      → Passes d.floats.zero_value d.engine a.race
          (write_audit d.logger a.audit_time)
          ρ.action
          ρ.type
          (some (query_resource_extractor d.floats))
          handle
          c
          w
          actor
          o
      → Answered c w o
  unfolding asked handle
  Passes-Answered h (let_through allow says e) = record {
    called = ap (λ o. o.world.calls) e;
    status = ap (λ o. o.response.status) e;
  }
  Passes-Answered h (turned_away deny says e status) = absurd (not_true (sym deny ∙ h))

  Decides-true :
      {next : Handler (Server S)} {c : Context} {w : Server S} {actor : Identity} {c' : Context}
      {w' : Server S} {b : Bool}
      → Decides (redis_limiter d a) (memory_limiter d a) next c w actor c' w' b
      → Granted d a ρ c w actor
      → b ≡ true
  Decides-true (by_primary w' b e) (inl g) = ap or_false (sym (ap (λ p. p.1) e) ∙ g)
  Decides-true (by_primary w' b e) (inr (x, f, g)) =
      let failed : Reply.ok b ≡ Reply.err x = sym (ap (λ p. p.1) e) ∙ f in cc
  Decides-true (by_fallback w' x e) (inl g) =
      let failed : Reply.err x ≡ Reply.ok true = sym (ap (λ p. p.1) e) ∙ g in cc
  Decides-true {c = c} {actor = actor} (by_fallback w' x e) (inr (y, f, g)) =
      ap or_false (ap (λ p. (memory_limiter d a actor.tenant_id (suffix_of c) p.0).1) (sym e) ∙ g)

  -- What the limiters change does not matter to the answer.
  Answered-from :
      {c c' : Context} {w w' : Server S} {o : Outcome (Server S)}
      → c'.method ≡ c.method
      → w'.calls ≡ w.calls
      → Answered c' w' o
      → Answered c w o
  Answered-from m n r = record {
    called = r.called ∙ ap suc n;
    status = r.status ∙ ap (λ m. if m == "POST" then 201 else 200) m;
  }

  Limited-Answered :
      {c c' : Context} {w w' : Server S} {actor : Identity} {b : Bool} {o : Outcome (Server S)}
      → b ≡ true
      → c'.identity ≡ some actor
      → (evaluate d.engine a.race (asked d a ρ c' actor)).allow ≡ true
      → Limited (redis_limiter d a) (memory_limiter d a) (gate d a ρ) c w actor c' w' b o
      → Answered c' w' o
  Limited-Answered {c' = c'} {w' = w'} {actor = actor} h i allow admitted =
      Passes-Answered allow (enforce-Passes _ _ _ _ _ _ _ handle c' w' actor i)
  Limited-Answered h i allow (rejected status e) = not_true h

  module _ (c : Context) (w : Server S) (actor : Identity) where
    gated-Answered :
        c.identity ≡ some actor
        → Granted d a ρ c w actor
        → (evaluate d.engine a.race (asked d a ρ c actor)).allow ≡ true
        → Answered c w (rate_limit (redis_limiter d a) (memory_limiter d a) (gate d a ρ) c w)
    gated-Answered i g allow =
        let (c', w', b, decides, result) =
          rate_limit-Limited (redis_limiter d a) (memory_limiter d a) (gate d a ρ) c w actor i in
        let k = Decides-Kept d a ρ decides in
        Answered-from k.same_method k.counter (
          Limited-Answered (Decides-true decides g) (k.identified ∙ i)
            (ap (λ x. (evaluate d.engine a.race x).allow) k.question ∙ allow) result)

  pick : (b : Bool) (x y : Handler (Server S)) → b ≡ false → (if b then x else y) ≡ y
  pick b x y h = rw h refl

  looked_up-counter : (c : Context) (w : Server S) → (looked_up d a c w).0.calls ≡ w.calls
  unfolding resolve_identity
  looked_up-counter c w =
      (Presents-Kept d a ρ (
        resolve_identity-Presents (validate d.lib d.issuer a.token_time)
          (resolver_of d a (key_hash d)) c w)).0

  -- A request to a stub route without an idempotency key that carries a credential accepted as some
  -- actor's, that the limiter which decides admits, and that the engine allows this actor, is
  -- answered by the handler: with 201 to a POST and 200 otherwise, and the handler is called once.
  pub serve-runs :
      (c : Context) (w : Observed (Server S)) (w' : Server S) (actor : Identity)
      → ρ.idempotent ≡ false
      → looked_up d a c w.inner ≡ (w', ok actor)
      → Granted d a ρ c w' actor
      → (evaluate d.engine a.race (asked d a ρ c actor)).allow ≡ true
      → ((serve d a ρ c w).world.inner.calls ≡ suc w.inner.calls)
        × ((serve d a ρ c w).response.status ≡ (if c.method == "POST" then 201 else 200))
  unfolding serve authenticate asked resolve_identity
  serve-runs c w w' actor plain found granted allow =
      let c1 = with_identity (with_request_id d.logger (rid_of a.uuid c) c) actor in
      let answered = gated-Answered c1 w' actor refl granted allow in
      let same : admit (limited d a ρ) (with_request_id d.logger (rid_of a.uuid c) c)
            (looked_up d a c w.inner)
          ≡ rate_limit (redis_limiter d a) (memory_limiter d a) (gate d a ρ) c1 w' =
        ap (admit (limited d a ρ) (with_request_id d.logger (rid_of a.uuid c) c)) found
        ∙ ap (λ h. rate_limit (redis_limiter d a) (memory_limiter d a) h c1 w')
            (pick ρ.idempotent _ (gate d a ρ) plain) in
      let counter : w'.calls ≡ w.inner.calls =
        ap (λ r. r.0.calls) (sym found) ∙ looked_up-counter c w.inner in
      (
        ap (λ o. o.world.calls) same ∙ answered.called ∙ ap suc counter,
        ap (λ o. o.response.status) same ∙ answered.status,
      )
