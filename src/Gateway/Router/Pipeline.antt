-- ===== src/Gateway/Router/Pipeline.antt =====
-- One request to a stub route of internal/gateway/router.go, from its headers to the handler.
use chain_pulse.Prelude.{
  String, Bool, true, ◌≡◌, ◌≢◌, ◌⊎◌, refl, sym, ap, ◌∙◌, inl, inr, Option, none, some,
}
use chain_pulse.Identity.{Identity}
use chain_pulse.Logger.{writes_info}
use chain_pulse.Scope.{Scope}
use chain_pulse.Gateway.RequestId.{rid_of, with_request_id}
use chain_pulse.Gateway.AccessLog.{Observed, seen}
use chain_pulse.Http.{Context, Handler, Outcome}
use chain_pulse.Auth.Errors.{Result, ok}
use chain_pulse.Auth.Token.{validate}
use chain_pulse.Gateway.Authenticate.{with_identity, resolve_key}
use chain_pulse.Gateway.Authenticate.Boundary.{
  Presents, bearer, partner_key, nothing, Admits, accepted, refused, authenticate-Admits,
}
use chain_pulse.Gateway.Limit.Fallback.{
  Decides, by_primary, by_fallback, Limited, admitted, rejected, rate_limit-Limited,
}
use chain_pulse.Gateway.Deps.{key_hash, Server, Deps, Arrival}
use chain_pulse.Gateway.Router.{
  Route, redis_limiter, memory_limiter, resolver_of, guarded, limited, serve,
}
use chain_pulse.Storage.{RedisError, Reply}
use chain_pulse.Gateway.Limit.{suffix_of}
use chain_pulse.Gateway.Router.Gated.{
  asked, Ran, Fate, idle, ran, Ran-from, Ran-same, Fate-from, guarded-Fate,
}

module _ {F S : Type 0} (d : Deps F S) (a : Arrival) (ρ : Route) where
  -- The limiters change neither the counter nor the trail, and the context only in a mark.
  pub record Kept (c c' : Context) (w w' : Server S) (actor : Identity) : Type 0 where
    pub identified : c'.identity ≡ c.identity
    pub question : asked d a ρ c' actor ≡ asked d a ρ c actor
    pub counter : w'.calls ≡ w.calls
    pub trail : w'.trail ≡ w.trail
    pub same_method : c'.method ≡ c.method

  pub Decides-Kept :
      {next : Handler (Server S)} {c : Context} {w : Server S} {actor : Identity} {c' : Context}
      {w' : Server S} {b : Bool}
      → Decides (redis_limiter d a) (memory_limiter d a) next c w actor c' w' b
      → Kept c c' w w' actor
  unfolding asked
  Decides-Kept (by_primary w' b e) = record {
    identified = refl;
    question = refl;
    counter = ap (λ p. p.0.calls) (sym e);
    trail = ap (λ p. p.0.trail) (sym e);
    same_method = refl;
  }
  Decides-Kept (by_fallback w' x e) = record {
    identified = refl;
    question = refl;
    counter = ap (λ p. p.0.calls) (sym e);
    trail = ap (λ p. p.0.trail) (sym e);
    same_method = refl;
  }

  -- The limiter that decides admits the actor's request to the route: Redis, or the in-memory one where
  -- Redis fails.
  abbrev pub Granted : Context → Server S → Identity → Type 0
  Granted c w actor =
      let (w', answer) = redis_limiter d a actor.tenant_id (suffix_of c) w in
      (answer ≡ Reply.ok true)
      ⊎ ((e : RedisError) × (answer ≡ Reply.err e)
          × ((memory_limiter d a actor.tenant_id (suffix_of c) w').1 ≡ Reply.ok true))

  Decides-Granted :
      {next : Handler (Server S)} {c : Context} {w : Server S} {actor : Identity} {c' : Context}
      {w' : Server S} {b : Bool}
      → Decides (redis_limiter d a) (memory_limiter d a) next c w actor c' w' b
      → b ≡ true
      → Granted c w actor
  Decides-Granted (by_primary w' b e) h = inl (ap (λ p. p.1) e ∙ ap Reply.ok h)
  Decides-Granted {c = c} {actor = actor} (by_fallback w' x e) h = inr (
    x,
    ap (λ p. p.1) e,
    ap (λ p. (memory_limiter d a actor.tenant_id (suffix_of c) p.0).1) e ∙ ap Reply.ok h,
  )

  -- What is left of a request that an actor makes.
  data Way (c : Context) (w : Server S) (actor : Identity) (o : Outcome (Server S)) : Type 0 where
    stopped : o.world.calls ≡ w.calls → Way c w actor o
    passed : Granted c w actor → Ran d a ρ c w actor o → Way c w actor o

  module _ (loud : writes_info d.logger.level ≡ true) (c : Context) (w : Server S)
      (actor : Identity) where
    Fate-Way :
        {o : Outcome (Server S)} → Granted c w actor → Fate d a ρ c w actor o → Way c w actor o
    Fate-Way g (idle e) = stopped e
    Fate-Way g (ran r) = passed g r

    Limited-Way :
        {c' : Context} {w' : Server S} {b : Bool} {o : Outcome (Server S)}
        → c.identity ≡ some actor
        → Kept c c' w w' actor
        → (b ≡ true → Granted c w actor)
        → Limited (redis_limiter d a) (memory_limiter d a) (guarded d a ρ) c w actor c' w' b o
        → Way c w actor o
    Limited-Way {c'} {w'} i k g admitted = Fate-Way (g refl) (
        Fate-from d a ρ k.question k.counter k.trail
          (guarded-Fate d a ρ loud c' w' actor (k.identified ∙ i)))
    Limited-Way i k g (rejected status e) = stopped (ap (λ v. v.calls) e ∙ k.counter)

    limited-Way : c.identity ≡ some actor → Way c w actor (limited d a ρ c w)
    limited-Way i =
        let (c', w', b, decides, result) =
          rate_limit-Limited (redis_limiter d a) (memory_limiter d a) (guarded d a ρ) c w actor i in
        Limited-Way i (Decides-Kept decides) (Decides-Granted decides) result

  -- The request carries a credential that the issuer or the key store accepts as this actor's, and
  -- leaves this state.
  abbrev pub Authentic : Context → Server S → Server S → Identity → Type 0
  Authentic c w w' actor =
      Presents (validate d.lib d.issuer a.token_time) (resolver_of d a (key_hash d)) c w
        (w', ok actor)

  resolver-Kept :
      (keys : Option (String → String)) (presented : String) (w : Server S)
      → ((resolve_key (resolver_of d a keys) presented w).0.calls ≡ w.calls)
        × ((resolve_key (resolver_of d a keys) presented w).0.trail ≡ w.trail)
  resolver-Kept none presented w = (refl, refl)
  resolver-Kept (some h) presented w = (refl, refl)

  pub Presents-Kept :
      {c : Context} {w : Server S} {r : Server S × Result Identity}
      → Presents (validate d.lib d.issuer a.token_time) (resolver_of d a (key_hash d)) c w r
      → (r.0.calls ≡ w.calls) × (r.0.trail ≡ w.trail)
  Presents-Kept (bearer token e) = (refl, refl)
  Presents-Kept {c} {w} (partner_key e n) = resolver-Kept (key_hash d) (c.header "X-API-Key") w
  Presents-Kept (nothing e n) = (refl, refl)

  -- The request id changes no header.
  Presents-from :
      {c : Context} {rid : Option String} {scope : Scope} {w : Server S}
      {r : Server S × Result Identity}
      → Presents
          (validate d.lib d.issuer a.token_time)
          (resolver_of d a (key_hash d))
          (record c { request_id = rid; scope = scope })
          w
          r
      → Presents (validate d.lib d.issuer a.token_time) (resolver_of d a (key_hash d)) c w r
  Presents-from (bearer token e) = bearer token e
  Presents-from (partner_key e n) = partner_key e n
  Presents-from (nothing e n) = nothing e n

  Admits-Ran :
      {c : Context} {rid : Option String} {scope : Scope} {w : Server S}
      {r : Server S × Result Identity} {o : Outcome (Server S)}
      → Presents (validate d.lib d.issuer a.token_time) (resolver_of d a (key_hash d)) c w r
      → Admits
          (validate d.lib d.issuer a.token_time)
          (resolver_of d a (key_hash d))
          (limited d a ρ)
          (record c { request_id = rid; scope = scope })
          r
          o
      → writes_info d.logger.level ≡ true
      → o.world.calls ≢ w.calls
      → (actor : Identity) × (w' : Server S) × Authentic c w w' actor
        × Granted c w' actor
        × Ran d a ρ c w actor o
  unfolding asked
  Admits-Ran {c} {rid} {scope} {w} p (accepted w' id) loud n =
      let (counter, trail) = Presents-Kept p in
      elim (limited-Way loud (with_identity (record c { request_id = rid; scope = scope }) id) w' id
        refl) [
          | stopped e ↦ absurd (n (e ∙ counter))
          | passed g r ↦ (id, w', p, g, Ran-from d a ρ {c = c} refl counter trail r)
        ]
  Admits-Ran p (refused w' e status same) loud n =
      absurd (n (ap (λ v. v.calls) same ∙ (Presents-Kept p).0))

  -- With a logger that writes at INFO: if the handler behind a stub route was called at all, the request
  -- carried an accepted credential of some actor, the limiter that decides admitted it, the engine
  -- allows that actor the route's action on the described resource, the audit trail has exactly one new
  -- line, which says so for that actor, and the handler was called once. So no request reaches the
  -- handler unauthenticated, over the limit, unauthorized or unaudited.
  pub serve-Ran :
      (c : Context) (w : Observed (Server S))
      → writes_info d.logger.level ≡ true
      → (serve d a ρ c w).world.inner.calls ≢ w.inner.calls
      → (actor : Identity) × (w' : Server S) × Authentic c w.inner w' actor
        × Granted c w' actor
        × Ran d a ρ c w.inner actor (seen (serve d a ρ c w))
  unfolding serve
  serve-Ran c w loud n =
      let (r, presents, admits) =
        authenticate-Admits (validate d.lib d.issuer a.token_time) (resolver_of d a (key_hash d))
          (limited d a ρ) (with_request_id d.logger (rid_of a.uuid c) c) w.inner in
      let (actor, w', authentic, granted, trace) =
        Admits-Ran (Presents-from presents) admits loud n in
      (actor, w', authentic, granted, Ran-same d a ρ refl refl trace)
