-- ===== src/Gateway/Router/Chains.antt =====
-- What every endpoint of internal/gateway/router.go keeps, whatever chain it has.
use chain_pulse.Prelude.{
  ℕ, String, Bool, true, false, map, Option, none, some, All, All-append, All-map, if◌then◌else◌,
}
use chain_pulse.Http.{Context, Handler}
use chain_pulse.Http.Keeping.{Keeps}
use chain_pulse.Audit.{Record}
use chain_pulse.Policy.{Action}
use chain_pulse.Policy.Enforce.{enforce}
use chain_pulse.Auth.Rows.{Table}
use chain_pulse.Auth.Store.{resolve}
use chain_pulse.Auth.Store.Changes.{Changes, resolves, step, step-Changes}
use chain_pulse.Auth.Handlers.{
  issue_token, refresh_token, create_key, list_keys, rotate_key, revoke_key,
}
use chain_pulse.Auth.Handlers.Keeping.{
  issue_token-Keeps, refresh_token-Keeps, create_key-Keeps, list_keys-Keeps, rotate_key-Keeps,
  revoke_key-Keeps,
}
use chain_pulse.Gateway.AccessLog.{Observed}
use chain_pulse.Gateway.RateLimit.{Windows}
use chain_pulse.Gateway.Limit.{rate_limit}
use chain_pulse.Gateway.Idempotency.{idempotency}
use chain_pulse.Gateway.Deps.{key_hash, Server, Deps, Arrival}
use chain_pulse.Gateway.Stub.{query_resource_extractor}
use chain_pulse.Gateway.Router.{
  Route, handle, stub_routes, stub_endpoint, handle_health, gate, guarded, limited, behind_auth,
  key_limited, observed, serve, serve_key, key_routes, new_router, table_part, redis_part,
  write_audit, resolver_of, redis_limiter, memory_limiter,
}
use chain_pulse.Gateway.Router.Keeping.{
  IsStable, OnKeys, authenticate-Keeps, rate_limit-Keeps, enforce-Keeps, idempotency-Keeps,
}

module _ {F S : Type 0} (d : Deps F S) (a : Arrival) where
  -- A predicate on what the chains pass on that none of their effects touches: the state of the two
  -- limiters, the calls counter, a line of the audit trail, a statement of the key store.
  pub record IsKept (Q : Context → Server S → Type 0) : Type 0 where
    pub stable : IsStable Q
    pub redis_free : (s : S) (c : Context) (w : Server S) → Q c w → Q c (record w { redis = s })
    pub windows_free :
        (l : Windows) (c : Context) (w : Server S) → Q c w → Q c (record w { windows = l })
    pub calls_free : (n : ℕ) (c : Context) (w : Server S) → Q c w → Q c (record w { calls = n })
    pub audited :
        (line : Record) (c : Context) (w : Server S)
        → Q c w
        → Q c (write_audit d.logger a.audit_time line w)
    pub stored :
        (t : Table) (c : Context) (w : Server S)
        → Changes w.table t
        → Q c w
        → Q c (record w { table = t })

  module _ (Q : Context → Server S → Type 0) (kept : IsKept Q) where
    on_keys : (keys : Option (String → String)) → OnKeys Q (resolver_of d a keys)
    unfolding resolve step
    on_keys none = tt
    on_keys (some h) = λ presented c v q.
        kept.stored _ c v
          (step-Changes h a.key_time v.table (resolves a.lookup_fault a.stamp_fault presented)) q

    handle-Keeps : Keeps Q handle
    unfolding handle
    handle-Keeps c v q = kept.calls_free _ c v q

    behind_auth-Keeps : (next : Handler (Server S)) → Keeps Q next → Keeps Q (behind_auth d a next)
    behind_auth-Keeps next keeps =
        authenticate-Keeps Q kept.stable next keeps _ (resolver_of d a (key_hash d))
          (on_keys (key_hash d))

    limit-Keeps :
        (next : Handler (Server S))
        → Keeps Q next
        → Keeps Q (rate_limit (redis_limiter d a) (memory_limiter d a) next)
    limit-Keeps next keeps =
        rate_limit-Keeps Q kept.stable next keeps (redis_limiter d a) (memory_limiter d a)
          (λ tenant_id suffix c v q. kept.redis_free _ c v q)
          (λ tenant_id suffix c v q. kept.windows_free _ c v q)

    gated-Keeps :
        (action : Action) (type : String) (next : Handler (Server S))
        → Keeps Q next
        → Keeps Q (
            enforce d.floats.zero_value d.engine a.race
              (write_audit d.logger a.audit_time)
              action
              type
              (some (query_resource_extractor d.floats))
              next)
    gated-Keeps action type next keeps =
        enforce-Keeps Q kept.stable next keeps d.floats.zero_value d.engine a.race
          (write_audit d.logger a.audit_time) action type (some (query_resource_extractor d.floats))
          kept.audited

    guarded-Keeps : (ρ : Route) → Keeps Q (guarded d a ρ)
    guarded-Keeps ρ = choice ρ.idempotent
      where
        gate-Keeps : Keeps Q (gate d a ρ)
        gate-Keeps = gated-Keeps ρ.action ρ.type handle handle-Keeps

        choice :
            (b : Bool)
            → Keeps Q (
                if b
                then idempotency d.redis redis_part d.codec d.idempotency_ttl a.idempotency
                    (gate d a ρ)
                else gate d a ρ)
        choice true =
            idempotency-Keeps Q kept.stable (gate d a ρ) gate-Keeps d.redis redis_part d.codec
              kept.redis_free d.idempotency_ttl a.idempotency
        choice false = gate-Keeps

    served-Keeps : (ρ : Route) → Keeps Q (behind_auth d a (limited d a ρ))
    served-Keeps ρ = behind_auth-Keeps _ (limit-Keeps _ (guarded-Keeps ρ))

    served_key-Keeps :
        (action : Action) (next : Handler (Server S))
        → Keeps Q next
        → Keeps Q (behind_auth d a (key_limited d a action next))
    served_key-Keeps action next keeps =
        behind_auth-Keeps _ (limit-Keeps _ (gated-Keeps action "api_key" next keeps))

  -- What follows for an endpoint from what its chain keeps of each predicate of a family follows for
  -- every endpoint of the router.
  module _ {I : Type 0} (Q : I → Context → Server S → Type 0) (kept : (i : I) → IsKept (Q i))
      (P : Handler (Observed (Server S)) → Type 0)
      (wrap : (next : Handler (Server S))
        → ((i : I) → Keeps (Q i) next)
        → P (observed d a next)) where
    of_key_route :
        (action : Action) (next : Handler (Server S))
        → ((i : I) → Keeps (Q i) next)
        → P (serve_key d a action next)
    unfolding serve_key
    of_key_route action next keeps =
        wrap (behind_auth d a (key_limited d a action next))
          (λ i. served_key-Keeps (Q i) (kept i) action next (keeps i))

    of_route : (ρ : Route) → P (serve d a ρ)
    unfolding serve
    of_route ρ = wrap (behind_auth d a (limited d a ρ)) (λ i. served-Keeps (Q i) (kept i) ρ)

    of_key_routes : (keys : Option (String → String)) → All (λ e. P e.handler) (key_routes d a keys)
    of_key_routes none = tt
    of_key_routes (some h) =
        let e = a.keys in
        let codec = d.auth_codec in
        (
          of_key_route _ (create_key codec h table_part e.fault e.time e.entropy e.new_id) (λ i.
              create_key-Keeps (Q i) codec h table_part (kept i).stored e.fault e.time e.entropy
                e.new_id),
          (
            of_key_route _ (list_keys codec h table_part e.fault)
                (λ i. list_keys-Keeps (Q i) codec h table_part (kept i).stored e.fault),
            (
              of_key_route _ (rotate_key codec h table_part e.rotation e.time) (λ i.
                  rotate_key-Keeps (Q i) codec h table_part (kept i).stored e.rotation e.time),
              (
                of_key_route _ (revoke_key codec h table_part e.fault e.time)
                    (λ i. revoke_key-Keeps (Q i) codec h table_part (kept i).stored e.fault e.time),
                tt,
              ),
            ),
          ),
        )

    pub of_every_endpoint : All (λ e. P e.handler) (new_router d a)
    unfolding new_router
    of_every_endpoint = (
      wrap (handle_health d a) (λ i c v q. q),
      (
        wrap (issue_token d.auth_codec d.lib d.issuer a.user_uuid a.token_time)
            (λ i. issue_token-Keeps (Q i) d.auth_codec d.lib d.issuer a.user_uuid a.token_time),
        (
          wrap (refresh_token d.auth_codec d.lib d.issuer a.token_time)
              (λ i. refresh_token-Keeps (Q i) d.auth_codec d.lib d.issuer a.token_time),
          All-append (λ e. P e.handler) (map (stub_endpoint d a) stub_routes)
              (key_routes d a (key_hash d))
              (All-map (λ e. P e.handler) (stub_endpoint d a) stub_routes of_route)
              (of_key_routes (key_hash d)),
        ),
      ),
    )
