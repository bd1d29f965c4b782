-- ===== src/Gateway/Router/Traffic.antt =====
-- Histories of requests to the endpoints of internal/gateway/router.go.
use mathlib.Core.List.{Memᴰ}
use chain_pulse.Prelude.{
  ℕ, suc, ◌+◌, String, true, ◌≡◌, ◌≢◌, refl, sym, ap, ◌∙◌, subst, arith, List, [], ◌∷◌, ◌++◌,
  Option, none, some, All, length, ne_false,
}
use chain_pulse.Http.{Context, Handler, abort, unauthorized}
use chain_pulse.Logger.{writes_info}
use chain_pulse.Storage.{Fault, not_executed}
use chain_pulse.Auth.Errors.{AuthError, Result, ok, err, internal_error, key_revoked}
use chain_pulse.Identity.{Identity}
use chain_pulse.Audit.{Record}
use chain_pulse.Auth.Token.{validate}
use mathlib.Core.Option
use chain_pulse.Auth.ApiKey.{hash_api_key}
use chain_pulse.Auth.Rows.{Row, Table, find, has_hash}
use chain_pulse.Auth.Store.{resolve, revoke}
use chain_pulse.Auth.Store.Changes.{unchanged}
use chain_pulse.Auth.Store.Lifecycle.{IsRevoked, Changes-IsRevoked, revoke_marks, resolve_revoked}
use chain_pulse.Auth.Store.Tenants.{HasUniqueIds, Changes-HasUniqueIds}
use chain_pulse.Gateway.Header.{bearer_token}
use chain_pulse.Gateway.Authenticate.{resolve_identity, admit, authenticate}
use chain_pulse.Gateway.RequestId.{rid_of, with_request_id}
use chain_pulse.Gateway.AccessLog.{Observed}
use chain_pulse.Gateway.Deps.{key_hash, Server, Deps, Arrival}
use chain_pulse.Policy.{Action}
use chain_pulse.Gateway.Router.{
  Route, Endpoint, new_router, behind_auth, observed, serve, serve_key, limited, key_limited,
  resolver_of,
}
use chain_pulse.Gateway.Router.Effects.{Follows, KeepsFollowing, new_router-KeepsFollowing}
use chain_pulse.Gateway.Router.Logged.{IsLoggedOnce, new_router-IsLoggedOnce}

All-Mem : {A : Type 0} (P : A → Type 0) {x : A} (xs : List A) → All P xs → Memᴰ x xs → P x
All-Mem P [] h m = elim m [ ]
All-Mem P (y ∷ ys) (here, later) (Memᴰ.head e) = subst P (sym e) here
All-Mem P (y ∷ ys) (here, later) (Memᴰ.tail m) = All-Mem P ys later m

module _ {F S : Type 0} (d : Deps F S) where
  -- So many requests to whatever endpoints, one after the other, each with what the outside does in it.
  pub data Traffic (w : Observed (Server S)) : ℕ → Observed (Server S) → Type 0 where
    quiet : Traffic w 0 w
    request :
        {n : ℕ} {v : Observed (Server S)} (a : Arrival) (c : Context)
        (e : Endpoint (Observed (Server S)))
        → Traffic w n v
        → Memᴰ e (new_router d a)
        → Traffic w (suc n) (e.handler c v).world

  Traffic-Follows :
      {w : Observed (Server S)} {n : ℕ} {v : Observed (Server S)}
      → Traffic w n v
      → Follows w.inner v.inner
  Traffic-Follows quiet = record { keys = unchanged; lines = []; trail = refl }
  Traffic-Follows {w = w} (request {v = v} a c e before m) =
      All-Mem (λ e. KeepsFollowing w.inner e.handler) (new_router d a)
        (new_router-KeepsFollowing d a w.inner) m c v (Traffic-Follows before)

  Traffic-length :
      {w : Observed (Server S)} {n : ℕ} {v : Observed (Server S)}
      → writes_info d.logger.level ≡ true
      → Traffic w n v
      → length v.access ≡ n + length w.access
  Traffic-length loud quiet = omega arith
  Traffic-length {w = w} loud (request {n = n} {v = v} a c e before m) =
      let logged =
        All-Mem
          (λ e.
            (c : Context) (u : Observed (Server S))
            → IsLoggedOnce d.logger a.uuid c u.access (e.handler c u))
          (new_router d a) (new_router-IsLoggedOnce d a loud) m c v in
      ap length logged.written ∙ omega (arith, Traffic-length loud before)

  -- Whatever requests come to whatever endpoints of the gateway, with whatever bodies, times and
  -- failures: with a logger that writes at INFO the access log grows by exactly one line for each
  -- request, the audit trail only grows at its front, and the ids of the table of keys stay
  -- unique.
  pub Traffic_keeps :
      (w : Observed (Server S)) (n : ℕ) (v : Observed (Server S))
      → writes_info d.logger.level ≡ true
      → HasUniqueIds w.inner.table
      → Traffic w n v
      → (length v.access ≡ n + length w.access)
        × ((lines : List Record) × (v.inner.trail ≡ lines ++ w.inner.trail))
        × HasUniqueIds v.inner.table
  Traffic_keeps w n v loud unique traffic =
      let f = Traffic-Follows traffic in
      (Traffic-length loud traffic, (f.lines, f.trail), Changes-HasUniqueIds f.keys unique)

  -- The credential of this request is a key that is revoked.
  lookup_refused :
      (h : String → String) (fault stamp_fault : Option Fault) (now : ℕ) (presented : String)
      (t : Table)
      → IsRevoked (h presented) t
      → (e : AuthError) × ((resolve h fault stamp_fault now presented t).1 ≡ err e)
  unfolding resolve
  lookup_refused h none stamp_fault now presented t gone =
      (key_revoked, resolve_revoked h stamp_fault now presented t gone)
  lookup_refused h (some fault) stamp_fault now presented t gone = (internal_error, refl)

  resolve_identity-refused :
      (h : String → String) (a : Arrival) (c : Context) (v : Server S)
      → IsRevoked (h (c.header "X-API-Key")) v.table
      → bearer_token (c.header "Authorization") ≡ none
      → c.header "X-API-Key" ≢ ""
      → (e : AuthError) × ((resolve_identity
            (validate d.lib d.issuer a.token_time)
            (resolver_of d a (some h))
            c
            v).1
          ≡ err e)
  unfolding resolve_identity
  resolve_identity-refused h a c v gone bare named =
      rw (bare, ne_false named)
        (lookup_refused h a.lookup_fault a.stamp_fault a.key_time (c.header "X-API-Key") v.table
          gone)

  admit_refused :
      (next : Handler (Server S)) (c : Context) (r : Server S × Result Identity) (e : AuthError)
      → r.1 ≡ err e
      → (admit next c r).response.status ≡ 401
  unfolding unauthorized abort
  admit_refused next c (w, ok id) e h = cc
  admit_refused next c (w, err x) e h = refl

  refused_behind_auth :
      (h : String → String) (a : Arrival) (next : Handler (Server S)) (c : Context) (v : Server S)
      → key_hash d ≡ some h
      → IsRevoked (h (c.header "X-API-Key")) v.table
      → bearer_token (c.header "Authorization") ≡ none
      → c.header "X-API-Key" ≢ ""
      → (behind_auth d a next c v).response.status ≡ 401
  unfolding authenticate
  refused_behind_auth h a next c v keyed gone bare named =
      let (e, answer) = resolve_identity-refused h a c v gone bare named in
      rw keyed (admit_refused next c _ e answer)

  -- Once Revoke has run for the row of a key, then, after whatever further requests to whatever
  -- endpoints of the gateway and whatever fails in them, a request with that key and no bearer token
  -- is answered with 401 on every stub route and on every API key route, even if Redis, the
  -- lookup or the stamp fails.
  pub revoked_key_refused :
      (sha256 : String → List ℕ) (fault : Option Fault) (now : ℕ) (r : Row) (t : Table)
      (w : Observed (Server S)) (n : ℕ) (v : Observed (Server S)) (a : Arrival) (c : Context)
      → d.api_keys ≡ some sha256
      → fault ≢ some not_executed
      → find (has_hash (hash_api_key sha256 (c.header "X-API-Key"))) t ≡ some r
      → w.inner.table ≡ (revoke fault now r.tenant_id r.id t).0
      → Traffic w n v
      → bearer_token (c.header "Authorization") ≡ none
      → c.header "X-API-Key" ≢ ""
      → ((ρ : Route) → (serve d a ρ c v).response.status ≡ 401)
        × ((action : Action) (endpoint : Handler (Server S))
            → (serve_key d a action endpoint c v).response.status ≡ 401)
  unfolding serve serve_key observed
  revoked_key_refused sha256 fault now r t w n v a c keyed executed found revoked traffic bare
        named =
      let f = Traffic-Follows traffic in
      let h = hash_api_key sha256 in
      let start : IsRevoked (h (c.header "X-API-Key")) w.inner.table =
        rw revoked (revoke_marks (h (c.header "X-API-Key")) fault now r t executed found) in
      let gone = Changes-IsRevoked (h (c.header "X-API-Key")) f.keys start in
      let refused = λ (next : Handler (Server S)).
        refused_behind_auth h a next (with_request_id d.logger (rid_of a.uuid c) c) v.inner
          (ap (Option.map hash_api_key) keyed) gone bare named in
      (λ ρ. refused (limited d a ρ), λ action endpoint. refused (key_limited d a action endpoint))
