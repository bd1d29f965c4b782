-- ===== src/Gateway/Router/KeyRoutes.antt =====
-- The routes of registerAPIKeyRoutes in internal/gateway/router.go under the default rules.
use chain_pulse.Prelude.{Bool, true, ◌≡◌, refl, sym, ap, ◌∙◌, ◌⊎◌, inl, inr, some, ℤ, ne_of_false}
use chain_pulse.Identity.{Identity, role_admin, role_analyst}
use chain_pulse.Http.{Context, Handler, Outcome, abort, unauthorized}
use chain_pulse.Auth.Errors.{Result, ok, err}
use chain_pulse.Auth.Token.{validate}
use chain_pulse.Policy.{Action, action_read, new_engine, Input, evaluate}
use chain_pulse.Policy.Decisions.{evaluate-allow_iff}
use chain_pulse.Policy.Rules.{default_rules}
use chain_pulse.Policy.Rules.Matrix.{
  Permitted, an_admin, an_analyst_reads, a_manager_reads_inventory, a_manager_writes_own_region,
  a_manager_handles_orders, a_supplier_owns_shipment, a_supplier_reads_own_inventory,
  default_rules-Permitted_iff,
}
use chain_pulse.Policy.Enforce.{effective_resource}
use chain_pulse.Auth.Rows.{Table}
use chain_pulse.Policy.Enforce.Gate.{Passes, let_through, turned_away, enforce-Passes, question}
use chain_pulse.Gateway.Authenticate.{with_identity, resolve_identity, admit, authenticate}
use chain_pulse.Gateway.Limit.{rate_limit}
use chain_pulse.Gateway.Limit.Fallback.{
  Decides, by_primary, by_fallback, Limited, admitted, rejected, rate_limit-Limited,
}
use chain_pulse.Gateway.RequestId.{rid_of, with_request_id}
use chain_pulse.Gateway.AccessLog.{Observed}
use chain_pulse.Gateway.Stub.{query_resource_extractor}
use chain_pulse.Gateway.Deps.{key_hash, Server, Deps, Arrival}
use chain_pulse.Gateway.Router.{
  redis_limiter, memory_limiter, resolver_of, key_gate, serve_key, write_audit,
}

-- Whom the default rules let use a key route: admins, and analysts where the route reads.
abbrev pub MayUse : Action → Identity → Type 0
MayUse action actor =
    (actor.role ≡ role_admin) ⊎ ((actor.role ≡ role_analyst) × (action ≡ action_read))

Permitted-MayUse :
    {F : Type 0} (inp : Input F)
    → inp.resource.type ≡ "api_key"
    → Permitted inp
    → MayUse inp.action inp.actor
Permitted-MayUse inp t (an_admin r) = inl r
Permitted-MayUse inp t (an_analyst_reads r a) = inr (r, a)
Permitted-MayUse inp t (a_manager_reads_inventory r t1 a) = absurd (ne_of_false refl (sym t ∙ t1))
Permitted-MayUse inp t (a_manager_writes_own_region r t1 a n e) =
    absurd (ne_of_false refl (sym t ∙ t1))
Permitted-MayUse inp t (a_manager_handles_orders r t1 a) = absurd (ne_of_false refl (sym t ∙ t1))
Permitted-MayUse inp t (a_supplier_owns_shipment r t1 n e) = absurd (ne_of_false refl (sym t ∙ t1))
Permitted-MayUse inp t (a_supplier_reads_own_inventory r t1 a n e) =
    absurd (ne_of_false refl (sym t ∙ t1))

allowed-MayUse :
    {F S : Type 0} (d : Deps F S) (a : Arrival) (timeout : ℤ) (inp : Input F)
    → d.engine ≡ new_engine (default_rules d.floats) timeout
    → inp.resource.type ≡ "api_key"
    → (evaluate d.engine a.race inp).allow ≡ true
    → MayUse inp.action inp.actor
allowed-MayUse d a timeout inp e t h =
    let engine = new_engine (default_rules d.floats) timeout in
    let allow : (evaluate engine a.race inp).allow ≡ true =
      ap (λ x. (evaluate x a.race inp).allow) (sym e) ∙ h in
    let same_tenant = ((evaluate-allow_iff engine a.race inp).0 allow).0 in
    let in_time = ((evaluate-allow_iff engine a.race inp).0 allow).1 in
    Permitted-MayUse inp t
      ((default_rules-Permitted_iff d.floats timeout a.race inp same_tenant in_time).0 allow)

-- What the credential of a request stands for, with the state that its lookup leaves.
abbrev pub looked_up :
    {F S : Type 0} → Deps F S → Arrival → Context → Server S → Server S × Result Identity
unfolding resolve_identity
looked_up d a c w =
    resolve_identity (validate d.lib d.issuer a.token_time) (resolver_of d a (key_hash d)) c w

module _ {F S : Type 0} (d : Deps F S) (a : Arrival) (timeout : ℤ)
    (rules : d.engine ≡ new_engine (default_rules d.floats) timeout) (action : Action)
    (next : Handler (Server S)) where
  -- A request that is turned away, with the table of keys as it was.
  record Refused (t : Table) (o : Outcome (Server S)) : Type 0 where
    same_table : o.world.table ≡ t
    status : (o.response.status ≡ 401) ⊎ (o.response.status ≡ 403) ⊎ (o.response.status ≡ 429)

  Passes-Refused :
      {c : Context} {w : Server S} {actor : Identity} {o : Outcome (Server S)}
      → (MayUse action actor → ⊥)
      → Passes d.floats.zero_value d.engine a.race
          (write_audit d.logger a.audit_time)
          action
          "api_key"
          (some (query_resource_extractor d.floats))
          next
          c
          w
          actor
          o
      → Refused w.table o
  unfolding effective_resource
  Passes-Refused {c} {w} {actor} n (let_through allow says e) = absurd (
      n (
        allowed-MayUse d a timeout
          (question {W = Server S} d.floats.zero_value d.engine a.race
            (write_audit d.logger a.audit_time) action "api_key"
            (some (query_resource_extractor d.floats)) c actor)
          rules refl allow))
  Passes-Refused n (turned_away deny says e status) = record {
    same_table = ap (λ w. w.table) e;
    status = inr (inl status);
  }

  Decides-table :
      {c : Context} {w : Server S} {actor : Identity} {c' : Context} {w' : Server S} {b : Bool}
      → Decides
          (redis_limiter d a)
          (memory_limiter d a)
          (key_gate d a action next)
          c
          w
          actor
          c'
          w'
          b
      → (w'.table ≡ w.table) × (c'.identity ≡ c.identity)
  Decides-table (by_primary w' b e) = (ap (λ p. p.0.table) (sym e), refl)
  Decides-table (by_fallback w' x e) = (ap (λ p. p.0.table) (sym e), refl)

  Limited-Refused :
      {c c' : Context} {w w' : Server S} {actor : Identity} {b : Bool} {o : Outcome (Server S)}
      → (MayUse action actor → ⊥)
      → c'.identity ≡ some actor
      → w'.table ≡ w.table
      → Limited
          (redis_limiter d a)
          (memory_limiter d a)
          (key_gate d a action next)
          c
          w
          actor
          c'
          w'
          b
          o
      → Refused w.table o
  Limited-Refused {c' = c'} {w' = w'} {actor = actor} n i t admitted =
      let r = Passes-Refused n (enforce-Passes _ _ _ _ _ _ _ next c' w' actor i) in
      record { same_table = r.same_table ∙ t; status = r.status }
  Limited-Refused n i t (rejected status e) = record {
    same_table = ap (λ w. w.table) e ∙ t;
    status = inr (inr status);
  }

  admit-Refused :
      (c : Context) (r : Server S × Result Identity)
      → ((actor : Identity) → r.1 ≡ ok actor → MayUse action actor → ⊥)
      → Refused r.0.table (
          admit
            (rate_limit (redis_limiter d a) (memory_limiter d a) (key_gate d a action next))
            c
            r)
  unfolding unauthorized abort
  admit-Refused c (w, ok id) n =
      let (c', w', b, decides, result) =
        rate_limit-Limited (redis_limiter d a) (memory_limiter d a) (key_gate d a action next)
          (with_identity c id) w id refl in
      let (t, i) = Decides-table decides in Limited-Refused (n id refl) i t result
  admit-Refused c (w, err e) n = record { same_table = refl; status = inl refl }

  -- Under the default rules, with any timeout of the engine and any fate of Redis, a request to one
  -- of the API key routes whose credential is not accepted, or is accepted as somebody who is no
  -- admin (nor, on the route that lists the keys, an analyst), is answered with 401, 403 or 429
  -- and leaves the table of keys as the lookup of its credential left it.
  pub serve_key-refused :
      (c : Context) (w : Observed (Server S))
      → ((actor : Identity) → (looked_up d a c w.inner).1 ≡ ok actor → MayUse action actor → ⊥)
      → ((serve_key d a action next c w).world.inner.table ≡ (looked_up d a c w.inner).0.table)
        × (((serve_key d a action next c w).response.status ≡ 401)
            ⊎ ((serve_key d a action next c w).response.status ≡ 403)
            ⊎ ((serve_key d a action next c w).response.status ≡ 429))
  unfolding serve_key authenticate resolve_identity
  serve_key-refused c w n =
      let refused =
        admit-Refused (with_request_id d.logger (rid_of a.uuid c) c) (looked_up d a c w.inner) n in
      (refused.same_table, refused.status)
