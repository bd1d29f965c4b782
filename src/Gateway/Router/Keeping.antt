-- ===== src/Gateway/Router/Keeping.antt =====
-- What the middlewares of internal/gateway/router.go keep of the context that a request comes with
-- and of the server's state.
use chain_pulse.Prelude.{ℕ, String, Bool, true, false, ◌==◌, Option, none, some, if◌then◌else◌}
use chain_pulse.Identity.{Identity}
use chain_pulse.Http.{Context, Handler, Outcome, Part, abort, unauthorized}
use chain_pulse.Http.Keeping.{Holds, Keeps, require_actor-Keeps, choose_outcome}
use chain_pulse.Auth.Errors.{Result, ok, err}
use chain_pulse.Audit.{Record}
use chain_pulse.Policy.{evaluate, Input, Decision, Engine, Race, Action}
use chain_pulse.Policy.Enforce.{
  ResourceExtractor, effective_resource, with_decision, authorize, enforce,
}
use chain_pulse.Storage.{RedisServer, Reply, ok, err, cache_miss, unavailable}
use chain_pulse.Gateway.Header.{bearer_token}
use chain_pulse.Gateway.Authenticate.{
  Resolver, resolve_key, resolve_credential, resolve_identity, with_identity, admit, authenticate,
}
use chain_pulse.Gateway.Limit.{
  Limiter, noted, suffix_of, answer_with, after_primary, rate_limit, or_false,
}
use chain_pulse.Gateway.Idempotency.{
  JsonCodec, IdempotencyEvents, StoredResponse, persist, remember, first_execution, replay_or_run,
  dedup, idempotency, stored_response,
}

-- A predicate on contexts and states that the values which the middleware sets on a context do not
-- touch.
pub record IsStable {W : Type 0} (Q : Context → W → Type 0) : Type 0 where
  pub identified : (c : Context) (w : W) (id : Identity) → Q c w → Q (with_identity c id) w
  pub noted_too : (c : Context) (w : W) → Q c w → Q (noted c) w
  pub decided : (c : Context) (w : W) (d : Decision) → Q c w → Q (with_decision c d) w

module _ {W : Type 0} (Q : Context → W → Type 0) where
  -- The key store, if there is one, or a limiter leaves a state with the predicate if it gets one.
  abbrev pub OnKeys : Option (Resolver W) → Type 0
  OnKeys none = Unit
  OnKeys (some resolve) =
      (presented : String) (c : Context) (w : W) → Q c w → Q c (resolve presented w).0

  abbrev pub OnLimiter : Limiter W → Type 0
  OnLimiter limiter =
      (tenant_id suffix : String) (c : Context) (w : W) → Q c w → Q c (limiter tenant_id suffix w).0

module _ {W : Type 0} (Q : Context → W → Type 0) (stable : IsStable Q) (next : Handler W)
    (keeps : Keeps Q next) where
  resolve_key_lem :
      (keys : Option (Resolver W)) (presented : String) (c : Context) (w : W)
      → OnKeys Q keys
      → Q c w
      → Q c (resolve_key keys presented w).0
  resolve_key_lem none presented c w on q = q
  resolve_key_lem (some resolve) presented c w on q = on presented c w q

  choose_state :
      (c : Context) (b : Bool) (x y : W × Result Identity)
      → Q c x.0
      → Q c y.0
      → Q c (if b then x else y).0
  choose_state c true x y p q = p
  choose_state c false x y p q = q

  resolve_credential_lem :
      (validate : String → Result Identity) (keys : Option (Resolver W)) (token : Option String)
      (api_key : String) (c : Context) (w : W)
      → OnKeys Q keys
      → Q c w
      → Q c (resolve_credential validate keys token api_key w).0
  resolve_credential_lem validate keys (some token) api_key c w on q = q
  resolve_credential_lem validate keys none api_key c w on q =
      choose_state c (api_key == "") _ _ q (resolve_key_lem keys api_key c w on q)

  admit_lem : (c : Context) (r : W × Result Identity) → Q c r.0 → Holds Q (admit next c r)
  unfolding unauthorized abort
  admit_lem c (w, ok id) q = keeps _ w (stable.identified c w id q)
  admit_lem c (w, err e) q = q

  pub authenticate-Keeps :
      (validate : String → Result Identity) (keys : Option (Resolver W))
      → OnKeys Q keys
      → Keeps Q (authenticate validate keys next)
  unfolding authenticate resolve_identity
  authenticate-Keeps validate keys on c w q = admit_lem c (resolve_identity validate keys c w) (
      resolve_credential_lem validate keys (bearer_token (c.header "Authorization"))
        (c.header "X-API-Key") c w on q)

  answer_with_lem :
      (c : Context) (w : W) (allowed : Bool) → Q c w → Holds Q (answer_with next c w allowed)
  unfolding abort
  answer_with_lem c w true q = keeps c w q
  answer_with_lem c w false q = q

  after_primary_lem :
      (fallback : Limiter W) (tenant_id suffix : String) (c : Context) (r : W × Reply Bool)
      → OnLimiter Q fallback
      → Q c r.0
      → Holds Q (after_primary fallback next tenant_id suffix c r)
  after_primary_lem fallback tenant_id suffix c (w, ok allowed) on q = answer_with_lem c w allowed q
  after_primary_lem fallback tenant_id suffix c (w, err e) on q =
      answer_with_lem (noted c) (fallback tenant_id suffix w).0
        (or_false (fallback tenant_id suffix w).1)
        (stable.noted_too c _ (on tenant_id suffix c w q))

  pub rate_limit-Keeps :
      (primary fallback : Limiter W)
      → OnLimiter Q primary
      → OnLimiter Q fallback
      → Keeps Q (rate_limit primary fallback next)
  unfolding rate_limit
  rate_limit-Keeps primary fallback on on' = require_actor-Keeps Q _ (λ actor c w q.
      after_primary_lem fallback _ _ c (primary actor.tenant_id (suffix_of c) w) on'
        (on actor.tenant_id (suffix_of c) c w q))

  pub enforce-Keeps :
      {F : Type 0} (zero_value : F) (engine : Engine F) (race : Race) (audit : Record → W → W)
      (action : Action) (type : String) (extract : Option (ResourceExtractor F))
      → ((line : Record) (c : Context) (w : W) → Q c w → Q c (audit line w))
      → Keeps Q (enforce zero_value engine race audit action type extract next)
  unfolding enforce authorize abort
  enforce-Keeps {F = F} zero_value engine race audit action type extract on =
      require_actor-Keeps Q _ (λ actor c w q.
        let resource = effective_resource zero_value type extract c actor in
        let asked : Input F = record { actor = actor; action = action; resource = resource } in
        let written = stable.decided c _ (evaluate engine race asked) (on _ c w q) in
        choose_outcome Q _ _ _ written (keeps _ _ written))

  module _ {S : Type 0} (r : RedisServer S) (redis : Part W S) (codec : JsonCodec)
      (on : (s : S) (c : Context) (w : W) → Q c w → Q c (redis.put s w)) where
    persist_lem :
        (ttl : ℕ) (ev : IdempotencyEvents) (tenant_id suffix : String) (o : Outcome W)
        (b : Option String)
        → Holds Q o
        → Holds Q (persist r redis codec ttl ev tenant_id suffix o b)
    persist_lem ttl ev tenant_id suffix o none q = q
    persist_lem ttl ev tenant_id suffix o (some b) q = on _ o.context o.world q

    first_execution_lem :
        (ttl : ℕ) (ev : IdempotencyEvents) (tenant_id suffix : String) (c : Context) (w : W)
        → Q c w
        → Holds Q (first_execution r redis codec ttl ev tenant_id suffix next c w)
    unfolding remember
    first_execution_lem ttl ev tenant_id suffix c w q =
        let o = next c w in
        let left = keeps c w q in
        choose_outcome Q _ _ _
          (persist_lem ttl ev tenant_id suffix o
            (codec.marshal (stored_response r redis codec o.response)) left)
          left

    dedup_lem :
        (ttl : ℕ) (ev : IdempotencyEvents) (tenant_id suffix : String) (c : Context) (w : W)
        (reply : Reply String)
        → Q c w
        → Holds Q (dedup r redis codec ttl ev tenant_id suffix next c w reply)
    dedup_lem ttl ev tenant_id suffix c w (ok val) q = decoded (codec.unmarshal val)
      where
        decoded :
            (sr : Option StoredResponse)
            → Holds Q (replay_or_run r redis codec ttl ev tenant_id suffix next c w sr)
        decoded (some sr) = q
        decoded none = first_execution_lem ttl ev tenant_id suffix c w q
    dedup_lem ttl ev tenant_id suffix c w (err cache_miss) q =
        first_execution_lem ttl ev tenant_id suffix c w q
    dedup_lem ttl ev tenant_id suffix c w (err unavailable) q = keeps c w q

    pub idempotency-Keeps :
        (ttl : ℕ) (ev : IdempotencyEvents) → Keeps Q (idempotency r redis codec ttl ev next)
    unfolding idempotency abort
    idempotency-Keeps ttl ev c w q =
        choose_outcome Q (c.header "Idempotency-Key" == "") _ _ q
          (require_actor-Keeps Q _ (λ actor c w q. dedup_lem ttl ev _ _ c w _ q) c w q)
