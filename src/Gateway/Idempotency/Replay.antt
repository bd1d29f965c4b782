-- ===== src/Gateway/Idempotency/Replay.antt =====
-- The contract of internal/gateway/middleware/idempotency.go: the first execution and its replays.
use chain_pulse.Prelude.{
  ℕ, ◌+◌, ◌≤◌, ◌<◌, String, true, false, ◌≡◌, ◌≢◌, ◌⊎◌, inl, inr, refl, ap, ◌∙◌, none, some,
  Option-cases, Bool-cases, ne_false,
}
use chain_pulse.Identity.{Identity}
use chain_pulse.Storage.{
  RedisServer, StringLaws, cache_miss, unavailable, Reply, ok, err, redis_get, redis_set, key,
}
use chain_pulse.Http.{Context, Handler, Part, Outcome, require_actor_lem}
use chain_pulse.Gateway.Idempotency.{
  StoredResponse, JsonCodec, CodecLaws, IdempotencyEvents, stored_response, cacheable, replay,
  persist, remember, dedup, idempotency_suffix, idempotent_actor, idempotency,
}

module _ {W S : Type 0} (r : RedisServer S) (redis : Part W S) (codec : JsonCodec) (ttl : ℕ) where
  -- What an idempotent route reads for an actor.
  abbrev pub looked_up : IdempotencyEvents → Identity → Context → W → Reply String
  looked_up ev actor c w =
      redis_get r ev.get_fault ev.get_time actor.tenant_id (idempotency_suffix c) (redis.view w)

  -- Nothing is stored under the key, or something that does not decode.
  abbrev pub Missed : IdempotencyEvents → Identity → Context → W → Type 0
  Missed ev actor c w =
      (looked_up ev actor c w ≡ err cache_miss)
      ⊎ ((v : String) × (looked_up ev actor c w ≡ ok v) × (codec.unmarshal v ≡ none))

  pub with_key :
      (ev : IdempotencyEvents) (next : Handler W) (c : Context) (w : W) (actor : Identity)
      → c.header "Idempotency-Key" ≢ ""
      → c.identity ≡ some actor
      → idempotency r redis codec ttl ev next c w
        ≡ dedup r redis codec ttl ev actor.tenant_id
            (idempotency_suffix c)
            next
            c
            w
            (looked_up ev actor c w)
  unfolding idempotency
  with_key ev next c w actor n i =
      rw (ne_false n, require_actor_lem (idempotent_actor r redis codec ttl ev next) c w actor i)
        refl

  -- What can happen to a request that has an actor and a key.
  pub data Handled (ev : IdempotencyEvents) (next : Handler W) (c : Context) (w : W)
      (actor : Identity) : Outcome W → Type 0 where
    degraded :
        {o : Outcome W}
        → looked_up ev actor c w ≡ err unavailable
        → o ≡ next c w
        → Handled ev next c w actor o
    replayed :
        {o : Outcome W} (v : String) (sr : StoredResponse)
        → looked_up ev actor c w ≡ ok v
        → codec.unmarshal v ≡ some sr
        → o ≡ replay r redis codec c w sr
        → Handled ev next c w actor o
    executed :
        {o : Outcome W}
        → Missed ev actor c w
        → cacheable (next c w).response.status ≡ true
        → o
          ≡ persist r redis codec ttl ev actor.tenant_id
              (idempotency_suffix c)
              (next c w)
              (codec.marshal (stored_response r redis codec (next c w).response))
        → Handled ev next c w actor o
    not_kept :
        {o : Outcome W}
        → Missed ev actor c w
        → cacheable (next c w).response.status ≡ false
        → o ≡ next c w
        → Handled ev next c w actor o

  remember-Handled :
      (ev : IdempotencyEvents) (next : Handler W) (c : Context) (w : W) (actor : Identity)
      → Missed ev actor c w
      → Handled ev next c w actor
          (remember r redis codec ttl ev actor.tenant_id (idempotency_suffix c) (next c w))
  unfolding remember
  remember-Handled ev next c w actor why =
      elim (Bool-cases (cacheable (next c w).response.status)) [
        | inl e ↦ executed why e (rw e refl)
        | inr e ↦ not_kept why e (rw e refl)
      ]

  dedup-Handled :
      (ev : IdempotencyEvents) (next : Handler W) (c : Context) (w : W) (actor : Identity)
      (found : Reply String)
      → looked_up ev actor c w ≡ found
      → Handled ev next c w actor
          (dedup r redis codec ttl ev actor.tenant_id (idempotency_suffix c) next c w found)
  dedup-Handled ev next c w actor (ok v) e = elim (Option-cases (codec.unmarshal v)) [
    | inl u ↦ rw u (remember-Handled ev next c w actor (inr (v, e, u)))
    | inr (sr, u) ↦ replayed v sr e u (rw u refl)
  ]
  dedup-Handled ev next c w actor (err cache_miss) e = remember-Handled ev next c w actor (inl e)
  dedup-Handled ev next c w actor (err unavailable) e = degraded e refl

  -- A request with an actor and a key is replayed from a stored response that decodes, runs the
  -- handler untouched if Redis fails, and otherwise, that is if nothing is stored or it does not
  -- decode, runs it once and keeps its response, if that encodes, exactly when the status is
  -- between 200 and 499.
  pub idempotency-Handled :
      (ev : IdempotencyEvents) (next : Handler W) (c : Context) (w : W) (actor : Identity)
      → c.header "Idempotency-Key" ≢ ""
      → c.identity ≡ some actor
      → Handled ev next c w actor (idempotency r redis codec ttl ev next c w)
  idempotency-Handled ev next c w actor n i =
      rw (with_key ev next c w actor n i)
        (dedup-Handled ev next c w actor (looked_up ev actor c w) refl)

  module _ (strings : StringLaws r) (laws : CodecLaws codec) where
    -- The two requests share the tenant, the route and the key; between them nothing writes
    -- to that key, and the second reads before the time to live is over.
    pub record Retries (ev ev' : IdempotencyEvents) (c c' : Context) (actor actor' : Identity)
        (kept after : W) : Type 0 where
      pub tenant : actor'.tenant_id ≡ actor.tenant_id
      pub suffix : idempotency_suffix c' ≡ idempotency_suffix c
      pub reads : ev'.get_fault ≡ none
      pub later : ev.set_time ≤ ev'.get_time
      pub live : ev'.get_time < ev.set_time + ttl
      pub unwritten :
          r.get ev'.get_time (key actor.tenant_id (idempotency_suffix c)) (redis.view after)
          ≡ r.get ev'.get_time (key actor.tenant_id (idempotency_suffix c)) (redis.view kept)

    kept_under_key :
        (ev : IdempotencyEvents) (next : Handler W) (c : Context) (w : W) (actor : Identity)
        (b : String) (t : ℕ)
        → ev.set_fault ≡ none
        → ev.set_time ≤ t
        → t < ev.set_time + ttl
        → r.get t (key actor.tenant_id (idempotency_suffix c)) (
            redis.view
              (persist r redis codec ttl ev actor.tenant_id
                (idempotency_suffix c)
                (next c w)
                (some b)).world)
          ≡ some b
    unfolding redis_set
    kept_under_key ev next c w actor b t f le lt =
        rw (f, redis.view-put _ (next c w).world)
          (strings.get-set_self ev.set_time t _ b ttl _ le lt)

    -- A retry under the same tenant, route and key, within the time to live of the response that
    -- the first execution kept, gets that response again, marked as a replay; its handler is not
    -- run and the state stays as it is. The first request itself gets its handler's own response.
    pub idempotency-replay :
        (ev ev' : IdempotencyEvents) (next next' : Handler W) (c c' : Context) (w w' : W)
        (actor actor' : Identity) (b : String)
        → c.header "Idempotency-Key" ≢ ""
        → c.identity ≡ some actor
        → looked_up ev actor c w ≡ err cache_miss
        → cacheable (next c w).response.status ≡ true
        → codec.marshal (stored_response r redis codec (next c w).response) ≡ some b
        → ev.set_fault ≡ none
        → c'.header "Idempotency-Key" ≢ ""
        → c'.identity ≡ some actor'
        → Retries ev ev' c c' actor actor' (idempotency r redis codec ttl ev next c w).world w'
        → ((idempotency r redis codec ttl ev next c w).response ≡ (next c w).response)
          × (idempotency r redis codec ttl ev' next' c' w'
              ≡ replay r redis codec c' w' (stored_response r redis codec (next c w).response))
    unfolding remember redis_get
    idempotency-replay ev ev' next next' c c' w w' actor actor' b n i miss ok_status made f n' i'
          same =
        let kept : idempotency r redis codec ttl ev next c w
            ≡ persist r redis codec ttl ev actor.tenant_id (idempotency_suffix c) (next c w)
                (some b) =
          with_key ev next c w actor n i ∙ rw (miss, ok_status, made) refl in
        let read : r.get ev'.get_time (key actor.tenant_id (idempotency_suffix c)) (redis.view w')
            ≡ some b =
          same.unwritten
          ∙ ap
              (λ o.
                r.get ev'.get_time (key actor.tenant_id (idempotency_suffix c))
                  (redis.view o.world))
              kept
          ∙ kept_under_key ev next c w actor b ev'.get_time f same.later same.live in
        (
          ap (λ o. o.response) kept,
          with_key ev' next' c' w' actor' n' i'
              ∙ rw (same.tenant, same.suffix, same.reads, read, laws.unmarshal-marshal _ b made)
                  refl,
        )
