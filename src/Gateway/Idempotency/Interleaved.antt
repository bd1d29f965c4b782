-- ===== src/Gateway/Idempotency/Interleaved.antt =====
-- Idempotency of internal/gateway/middleware/idempotency.go for requests that run at the same time:
-- the requests of one tenant to one route under one key, each between its lookup, its handler and
-- its store. Nothing holds the key in between.
use chain_pulse.Prelude.{
  ℕ, ◌≤◌, String, Bool, true, false, not, ◌||◌, ◌≡◌, refl, List, ◌∷◌, Option, none, some, nat_eq,
  if◌then◌else◌,
}
use chain_pulse.Storage.{
  RedisServer, Fault, cache_miss, unavailable, Reply, ok, err, redis_get, redis_set, key,
}
use chain_pulse.Auth.Rows.{is_some}
use chain_pulse.Http.{Response}
use chain_pulse.Gateway.Idempotency.{
  StoredResponse, JsonCodec, stored_response, cacheable, replay_response,
}

-- How far a request has come. `admitted` tells whether the response of its handler is to be kept.
pub data Phase : Type 0 where
  waiting : Phase
  admitted : Bool → Phase
  answered : Response → Phase
  finished : Response → Phase

pub record Traffic (S : Type 0) : Type 0 where
  pub clock : ℕ
  pub redis : S
  pub phases : ℕ → Phase
  -- The executions of handlers: the request and what its handler gave.
  pub runs : List (ℕ × Response)

abbrev pub moved : ℕ → Phase → (ℕ → Phase) → ℕ → Phase
moved i x phases j = if nat_eq j i then x else phases j

abbrev pub decoded : Option StoredResponse → Phase
decoded none = admitted true
decoded (some sr) = finished (replay_response sr)

-- The response of a handler goes on to be stored, or is all.
abbrev pub after_run : Bool → Response → Phase
after_run true p = answered p
after_run false p = finished p

-- The stored form of a response; the state is that of Redis alone.
abbrev pub stored : {S : Type 0} → RedisServer S → JsonCodec → Response → StoredResponse
stored r codec p =
    stored_response r (record { view = λ s. s; put = λ s w. s; view-put = λ s w. refl }) codec p

module _ {S : Type 0} (r : RedisServer S) (codec : JsonCodec) (tenant_id suffix : String)
    (ttl : ℕ) where
  -- What the lookup decides.
  abbrev pub after_lookup : Reply String → Phase
  after_lookup (ok val) = decoded (codec.unmarshal val)
  after_lookup (err cache_miss) = admitted true
  after_lookup (err unavailable) = admitted false

  abbrev pub set_marshalled : Option Fault → ℕ → Option String → S → S
  set_marshalled fault now none s = s
  set_marshalled fault now (some b) s = (redis_set r fault now tenant_id suffix b ttl s).0

  -- What is left in Redis once a handler has given its response.
  abbrev pub keep : Option Fault → ℕ → Response → S → S
  keep fault now p s =
      if cacheable p.status
      then set_marshalled fault now (codec.marshal (stored r codec p)) s
      else s

  -- One step of one request, of time, or of a client of Redis that leaves the key alone. Without
  -- `faults`, the lookups reach Redis.
  pub data Step (faults : Bool) (σ : Traffic S) : Traffic S → Type 0 where
    passes : (t : ℕ) → σ.clock ≤ t → Step faults σ (record σ { clock = t })
    others :
        (s : S)
        → ((t : ℕ) → r.get t (key tenant_id suffix) s ≡ r.get t (key tenant_id suffix) σ.redis)
        → Step faults σ (record σ { redis = s })
    looks :
        (i : ℕ) (fault : Option Fault)
        → σ.phases i ≡ waiting
        → (faults || not (is_some fault)) ≡ true
        → Step faults σ (record σ {
          phases =
              moved i (after_lookup (redis_get r fault σ.clock tenant_id suffix σ.redis)) σ.phases;
        })
    runs_handler :
        (i : ℕ) (keeps : Bool) (p : Response)
        → σ.phases i ≡ admitted keeps
        → Step faults σ
            (record σ { phases = moved i (after_run keeps p) σ.phases; runs = (i, p) ∷ σ.runs })
    stores :
        (i : ℕ) (fault : Option Fault) (p : Response)
        → σ.phases i ≡ answered p
        → Step faults σ (record σ {
          redis = keep fault σ.clock p σ.redis;
          phases = moved i (finished p) σ.phases;
        })

  pub data Steps (faults : Bool) (σ : Traffic S) : Traffic S → Type 0 where
    stays : Steps faults σ σ
    and_then : {τ υ : Traffic S} → Steps faults σ τ → Step faults τ υ → Steps faults σ υ
