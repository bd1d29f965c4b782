-- ===== src/Gateway/Limit/Instances.antt =====
-- RateLimit of internal/gateway/middleware/ratelimit.go on several instances of the gateway: they
-- share one Redis, and each has an in-memory limiter of its own.
use chain_pulse.Prelude.{
  ℕ, ◌≡◌, String, Bool, false, List, [], ◌∷◌, Option, some, ℤ, nat_eq, not, any, pos_part, ◌+◌, ◌*◌,
  ◌≤◌, ◌<◌, if◌then◌else◌,
}
use chain_pulse.Identity.{Identity}
use chain_pulse.Http.{Context, Handler, reply, no_body}
use chain_pulse.Storage.{RedisServer, SortedSetLaws, Fault, ok}
use chain_pulse.Gateway.RateLimit.{Windows, sub_ℕ, redis_allow, memory_allow, new_memory_limiter}
use chain_pulse.Auth.Rows.{is_some}
use chain_pulse.Gateway.Limit.{Limiter, rate_limit, suffix_of}

-- What the limiters keep, and the times at which the handler behind them ran.
pub record Cluster (S : Type 0) : Type 0 where
  pub redis : S
  pub windows : ℕ → Windows
  pub served : List ℕ

-- A request at an instance: when each limiter is called, the fresh UUID, and what Redis does.
pub record Request : Type 0 where
  pub instance_id : ℕ
  pub context : Context
  pub now : ℕ
  pub fallback_now : ℕ
  pub member : String
  pub fault : Option Fault

abbrev pub at {ℓ} : {A : Type ℓ} → ℕ → A → (ℕ → A) → ℕ → A
at i x f j = if nat_eq j i then x else f j

-- Whether the call of Redis fails.
abbrev pub failed : Request → Bool
failed q = is_some q.fault

abbrev pub answered : Request → Bool
answered q = not (failed q)

-- When the limiter that decided was called.
abbrev pub decided_at : Request → Context → ℕ
decided_at q c = if c.ratelimit_fallback then q.fallback_now else q.now

abbrev pub start : {S : Type 0} → S → Cluster S
start s = record { redis = s; windows = λ i. new_memory_limiter; served = [] }

abbrev pub share : Bool → ℕ → ℕ
share b x = if b then x else 0

-- What n instances admit in a window: the limit if Redis ever answers, and n times the limit if it
-- ever fails.
abbrev pub most_admitted : ℤ → ℕ → List Request → ℕ
most_admitted limit n qs =
    share (any answered qs) (pos_part limit) + share (any failed qs) (n * pos_part limit)

module _ {S : Type 0} (r : RedisServer S) (limit : ℤ) (window : ℕ) where
  abbrev pub shared_limiter : Request → Limiter (Cluster S)
  shared_limiter q tenant_id suffix w =
      let (s, answer) =
        redis_allow r q.fault tenant_id suffix limit window q.now q.member w.redis in
      (record w { redis = s }, answer)

  abbrev pub own_limiter : Request → Limiter (Cluster S)
  own_limiter q tenant_id suffix w =
      let (l, answer) =
        memory_allow tenant_id suffix limit window q.fallback_now (w.windows q.instance_id) in
      (record w { windows = at q.instance_id l w.windows }, ok answer)

  abbrev pub note_served : Request → Handler (Cluster S)
  note_served q c w = reply (record w { served = decided_at q c ∷ w.served }) c 200 no_body

  unfoldable pub arrive : Request → Cluster S → Cluster S
  arrive q w = (rate_limit (shared_limiter q) (own_limiter q) (note_served q) q.context w).world

  unfoldable pub arrive_all : List Request → Cluster S → Cluster S
  arrive_all [] w = w
  arrive_all (q ∷ qs) w = arrive_all qs (arrive q w)

  -- The UUID of a request is no member of the set at the time when it is added.
  abbrev pub IsFresh : SortedSetLaws r → String → Request → Cluster S → Type 0
  IsFresh laws k q w =
      laws.has_member q.now k q.member (r.zremrangebyscore q.now k 0 (sub_ℕ q.now window) w.redis)
      ≡ false

  abbrev pub AllFresh : SortedSetLaws r → String → List Request → Cluster S → Type 0
  AllFresh laws k [] w = Unit
  AllFresh laws k (q ∷ qs) w = IsFresh laws k q w × AllFresh laws k qs (arrive q w)

-- An authenticated request of this tenant to this route, of which nothing is recorded yet.
pub record IsOf (tenant_id suffix : String) (q : Request) : Type 0 where
  pub actor : Identity
  pub authenticated : q.context.identity ≡ some actor
  pub same_tenant : actor.tenant_id ≡ tenant_id
  pub same_route : suffix_of q.context ≡ suffix
  pub unnoted : q.context.ratelimit_fallback ≡ false

-- What is asked of a sequence of requests: their kind, their instance, and clocks that do not go
-- back.
abbrev pub IsSchedule : String → String → ℕ → ℕ → ℕ → List Request → Type 0
IsSchedule tenant_id suffix n last fallback_last [] = Unit
IsSchedule tenant_id suffix n last fallback_last (q ∷ qs) =
    IsOf tenant_id suffix q
    × (q.instance_id < n)
    × (last ≤ q.now)
    × (fallback_last ≤ q.fallback_now)
    × IsSchedule tenant_id suffix n q.now q.fallback_now qs
