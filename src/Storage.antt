-- ===== src/Storage.antt =====
-- shared/storage/redis.go: the tenant-scoped wrapper over Redis. Redis itself is a service: the
-- commands that the source sends are the fields of `RedisServer`, and what is relied on of their
-- documented behaviour stands in `StringLaws` and `SortedSetLaws`.
pub mod Keys
use Prim.Native.String.{◌++◌}
use chain_pulse.Prelude.{
  ℕ, ◌+◌, ◌≤◌, ◌<◌, String, Bool, true, false, ◌&&◌, not, ◌≡◌, ◌≢◌, ◌⊎◌, Option, none, some, ℤ, pos,
  negsuc, leb, if◌then◌else◌,
}

-- The commands, each at a time of the one clock, in milliseconds.
pub record RedisServer (S : Type 0) : Type 0 where
  pub get : ℕ → String → S → Option String
  pub set : ℕ → String → String → ℕ → S → S
  pub set_nx : ℕ → String → String → ℕ → S → S × Bool
  pub zremrangebyscore : ℕ → String → ℕ → ℤ → S → S
  pub zcard : ℕ → String → S → ℕ
  pub zadd : ℕ → String → ℕ → String → S → S
  pub pexpire : ℕ → String → ℕ → S → S

-- A call that goes wrong was lost before the server ran it, or its reply was.
pub data Fault : Type 0 where
  not_executed reply_lost : Fault

pub data RedisError : Type 0 where
  cache_miss unavailable : RedisError

pub data Reply {ℓ} (A : Type ℓ) : Type ℓ where
  ok : A → Reply A
  err : RedisError → Reply A

-- score ≤ bound
abbrev pub score_le : ℕ → ℤ → Bool
score_le n (pos k) = leb n k
score_le n (negsuc k) = false

pub record StringLaws {S : Type 0} (r : RedisServer S) : Type 0 where
  -- A value stays readable until its time to live is over.
  pub get-set_self :
      (t t' : ℕ) (k v : String) (ttl : ℕ) (s : S)
      → t ≤ t'
      → t' < t + ttl
      → r.get t' k (r.set t k v ttl s) ≡ some v
  -- From then on it may be gone.
  pub get-set_late :
      (t t' : ℕ) (k v : String) (ttl : ℕ) (s : S)
      → t + ttl ≤ t'
      → (r.get t' k (r.set t k v ttl s) ≡ none) ⊎ (r.get t' k (r.set t k v ttl s) ≡ some v)
  pub get-set_other :
      (t t' : ℕ) (k j v : String) (ttl : ℕ) (s : S)
      → j ≢ k
      → r.get t' j (r.set t k v ttl s) ≡ r.get t' j s

-- `tally t k p s` is the number of members of the sorted set at key `k` and time `t` whose score
-- passes `p`.
pub record SortedSetLaws {S : Type 0} (r : RedisServer S) : Type 0 where
  pub tally : ℕ → String → (ℕ → Bool) → S → ℕ
  pub has_member : ℕ → String → String → S → Bool
  pub zcard-tally : (t : ℕ) (k : String) (s : S) → r.zcard t k s ≡ tally t k (λ _. true) s
  pub tally-zremrangebyscore :
      (t t' : ℕ) (k : String) (hi : ℤ) (p : ℕ → Bool) (s : S)
      → t ≤ t'
      → tally t' k p (r.zremrangebyscore t k 0 hi s)
        ≡ tally t' k (λ n. p n && not (score_le n hi)) s
  pub tally-zadd :
      (t : ℕ) (k : String) (score : ℕ) (m : String) (p : ℕ → Bool) (s : S)
      → has_member t k m s ≡ false
      → tally t k p (r.zadd t k score m s) ≡ (if p score then 1 else 0) + tally t k p s
  -- Before the deadline an expiry changes nothing, and from it on the set may be gone.
  pub tally-pexpire_before :
      (t t' : ℕ) (k : String) (ms : ℕ) (p : ℕ → Bool) (s : S)
      → t ≤ t'
      → t' < t + ms
      → tally t' k p (r.pexpire t k ms s) ≡ tally t k p s
  pub tally-pexpire_after :
      (t t' : ℕ) (k : String) (ms : ℕ) (p : ℕ → Bool) (s : S)
      → t + ms ≤ t'
      → tally t' k p (r.pexpire t k ms s) ≤ tally t k p s

-- Redis.Key
unfoldable pub key : String → String → String
key tenant_id suffix = "tenant:" ++ (tenant_id ++ (":" ++ suffix))

module _ {S : Type 0} (r : RedisServer S) where
  abbrev pub or_cache_miss : Option String → Reply String
  or_cache_miss none = err cache_miss
  or_cache_miss (some v) = ok v

  -- Redis.Get: an absent key is ErrCacheMiss, any fault is another error.
  unfoldable pub redis_get : Option Fault → ℕ → String → String → S → Reply String
  redis_get none now tenant_id suffix s = or_cache_miss (r.get now (key tenant_id suffix) s)
  redis_get (some _) now tenant_id suffix s = err unavailable

  -- Redis.Set
  unfoldable pub redis_set :
      Option Fault → ℕ → String → String → String → ℕ → S → S × Reply (Unit {0})
  redis_set none now tenant_id suffix value ttl s =
      (r.set now (key tenant_id suffix) value ttl s, ok tt)
  redis_set (some not_executed) now tenant_id suffix value ttl s = (s, err unavailable)
  redis_set (some reply_lost) now tenant_id suffix value ttl s =
      (r.set now (key tenant_id suffix) value ttl s, err unavailable)

  -- Redis.SetNX
  unfoldable pub redis_set_nx : Option Fault → ℕ → String → String → String → ℕ → S → S × Reply Bool
  redis_set_nx none now tenant_id suffix value ttl s =
      let (s', written) = r.set_nx now (key tenant_id suffix) value ttl s in (s', ok written)
  redis_set_nx (some not_executed) now tenant_id suffix value ttl s = (s, err unavailable)
  redis_set_nx (some reply_lost) now tenant_id suffix value ttl s =
      ((r.set_nx now (key tenant_id suffix) value ttl s).0, err unavailable)
