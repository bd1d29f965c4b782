-- ===== src/Gateway/RateLimit.antt =====
-- internal/gateway/middleware/ratelimit.go: the two limiters. Times and windows are in
-- milliseconds; a window is not negative, a limit is any integer.
pub mod Log
pub mod Memory
pub mod Tenants
pub mod SortedSet
pub mod Script
pub mod Agree
pub mod Faults
use Prim.Native.String
use chain_pulse.Prelude.{
  ℕ, zero, suc, ◌+◌, ◌-◌, String, Bool, true, false, not, ◌==◌, List, [], ◌∷◌, ◌++◌, Option, none,
  some, ltb, leb, nat_eq, below, if◌then◌else◌, length, select, ℤ, pos, negsuc,
}
use chain_pulse.Storage.{
  RedisServer, Fault, not_executed, reply_lost, Reply, ok, err, unavailable, key,
}

-- a - b, as an integer
abbrev pub sub_ℕ : ℕ → ℕ → ℤ
sub_ℕ a b = if leb b a then pos (a - b) else negsuc (b - a - 1)

module _ {S : Type 0} (r : RedisServer S) where
  -- The Lua script: the state after it, and the number that it returns.
  unfoldable pub sliding_window_script : String → ℕ → ℕ → ℤ → String → S → S × ℕ
  sliding_window_script k now window limit member s =
      let s₁ = r.zremrangebyscore now k 0 (sub_ℕ now window) s in
      let s₂ = r.pexpire now k window (r.zadd now k now member s₁) in
      if below (r.zcard now k s₁) limit then (s₂, 1) else (s₁, 0)

  -- Redis.Eval of the script: it runs as a whole or not at all, and the reply can be lost.
  unfoldable pub eval_script : Option Fault → String → ℕ → ℕ → ℤ → String → S → S × Reply ℕ
  eval_script none k now window limit member s =
      let (s', v) = sliding_window_script k now window limit member s in (s', ok v)
  eval_script (some not_executed) k now window limit member s = (s, err unavailable)
  eval_script (some reply_lost) k now window limit member s =
      ((sliding_window_script k now window limit member s).0, err unavailable)

  abbrev pub admitted : Reply ℕ → Reply Bool
  admitted (ok v) = ok (nat_eq v 1)
  admitted (err e) = err e

  -- RedisLimiter.Allow; `member` is the fresh UUID.
  unfoldable pub redis_allow :
      Option Fault → String → String → ℤ → ℕ → ℕ → String → S → S × Reply Bool
  unfolding eval_script sliding_window_script
  redis_allow fault tenant_id suffix limit window now member s =
      let (s', reply) = eval_script fault (key tenant_id suffix) now window limit member s in
      (s', admitted reply)

-- MemoryLimiter.windows: an absent key reads as the empty slice.
abbrev pub Windows : Type 0
Windows = String → List ℕ

unfoldable pub new_memory_limiter : Windows
new_memory_limiter k = []

abbrev pub write : Windows → String → List ℕ → Windows
write l k stamps j = if j == k then stamps else l j

unfoldable pub memory_key : String → String → String
memory_key tenant_id suffix = String.◌++◌ tenant_id (String.◌++◌ "|" suffix)

-- ts > now - window
abbrev pub in_window : ℕ → ℕ → ℕ → Bool
in_window window now ts = ltb now (ts + window)

-- MemoryLimiter.Allow
unfoldable pub memory_allow : String → String → ℤ → ℕ → ℕ → Windows → Windows × Bool
memory_allow tenant_id suffix limit window now l =
    let k = memory_key tenant_id suffix in
    let kept = select (in_window window now) (l k) in
    if not (below (length kept) limit)
    then (write l k kept, false)
    else (write l k (kept ++ now ∷ []), true)
