-- ===== src/Gateway/Limit.antt =====
-- RateLimit of internal/gateway/middleware/ratelimit.go: the middleware over two limiters.
pub mod Fallback
pub mod Instances
pub mod Outage
use Prim.Native.String.{◌++◌}
use chain_pulse.Prelude.{ℕ, String, Bool, true, false, not, if◌then◌else◌}
use chain_pulse.Http.{Context, Handler, Outcome, require_actor, abort, code_rate_limited}
use chain_pulse.Identity.{Identity}
use chain_pulse.Storage.{Reply, ok, err}

-- Limiter.Allow for the limit and the window of the route group, at the time of this call.
abbrev pub Limiter : Type 0 → Type 0
Limiter W = String → String → W → W × Reply Bool

-- `allowed, _ = …`: the answer that goes with an error is false, for both limiters.
abbrev pub or_false : Reply Bool → Bool
or_false (ok b) = b
or_false (err e) = false

abbrev pub noted : Context → Context
noted c = record c { ratelimit_fallback = true }

abbrev pub suffix_of : Context → String
suffix_of c = "ratelimit:" ++ c.full_path

module _ {W : Type 0} where
  abbrev pub answer_with : Handler W → Context → W → Bool → Outcome W
  answer_with next c w allowed =
      if not allowed then abort 429 code_rate_limited "rate limit exceeded" c w else next c w

  abbrev pub after_primary :
      Limiter W → Handler W → String → String → Context → W × Reply Bool → Outcome W
  after_primary fallback next tenant_id suffix c (w, ok allowed) = answer_with next c w allowed
  after_primary fallback next tenant_id suffix c (w, err e) =
      let (w', reply) = fallback tenant_id suffix w in
      answer_with next (noted c) w' (or_false reply)

  abbrev pub limit_actor : Limiter W → Limiter W → Handler W → Identity → Handler W
  limit_actor primary fallback next actor c w =
      after_primary fallback next actor.tenant_id (suffix_of c) c
        (primary actor.tenant_id (suffix_of c) w)

  -- RateLimit
  unfoldable pub rate_limit : Limiter W → Limiter W → Handler W → Handler W
  rate_limit primary fallback next = require_actor (limit_actor primary fallback next)
