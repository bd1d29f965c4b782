-- ===== src/Gateway/RateLimit/Faults.antt =====
-- One call of RedisLimiter.Allow of internal/gateway/middleware/ratelimit.go whatever Redis does,
-- against the log of all requests that its script admitted.
use chain_pulse.Prelude.{
  ℕ, ◌≤◌, String, Bool, false, ◌≡◌, refl, arith, List, Option, none, some, ℤ, below, Bool-cases,
  inl, inr,
}
use chain_pulse.Storage.{
  RedisServer, SortedSetLaws, Fault, not_executed, reply_lost, Reply, ok, err, unavailable, key,
}
use chain_pulse.Gateway.RateLimit.{in_window, sub_ℕ, redis_allow}
use chain_pulse.Gateway.RateLimit.Log.{count, log_step}
use chain_pulse.Gateway.RateLimit.SortedSet.{Agrees, All-le, added-Agrees, pruned-Agrees}
use chain_pulse.Gateway.RateLimit.Script.{redis_allow_admits, redis_allow_refuses}

-- The log after a call, and its answer.
abbrev pub faulty_step : Option Fault → ℤ → ℕ → ℕ → List ℕ → List ℕ × Reply Bool
faulty_step none limit window now log =
    ((log_step limit window now log).0, ok (log_step limit window now log).1)
faulty_step (some not_executed) limit window now log = (log, err unavailable)
faulty_step (some reply_lost) limit window now log =
    ((log_step limit window now log).0, err unavailable)

module _ {S : Type 0} (r : RedisServer S) (laws : SortedSetLaws r) (tenant_id suffix : String)
    (limit : ℤ) (window : ℕ) where
  abbrev k : String
  k = key tenant_id suffix

  Agrees-later :
      {last : ℕ} {s : S} {log : List ℕ} (now : ℕ)
      → last ≤ now
      → Agrees r laws k window last s log
      → Agrees r laws k window now s log
  Agrees-later {log = log} now le a = record {
    past = All-le log le a.past;
    same = λ t t' le' le''. a.same t t' (omega arith) le'';
  }

  -- What a call that the server runs leaves, and what it would answer.
  answered-Agrees :
      {last : ℕ} {s : S} {log : List ℕ} (now : ℕ) (member : String)
      → last ≤ now
      → laws.has_member now k member (r.zremrangebyscore now k 0 (sub_ℕ now window) s) ≡ false
      → Agrees r laws k window last s log
      → Agrees r laws k window now
          (redis_allow r none tenant_id suffix limit window now member s).0
          (log_step limit window now log).0
        × ((redis_allow r none tenant_id suffix limit window now member s).1
            ≡ ok (log_step limit window now log).1)
  answered-Agrees {last} {s} {log} now member le new a =
      elim (Bool-cases (below (count (in_window window now) log) limit)) [
        | inl e ↦
            rw
              (
                e,
                redis_allow_admits r laws tenant_id suffix limit window now member s log last le a
                    e,
              )
              (added-Agrees r laws k window now le a member new, refl)
        | inr e ↦
            rw
              (
                e,
                redis_allow_refuses r laws tenant_id suffix limit window now member s log last le a
                    e,
              )
              (pruned-Agrees r laws k window now le a, refl)
      ]

  lost_call :
      (now : ℕ) (member : String) (s : S)
      → redis_allow r (some not_executed) tenant_id suffix limit window now member s
        ≡ (s, err unavailable)
  unfolding redis_allow
  lost_call now member s = refl

  lost_reply :
      (now : ℕ) (member : String) (s : S)
      → redis_allow r (some reply_lost) tenant_id suffix limit window now member s
        ≡ ((redis_allow r none tenant_id suffix limit window now member s).0, err unavailable)
  unfolding redis_allow
  lost_reply now member s = refl

  -- Whatever fault a call of the Redis limiter meets, the sorted set goes on to agree with the log
  -- of the requests that the script admitted, and the answer is the log's or an error.
  pub redis_allow-Agrees :
      (fault : Option Fault) {last : ℕ} {s : S} {log : List ℕ} (now : ℕ) (member : String)
      → last ≤ now
      → laws.has_member now k member (r.zremrangebyscore now k 0 (sub_ℕ now window) s) ≡ false
      → Agrees r laws k window last s log
      → Agrees r laws k window now
          (redis_allow r fault tenant_id suffix limit window now member s).0
          (faulty_step fault limit window now log).0
        × ((redis_allow r fault tenant_id suffix limit window now member s).1
            ≡ (faulty_step fault limit window now log).1)
  redis_allow-Agrees none now member le new a = answered-Agrees now member le new a
  redis_allow-Agrees (some not_executed) {s = s} now member le new a =
      rw (lost_call now member s) (Agrees-later now le a, refl)
  redis_allow-Agrees (some reply_lost) {s = s} now member le new a =
      rw (lost_reply now member s) ((answered-Agrees now member le new a).0, refl)
