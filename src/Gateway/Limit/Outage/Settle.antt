-- ===== src/Gateway/Limit/Outage/Settle.antt =====
-- What RateLimit of internal/gateway/middleware/ratelimit.go does to the limiters of an instance,
-- without the middleware's plumbing; and what a step does to the log of a limiter.
use chain_pulse.Prelude.{
  ℕ, ◌+◌, ◌≤◌, String, Bool, true, false, ◌≡◌, refl, ap, ◌∙◌, arith, List, ◌∷◌, Option, none, some,
  ℤ, if◌then◌else◌,
}
use chain_pulse.Http.{Context, abort, require_actor_lem}
use chain_pulse.Storage.{not_executed, reply_lost, RedisServer, Fault, Reply, ok, err}
use chain_pulse.Gateway.RateLimit.{redis_allow, memory_allow}
use chain_pulse.Gateway.RateLimit.Log.{count, log_step, IsBounded, log_step-IsBounded}
use chain_pulse.Gateway.RateLimit.Faults.{faulty_step}
use chain_pulse.Gateway.Limit.{noted, answer_with, after_primary, rate_limit}
use chain_pulse.Gateway.Limit.Instances.{
  Cluster, Request, at, decided_at, own_limiter, note_served, arrive, IsOf,
}

abbrev pub noted_at : Bool → ℕ → List ℕ → List ℕ
noted_at allowed now served = if allowed then now ∷ served else served

module _ {S : Type 0} (r : RedisServer S) (tenant_id suffix : String) (limit : ℤ) (window : ℕ) where
  -- What a request leaves, once the shared limiter has answered.
  abbrev pub settle : Request → Cluster S → S × Reply Bool → Cluster S
  settle q w (s, ok allowed) = record {
    redis = s;
    windows = w.windows;
    served = noted_at allowed q.now w.served;
  }
  settle q w (s, err e) =
      let (l, allowed) =
        memory_allow tenant_id suffix limit window q.fallback_now (w.windows q.instance_id) in
      record {
        redis = s;
        windows = at q.instance_id l w.windows;
        served = noted_at allowed q.fallback_now w.served;
      }

  answer_with-noted_at :
      (q : Request) (c : Context) (w : Cluster S) (allowed : Bool)
      → (answer_with (note_served r limit window q) c w allowed).world
        ≡ record w { served = noted_at allowed (decided_at q c) w.served }
  unfolding abort
  answer_with-noted_at q c w true = refl
  answer_with-noted_at q c w false = refl

  after_primary-settle :
      (q : Request) (w : Cluster S) (s : S) (answer : Reply Bool)
      → q.context.ratelimit_fallback ≡ false
      → (after_primary
          (own_limiter r limit window q)
          (note_served r limit window q)
          tenant_id
          suffix
          q.context
          (record w { redis = s }, answer)).world
        ≡ settle q w (s, answer)
  after_primary-settle q w s (ok allowed) u =
      answer_with-noted_at q q.context _ allowed
      ∙ ap
          (λ b. record {
            redis = s;
            windows = w.windows;
            served = noted_at allowed (if b then q.fallback_now else q.now) w.served;
          })
          u
  after_primary-settle q w s (err e) u = answer_with-noted_at q (noted q.context) _ _

  pub arrive-settle :
      (q : Request) (w : Cluster S)
      → IsOf tenant_id suffix q
      → arrive r limit window q w
        ≡ settle q w (redis_allow r q.fault tenant_id suffix limit window q.now q.member w.redis)
  unfolding arrive rate_limit
  arrive-settle q w o =
      ap (λ out. out.world) (require_actor_lem _ q.context w o.actor o.authenticated)
      ∙ rw (o.same_tenant, o.same_route)
          (let (s, answer) =
              redis_allow r q.fault tenant_id suffix limit window q.now q.member w.redis in
            after_primary-settle q w s answer o.unnoted)

pub log_step-count :
    (limit : ℤ) (window now : ℕ) (log served : List ℕ) (p : ℕ → Bool)
    → count p (noted_at (log_step limit window now log).1 now served) + count p log
      ≡ count p served + count p (log_step limit window now log).0
log_step-count limit window now log served p = ground arith

pub faulty_step-count :
    (fault : Option Fault) (limit : ℤ) (window now : ℕ) (log : List ℕ) (p : ℕ → Bool)
    → count p log ≤ count p (faulty_step fault limit window now log).0
faulty_step-count none limit window now log p = ground arith
faulty_step-count (some not_executed) limit window now log p = omega arith
faulty_step-count (some reply_lost) limit window now log p = ground arith

pub faulty_step-IsBounded :
    (fault : Option Fault) (limit : ℤ) (window now : ℕ) (log : List ℕ)
    → IsBounded limit window log
    → IsBounded limit window (faulty_step fault limit window now log).0
faulty_step-IsBounded none limit window now log b = log_step-IsBounded limit window now log b
faulty_step-IsBounded (some not_executed) limit window now log b = b
faulty_step-IsBounded (some reply_lost) limit window now log b =
    log_step-IsBounded limit window now log b
