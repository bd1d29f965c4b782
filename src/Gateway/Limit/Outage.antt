-- ===== src/Gateway/Limit/Outage.antt =====
-- How much RateLimit of internal/gateway/middleware/ratelimit.go admits while Redis fails, on
-- several instances of the gateway.
mod Sums
mod Settle
mod Steps
use chain_pulse.Prelude.{
  ℕ, zero, suc, ◌+◌, ◌*◌, ◌≤◌, ◌<◌, String, Bool, true, false, ◌≡◌, refl, sym, subst, not, ap, ◌∙◌,
  arith, List, [], ◌∷◌, Option, none, some, ℤ, pos_part, ◌&&◌, leb, any, All, nat_eq, if◌then◌else◌,
  Bool-cases, inl, inr,
}
use chain_pulse.Auth.Rows.{is_some}
use chain_pulse.Http.{Context, abort, require_actor_lem}
use chain_pulse.Storage.{
  RedisServer, SortedSetLaws, Fault, not_executed, reply_lost, Reply, RedisError, ok, err,
  unavailable, key,
}
use chain_pulse.Gateway.RateLimit.{
  new_memory_limiter, in_window, memory_key, redis_allow, memory_allow,
}
use chain_pulse.Gateway.RateLimit.Log.{
  count, log_step, admitted_in, IsBounded, log_step-IsBounded, Rising,
}
use chain_pulse.Gateway.RateLimit.Memory
use chain_pulse.Gateway.RateLimit.Memory.{memory_allow-Agrees}
use chain_pulse.Gateway.RateLimit.SortedSet
use chain_pulse.Gateway.RateLimit.Faults.{faulty_step, redis_allow-Agrees}
use chain_pulse.Gateway.Limit.{noted, answer_with, after_primary, rate_limit}
use chain_pulse.Gateway.Limit.Outage.Sums.{sum, sum-le, sum-at}
use chain_pulse.Gateway.Limit.Outage.Settle.{
  noted_at, settle, arrive-settle, log_step-count, faulty_step-count, faulty_step-IsBounded,
}
use chain_pulse.Gateway.Limit.Instances.{
  Cluster, Request, at, decided_at, start, own_limiter, note_served, arrive, arrive_all, IsFresh,
  AllFresh, IsOf, IsSchedule, failed, answered, share, most_admitted,
}
use chain_pulse.Gateway.Limit.Outage.Steps.{share-le, Accounts, arrive-Accounts}

module _ {S : Type 0} (r : RedisServer S) (laws : SortedSetLaws r) (tenant_id suffix : String)
    (limit : ℤ) (window n : ℕ) where
  arrive_all-Accounts :
      (answers fails : Bool) {last fallback_last : ℕ} (qs : List Request) (w : Cluster S)
      → IsSchedule tenant_id suffix n last fallback_last qs
      → AllFresh r limit window laws (key tenant_id suffix) qs w
      → (any answered qs ≡ true → answers ≡ true)
      → (any failed qs ≡ true → fails ≡ true)
      → Accounts r laws tenant_id suffix limit window n answers fails last fallback_last w
      → (last' fallback_last' : ℕ) × Accounts r laws tenant_id suffix limit window n answers fails
          last' fallback_last'
          (arrive_all r limit window qs w)
  unfolding arrive_all
  arrive_all-Accounts answers fails [] w sched new up down a = (_, _, a)
  arrive_all-Accounts answers fails (q ∷ qs) w (o, lt, le, le', sched) (new, news) up down a =
      arrive_all-Accounts answers fails qs (arrive r limit window q w) sched news
        (λ e. up (ground (arith, e))) (λ e. down (ground (arith, e)))
        (arrive-Accounts r laws tenant_id suffix limit window n answers fails q w o lt le le' new
          (λ e. up (ground (arith, e))) (λ e. down (ground (arith, e))) a)

  sum-zero : (m : ℕ) → sum m (λ i. 0) ≡ 0
  sum-zero zero = refl
  sum-zero (suc m) = omega (arith, sum-zero m)

  start-Accounts :
      (answers fails : Bool) (s : S)
      → ((t : ℕ) (p : ℕ → Bool) → laws.tally t (key tenant_id suffix) p s ≡ 0)
      → Accounts r laws tenant_id suffix limit window n answers fails 0 0 (start s)
  unfolding new_memory_limiter
  start-Accounts answers fails s absent = record {
    log = [];
    logs = λ i. [];
    shared = record { past = tt; same = λ t t' le le'. absent t (in_window window t') };
    own = λ i t le. refl;
    shared_bounded = λ t. omega arith;
    own_bounded = λ i t. omega arith;
    within = λ p. omega arith;
  }

  Accounts-most_admitted :
      (answers fails : Bool) {last fallback_last : ℕ} (w : Cluster S) (t : ℕ)
      → Accounts r laws tenant_id suffix limit window n answers fails last fallback_last w
      → admitted_in window t w.served
        ≤ share answers (pos_part limit) + share fails (n * pos_part limit)
  Accounts-most_admitted answers fails w t a =
      let p : ℕ → Bool = λ x. in_window window t x && leb x t in
      omega (
        arith,
        a.within p,
        share-le answers _ _ (a.shared_bounded t),
        share-le fails _ _
            (sum-le n (pos_part limit) (λ i. count p (a.logs i)) (λ i. a.own_bounded i t)),
      )

  -- n instances of the gateway share one Redis and take requests of one tenant to one route, each of
  -- which may find Redis failing, before or behind its script. Whatever fails when, in no window the
  -- handlers behind the middleware run more often than the limit, if Redis always answers, n times
  -- the limit, if it never does, and n + 1 times the limit otherwise. The clocks do not go back, the
  -- UUIDs are fresh and the sorted set is empty at first.
  pub outage-bounded :
      (qs : List Request) (s : S) (t : ℕ)
      → IsSchedule tenant_id suffix n 0 0 qs
      → AllFresh r limit window laws (key tenant_id suffix) qs (start s)
      → ((t : ℕ) (p : ℕ → Bool) → laws.tally t (key tenant_id suffix) p s ≡ 0)
      → admitted_in window t (arrive_all r limit window qs (start s)).served
        ≤ most_admitted limit n qs
  outage-bounded qs s t sched new absent =
      let (_, _, a) =
        arrive_all-Accounts (any answered qs) (any failed qs) qs (start s) sched new (λ e. e)
          (λ e. e) (start-Accounts _ _ s absent) in
      Accounts-most_admitted _ _ _ t a
