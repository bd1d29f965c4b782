-- ===== src/Gateway/Limit/Outage/Steps.antt =====
-- The logs behind the limiters of internal/gateway/middleware/ratelimit.go on several instances,
-- step by step.
use chain_pulse.Prelude.{
  ℕ, ◌+◌, ◌≤◌, ◌<◌, String, Bool, true, ◌≡◌, refl, sym, subst, not, arith, List, Option, none, some,
  ℤ, nat_eq, Bool-cases, inl, inr,
}
use chain_pulse.Auth.Rows.{is_some}
use chain_pulse.Storage.{
  RedisServer, SortedSetLaws, Fault, not_executed, reply_lost, Reply, RedisError, ok, err,
  unavailable, key,
}
use chain_pulse.Gateway.RateLimit.{memory_key}
use chain_pulse.Gateway.RateLimit.Log.{count, log_step, IsBounded, log_step-IsBounded}
use chain_pulse.Gateway.RateLimit.Memory
use chain_pulse.Gateway.RateLimit.Memory.{memory_allow-Agrees}
use chain_pulse.Gateway.RateLimit.SortedSet
use chain_pulse.Gateway.RateLimit.Faults.{faulty_step, redis_allow-Agrees}
use chain_pulse.Gateway.Limit.Outage.Sums.{sum, sum-at}
use chain_pulse.Gateway.Limit.Outage.Settle.{
  settle, arrive-settle, log_step-count, faulty_step-count, faulty_step-IsBounded,
}
use chain_pulse.Gateway.Limit.Instances.{
  Cluster, Request, at, arrive, IsFresh, IsOf, failed, answered, share,
}

pub share-le : (b : Bool) (x y : ℕ) → x ≤ y → share b x ≤ share b y
share-le b x y h = ground arith

-- A request served adds one to what its log counts.
served-answered :
    (answers fails : Bool) (served served' x x' y : ℕ)
    → answers ≡ true
    → served' + x ≡ served + x'
    → served ≤ share answers x + share fails y
    → served' ≤ share answers x' + share fails y
served-answered answers fails served served' x x' y e step before = ground arith

served-failed :
    (answers fails : Bool) (served served' x x' y y' z z' : ℕ)
    → fails ≡ true
    → x ≤ x'
    → served' + z ≡ served + z'
    → y' + z ≡ y + z'
    → served ≤ share answers x + share fails y
    → served' ≤ share answers x' + share fails y'
served-failed answers fails served served' x x' y y' z z' e le step step' before = ground arith

module _ {S : Type 0} (r : RedisServer S) (laws : SortedSetLaws r) (tenant_id suffix : String)
    (limit : ℤ) (window n : ℕ) (answers fails : Bool) where
  -- The logs behind the limiters, and that every request served stands in one of them: in the shared
  -- one if Redis ever answers, in an instance's own if it ever fails.
  pub record Accounts (last fallback_last : ℕ) (w : Cluster S) : Type 0 where
    pub log : List ℕ
    pub logs : ℕ → List ℕ
    pub shared : SortedSet.Agrees r laws (key tenant_id suffix) window last w.redis log
    pub own :
        (i : ℕ)
        → Memory.Agrees window fallback_last (w.windows i (memory_key tenant_id suffix)) (logs i)
    pub shared_bounded : IsBounded limit window log
    pub own_bounded : (i : ℕ) → IsBounded limit window (logs i)
    pub within :
        (p : ℕ → Bool)
        → count p w.served
          ≤ share answers (count p log) + share fails (sum n (λ i. count p (logs i)))

  module _ {last fallback_last : ℕ} (q : Request) (w : Cluster S) (le : last ≤ q.now)
      (le' : fallback_last ≤ q.fallback_now) (a : Accounts last fallback_last w) (s : S) where
    own-later :
        (i : ℕ)
        → Memory.Agrees window q.fallback_now (w.windows i (memory_key tenant_id suffix)) (a.logs i)
    own-later i t h = a.own i t (omega arith)

    settle-answered :
        SortedSet.Agrees r laws
          (key tenant_id suffix)
          window
          q.now
          s
          (log_step limit window q.now a.log).0
        → answers ≡ true
        → Accounts q.now q.fallback_now (
            settle r tenant_id suffix limit window q w
              (s, ok (log_step limit window q.now a.log).1))
    settle-answered agrees e = record {
      log = (log_step limit window q.now a.log).0;
      logs = a.logs;
      shared = agrees;
      own = own-later;
      shared_bounded = log_step-IsBounded limit window q.now a.log a.shared_bounded;
      own_bounded = a.own_bounded;
      within = λ p.
          served-answered answers fails (count p w.served) _ (count p a.log) _ _ e
            (log_step-count limit window q.now a.log w.served p) (a.within p);
    }

    -- The state after the fallback has answered.
    settle-failed :
        (fault : Option Fault)
        → SortedSet.Agrees r laws
            (key tenant_id suffix)
            window
            q.now
            s
            (faulty_step fault limit window q.now a.log).0
        → fails ≡ true
        → q.instance_id < n
        → (x : RedisError)
        → Accounts q.now q.fallback_now (settle r tenant_id suffix limit window q w (s, err x))
    settle-failed fault agrees e lt x =
        let i = q.instance_id in
        let log = a.logs i in
        let (log', allowed) = log_step limit window q.fallback_now log in
        let (own', answer) =
          memory_allow-Agrees tenant_id suffix limit window fallback_last q.fallback_now
            (w.windows i) log le' (a.own i) in
        record {
          log = (faulty_step fault limit window q.now a.log).0;
          logs = at i log' a.logs;
          shared = agrees;
          own = λ j. elim (Bool-cases (nat_eq j i)) [
            | inl e ↦ rw e own'
            | inr e ↦ rw e (own-later j)
          ];
          shared_bounded = faulty_step-IsBounded fault limit window q.now a.log a.shared_bounded;
          own_bounded = λ j. elim (Bool-cases (nat_eq j i)) [
            | inl e ↦ rw e (log_step-IsBounded limit window q.fallback_now log (a.own_bounded i))
            | inr e ↦ rw e (a.own_bounded j)
          ];
          within = λ p. rw answer (
              served-failed answers fails (count p w.served) _ (count p a.log) _ _ _ (count p log) _
                e (faulty_step-count fault limit window q.now a.log p)
                (log_step-count limit window q.fallback_now log w.served p)
                (sum-at (count p) n i log' a.logs lt) (a.within p));
        }

    settle-Accounts :
        (fault : Option Fault) (answer : Reply Bool)
        → SortedSet.Agrees r laws
            (key tenant_id suffix)
            window
            q.now
            s
            (faulty_step fault limit window q.now a.log).0
        → answer ≡ (faulty_step fault limit window q.now a.log).1
        → q.instance_id < n
        → (not (is_some fault) ≡ true → answers ≡ true)
        → (is_some fault ≡ true → fails ≡ true)
        → Accounts q.now q.fallback_now (settle r tenant_id suffix limit window q w (s, answer))
    settle-Accounts none answer agrees e lt up down =
        subst
          (λ x. Accounts q.now q.fallback_now (settle r tenant_id suffix limit window q w (s, x)))
          (sym e) (settle-answered agrees (up refl))
    settle-Accounts (some not_executed) answer agrees e lt up down =
        subst
          (λ x. Accounts q.now q.fallback_now (settle r tenant_id suffix limit window q w (s, x)))
          (sym e) (settle-failed (some not_executed) agrees (down refl) lt unavailable)
    settle-Accounts (some reply_lost) answer agrees e lt up down =
        subst
          (λ x. Accounts q.now q.fallback_now (settle r tenant_id suffix limit window q w (s, x)))
          (sym e) (settle-failed (some reply_lost) agrees (down refl) lt unavailable)

  pub arrive-Accounts :
      {last fallback_last : ℕ} (q : Request) (w : Cluster S)
      → IsOf tenant_id suffix q
      → q.instance_id < n
      → last ≤ q.now
      → fallback_last ≤ q.fallback_now
      → IsFresh r limit window laws (key tenant_id suffix) q w
      → (answered q ≡ true → answers ≡ true)
      → (failed q ≡ true → fails ≡ true)
      → Accounts last fallback_last w
      → Accounts q.now q.fallback_now (arrive r limit window q w)
  arrive-Accounts q w o lt le le' new up down a =
      let (agrees, answer) =
        redis_allow-Agrees r laws tenant_id suffix limit window q.fault q.now q.member le new
          a.shared in
      rw (arrive-settle r tenant_id suffix limit window q w o)
        (settle-Accounts q w le le' a _ q.fault _ agrees answer lt up down)
