-- ===== src/Gateway/RateLimit/Script.antt =====
-- RedisLimiter and its Lua script of internal/gateway/middleware/ratelimit.go, against the log of
-- all admitted requests. Nothing is assumed of the script: what is assumed of Redis's commands is
-- `SortedSetLaws`.
use chain_pulse.Prelude.{
  ℕ, ◌≤◌, String, Bool, true, false, ◌≡◌, refl, ◌∙◌, ap, arith, List, [], ◌∷◌, ℤ, below,
  if◌then◌else◌, Bool-cases, inl, inr, none, map,
}
use chain_pulse.Storage.{RedisServer, SortedSetLaws, Reply, ok, key}
use chain_pulse.Gateway.RateLimit.{in_window, sub_ℕ, redis_allow}
use chain_pulse.Gateway.RateLimit.Log.{count, log_run, Rising}
use chain_pulse.Gateway.RateLimit.SortedSet.{Agrees, zcard-pruned, added-Agrees, pruned-Agrees}

abbrev pub times_of : List (ℕ × String) → List ℕ
times_of = map (λ hit. hit.0)

module _ {S : Type 0} (r : RedisServer S) (laws : SortedSetLaws r) where
  -- The answers of RedisLimiter.Allow to requests of one tenant to one route, while Redis answers.
  -- Each request has its time and its fresh member.
  unfoldable pub redis_run : String → String → ℤ → ℕ → List (ℕ × String) → S → List (Reply Bool)
  redis_run tenant_id suffix limit window [] s = []
  redis_run tenant_id suffix limit window ((now, member) ∷ hits) s =
      let (s', answer) = redis_allow r none tenant_id suffix limit window now member s in
      answer ∷ redis_run tenant_id suffix limit window hits s'

  -- The UUID of each request is no member of the set at the time when it is added.
  abbrev pub FreshMembers : String → String → ℤ → ℕ → List (ℕ × String) → S → Type 0
  FreshMembers tenant_id suffix limit window [] s = Unit
  FreshMembers tenant_id suffix limit window ((now, member) ∷ hits) s =
      (laws.has_member now (key tenant_id suffix) member
          (r.zremrangebyscore now (key tenant_id suffix) 0 (sub_ℕ now window) s)
        ≡ false)
      × FreshMembers tenant_id suffix limit window hits
          (redis_allow r none tenant_id suffix limit window now member s).0

  module _ (tenant_id suffix : String) (limit : ℤ) (window : ℕ) where
    abbrev k : String
    k = key tenant_id suffix

    redis_allow_lem :
        (now : ℕ) (member : String) (s : S)
        → redis_allow r none tenant_id suffix limit window now member s ≡ (
            if below (r.zcard now k (r.zremrangebyscore now k 0 (sub_ℕ now window) s)) limit
            then (
              r.pexpire now k window
                  (r.zadd now k now member (r.zremrangebyscore now k 0 (sub_ℕ now window) s)),
              ok true,
            )
            else (r.zremrangebyscore now k 0 (sub_ℕ now window) s, ok false))
    unfolding redis_allow
    redis_allow_lem now member s = ground arith

    pub redis_allow_admits :
        (now : ℕ) (member : String) (s : S) (log : List ℕ) (last : ℕ)
        → last ≤ now
        → Agrees r laws k window last s log
        → below (count (in_window window now) log) limit ≡ true
        → redis_allow r none tenant_id suffix limit window now member s ≡ (
          r.pexpire now k window
              (r.zadd now k now member (r.zremrangebyscore now k 0 (sub_ℕ now window) s)),
          ok true,
        )
    redis_allow_admits now member s log last le a e =
        redis_allow_lem now member s ∙ rw (zcard-pruned r laws k window now le a, e) refl

    pub redis_allow_refuses :
        (now : ℕ) (member : String) (s : S) (log : List ℕ) (last : ℕ)
        → last ≤ now
        → Agrees r laws k window last s log
        → below (count (in_window window now) log) limit ≡ false
        → redis_allow r none tenant_id suffix limit window now member s
          ≡ (r.zremrangebyscore now k 0 (sub_ℕ now window) s, ok false)
    redis_allow_refuses now member s log last le a e =
        redis_allow_lem now member s ∙ rw (zcard-pruned r laws k window now le a, e) refl

    from_agreement :
        (last : ℕ) (hits : List (ℕ × String)) (s : S) (log : List ℕ)
        → Rising last (times_of hits)
        → FreshMembers tenant_id suffix limit window hits s
        → Agrees r laws k window last s log
        → redis_run tenant_id suffix limit window hits s
          ≡ map ok (log_run limit window (times_of hits) log).1
    unfolding redis_run log_run
    from_agreement last [] s log rising fresh a = refl
    from_agreement last ((now, member) ∷ hits) s log (le, rising) (new, fresh) a =
        elim (Bool-cases (below (count (in_window window now) log) limit)) [
          | inl e ↦
              let step = redis_allow_admits now member s log last le a e in
              rw (e, step)
                (ap (◌∷◌ (ok true)) (
                  from_agreement now hits _ (now ∷ log) rising (rw step at fresh)
                    (added-Agrees r laws k window now le a member new)))
          | inr e ↦
              let step = redis_allow_refuses now member s log last le a e in
              rw (e, step)
                (ap (◌∷◌ (ok false)) (
                  from_agreement now hits _ log rising (rw step at fresh)
                    (pruned-Agrees r laws k window now le a)))
        ]

    -- Over a set that is empty at first, on a clock that does not go back and with fresh members,
    -- the Redis limiter answers as if every admitted request were kept: neither its pruning nor the
    -- expiry of the whole set changes an answer.
    pub redis_run-log_run :
        (hits : List (ℕ × String)) (s : S)
        → Rising 0 (times_of hits)
        → FreshMembers tenant_id suffix limit window hits s
        → ((t : ℕ) (p : ℕ → Bool) → laws.tally t k p s ≡ 0)
        → redis_run tenant_id suffix limit window hits s
          ≡ map ok (log_run limit window (times_of hits) []).1
    redis_run-log_run hits s rising fresh absent =
        from_agreement 0 hits s [] rising fresh
          (record { past = tt; same = λ t t' le le'. absent t (in_window window t') })
