-- ===== src/Gateway/RateLimit/Agree.antt =====
-- The two limiters of internal/gateway/middleware/ratelimit.go side by side, on the requests of
-- one tenant to one route.
use chain_pulse.Prelude.{
  ℕ, ◌+◌, ◌≤◌, String, Bool, true, false, ◌≡◌, refl, sym, ◌∙◌, ap, arith, List, [], ◌∷◌, ℤ,
  pos_part, map, below, Bool-cases, inl, inr, eq_refl,
}
use chain_pulse.Storage.{RedisServer, SortedSetLaws, ok, key}
use chain_pulse.Gateway.RateLimit.{Windows, write, in_window, memory_key, new_memory_limiter}
use chain_pulse.Gateway.RateLimit.Log.{
  count, log_step, log_run, Rising, admitted_in, log_run-IsBounded,
}
use chain_pulse.Gateway.RateLimit.Memory.{
  Hit, memory_run, keyed_run, RisingHits, memory_run-keyed_run,
}
use chain_pulse.Gateway.RateLimit.Script.{redis_run, times_of, FreshMembers, redis_run-log_run}

-- The requests at these times.
abbrev pub hits_at : String → String → List ℕ → List Hit
hits_at tenant_id suffix = map (λ now. record { tenant_id = tenant_id; suffix = suffix; now = now })

-- The times whose request was admitted.
unfoldable pub admitted_times : List ℕ → List Bool → List ℕ
admitted_times [] answers = []
admitted_times (now ∷ times) [] = []
admitted_times (now ∷ times) (true ∷ answers) = now ∷ admitted_times times answers
admitted_times (now ∷ times) (false ∷ answers) = admitted_times times answers

module _ (tenant_id suffix : String) (limit : ℤ) (window : ℕ) where
  keyed_run-log_run :
      (times : List ℕ) (logs : Windows)
      → keyed_run limit window (hits_at tenant_id suffix times) logs
        ≡ (log_run limit window times (logs (memory_key tenant_id suffix))).1
  unfolding keyed_run log_run
  keyed_run-log_run [] logs = refl
  keyed_run-log_run (now ∷ times) logs =
      let k : String = memory_key tenant_id suffix in
      let log : List ℕ = (log_step limit window now (logs k)).0 in
      ap (◌∷◌ (log_step limit window now (logs k)).1)
        (keyed_run-log_run times (write logs k log) ∙ rw (eq_refl k) refl)

  Rising-RisingHits :
      (last : ℕ) (times : List ℕ)
      → Rising last times
      → RisingHits last (hits_at tenant_id suffix times)
  Rising-RisingHits last [] r = tt
  Rising-RisingHits last (now ∷ times) (le, r) = (le, Rising-RisingHits now times r)

  memory_run-log_run :
      (times : List ℕ)
      → Rising 0 times
      → memory_run limit window (hits_at tenant_id suffix times) new_memory_limiter
        ≡ (log_run limit window times []).1
  unfolding new_memory_limiter
  memory_run-log_run times r =
      memory_run-keyed_run limit window (hits_at tenant_id suffix times)
        (Rising-RisingHits 0 times r)
      ∙ keyed_run-log_run times new_memory_limiter

  -- On a clock that does not go back, with fresh members and from empty states, the in-memory limiter
  -- and the Redis limiter give the same answers to the same requests of one tenant to one route.
  pub redis_run-memory_run :
      {S : Type 0} (r : RedisServer S) (laws : SortedSetLaws r) (hits : List (ℕ × String)) (s : S)
      → Rising 0 (times_of hits)
      → FreshMembers r laws tenant_id suffix limit window hits s
      → ((t : ℕ) (p : ℕ → Bool) → laws.tally t (key tenant_id suffix) p s ≡ 0)
      → redis_run r laws tenant_id suffix limit window hits s
        ≡ map ok
            (memory_run limit window (hits_at tenant_id suffix (times_of hits)) new_memory_limiter)
  redis_run-memory_run r laws hits s rising fresh absent =
      redis_run-log_run r laws tenant_id suffix limit window hits s rising fresh absent
      ∙ ap (map ok) (sym (memory_run-log_run (times_of hits) rising))

  admitted_times-log :
      (p : ℕ → Bool) (times log : List ℕ)
      → count p (log_run limit window times log).0
        ≡ count p (admitted_times times (log_run limit window times log).1) + count p log
  unfolding log_run admitted_times
  admitted_times-log p [] log = omega arith
  admitted_times-log p (now ∷ times) log =
      elim (Bool-cases (below (count (in_window window now) log) limit)) [
        | inl e ↦ rw e (ground (arith, admitted_times-log p times (now ∷ log)))
        | inr e ↦ rw e (ground (arith, admitted_times-log p times log))
      ]

  -- In whatever window of this length, the in-memory limiter admits at most `limit` requests of a
  -- tenant to a route (none if the limit is negative), on a clock that does not go back.
  pub memory_run-bounded :
      (times : List ℕ) (t : ℕ)
      → Rising 0 times
      → admitted_in window t (
          admitted_times times
            (memory_run limit window (hits_at tenant_id suffix times) new_memory_limiter))
        ≤ pos_part limit
  memory_run-bounded times t rising = rw (memory_run-log_run times rising) (
      omega (
        arith,
        log_run-IsBounded limit window times [] (λ t. omega arith) t,
        admitted_times-log _ times [],
      ))
