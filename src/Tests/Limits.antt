-- ===== src/Tests/Limits.antt =====
-- The limiters on concrete requests, over a server whose sets never expire by themselves.
use chain_pulse.Prelude.{
  ℕ, ◌+◌, String, Bool, true, false, not, ◌&&◌, ◌==◌, ◌≡◌, refl, arith, List, [], ◌∷◌, inr, Option,
  none, some, ℤ, pos, map, select, any, if◌then◌else◌, eq_refl, ne_false, length,
}
use chain_pulse.Storage.{RedisServer, StringLaws, SortedSetLaws, score_le, ok, key}
use chain_pulse.Storage.Keys.{key_injective}
use chain_pulse.Gateway.RateLimit.{new_memory_limiter, memory_allow, memory_key, redis_allow}
use chain_pulse.Gateway.RateLimit.Memory.{Hit, memory_run}
use chain_pulse.Gateway.RateLimit.Tenants.{no_logs, logs_run, memory_run-logs_run}
use chain_pulse.Gateway.RateLimit.Script.{redis_run}
use chain_pulse.Gateway.RateLimit.Agree.{hits_at, redis_run-memory_run}

abbrev pub Entries : Type 0
Entries = List (ℕ × String)

-- Texts and sorted sets by key.
pub record Store : Type 0 where
  pub texts : String → Option String
  pub sets : String → Entries

abbrev set_text : String → String → Store → Store
set_text k v s = record s { texts = λ j. if j == k then some v else s.texts j }

abbrev with_set : String → Entries → Store → Store
with_set k entries s = record s { sets = λ j. if j == k then entries else s.sets j }

abbrev out_of : ℤ → ℕ × String → Bool
out_of hi e = not (score_le e.0 hi)

abbrev has : String → Entries → Bool
has m = any (λ e. e.1 == m)

abbrev add : ℕ → String → Entries → Entries
add score m entries = (score, m) ∷ select (λ e. not (e.1 == m)) entries

abbrev pub server : RedisServer Store
server = record {
  get = λ t k s. s.texts k;
  set = λ t k v ttl s. set_text k v s;
  set_nx =
      λ t k v ttl s. elim (s.texts k) [ none ↦ (set_text k v s, true) | some old ↦ (s, false) ];
  zremrangebyscore = λ t k lo hi s. with_set k (select (out_of hi) (s.sets k)) s;
  zcard = λ t k s. length (s.sets k);
  zadd = λ t k score m s. with_set k (add score m (s.sets k)) s;
  pexpire = λ t k ms s. s;
}

abbrev pub empty : Store
empty = record { texts = λ k. none; sets = λ k. [] }

abbrev total : (ℕ → Bool) → Entries → ℕ
total p entries = length (select (λ e. p e.0) entries)

pub total_all : (entries : Entries) → length entries ≡ total (λ _. true) entries
total_all [] = refl
total_all (e ∷ entries) = omega (arith, total_all entries)

pub total-select :
    (hi : ℤ) (p : ℕ → Bool) (entries : Entries)
    → total p (select (out_of hi) entries) ≡ total (λ n. p n && not (score_le n hi)) entries
total-select hi p [] = refl
total-select hi p (e ∷ entries) = ground (arith, total-select hi p entries)

select_absent :
    (m : String) (entries : Entries)
    → has m entries ≡ false
    → select (λ e. not (e.1 == m)) entries ≡ entries
select_absent m [] h = refl
select_absent m (e ∷ entries) h = ground (arith, select_absent m entries)

pub total-add :
    (p : ℕ → Bool) (score : ℕ) (m : String) (entries : Entries)
    → has m entries ≡ false
    → total p (add score m entries) ≡ (if p score then 1 else 0) + total p entries
total-add p score m entries h = rw (select_absent m entries h) (ground arith)

unfoldable pub sorted_sets : SortedSetLaws server
sorted_sets = record {
  tally = λ t k p s. total p (s.sets k);
  has_member = λ t k m s. has m (s.sets k);
  zcard-tally = λ t k s. total_all (s.sets k);
  tally-zremrangebyscore = λ t t' k hi p s le. rw (eq_refl k) (total-select hi p (s.sets k));
  tally-zadd = λ t k score m p s fresh. rw (eq_refl k) (total-add p score m (s.sets k) fresh);
  tally-pexpire_before = λ t t' k ms p s le lt. refl;
  tally-pexpire_after = λ t t' k ms p s le. omega arith;
}

pub server-StringLaws : StringLaws server
server-StringLaws = record {
  get-set_self = λ t t' k v ttl s le lt. rw (eq_refl k) refl;
  get-set_late = λ t t' k v ttl s le. inr (rw (eq_refl k) refl);
  get-set_other = λ t t' k j v ttl s n. rw (ne_false n) refl;
}

abbrev hits : List (ℕ × String)
hits = (10, "m1") ∷ (20, "m2") ∷ (30, "m3") ∷ (115, "m4") ∷ []

abbrev mixed : List Hit
mixed =
    record { tenant_id = "a"; suffix = "x"; now = 10 }
    ∷ record { tenant_id = "b"; suffix = "x"; now = 20 }
    ∷ record { tenant_id = "a"; suffix = "x"; now = 30 }
    ∷ []

memory_run_sample :
    memory_run (pos 2) 100 (hits_at "a" "x" (10 ∷ 20 ∷ 30 ∷ 115 ∷ [])) new_memory_limiter
    ≡ true ∷ true ∷ false ∷ true ∷ []
unfolding memory_run new_memory_limiter memory_allow memory_key
memory_run_sample = refl

memory_run-logs_run_example :
    memory_run (pos 1) 100 mixed new_memory_limiter ≡ logs_run (pos 1) 100 mixed no_logs
memory_run-logs_run_example =
    memory_run-logs_run (pos 1) 100 mixed (omega arith, (omega arith, (omega arith, tt)))
      ((ground arith, tt), ((ground arith, tt), ((ground arith, tt), tt)))

redis_run-memory_run_example :
    redis_run server sorted_sets "a" "x" (pos 2) 100 hits empty
    ≡ map ok (memory_run (pos 2) 100 (hits_at "a" "x" (10 ∷ 20 ∷ 30 ∷ 115 ∷ [])) new_memory_limiter)
unfolding sorted_sets key redis_allow
redis_run-memory_run_example =
    redis_run-memory_run "a" "x" (pos 2) 100 server sorted_sets hits empty
      (omega arith, (omega arith, (omega arith, (omega arith, tt))))
      (refl, (refl, (refl, (refl, tt)))) (λ t p. refl)

abbrev tenant_a : String
tenant_a = "a"

abbrev route_x : String
route_x = "ratelimit:/x"

key_injective_example : (tenant_a ≡ tenant_a) × (route_x ≡ route_x)
key_injective_example =
    key_injective tenant_a tenant_a route_x route_x (λ e. cc, tt) (λ e. cc, tt) refl
