-- ===== src/Gateway/RateLimit/Memory.antt =====
-- MemoryLimiter of internal/gateway/middleware/ratelimit.go, which prunes its stamps on each call,
-- against the log of all admitted requests.
use mathlib.Core.Path.{ap₂}
use chain_pulse.Prelude.{
  ℕ, ◌≤◌, String, Bool, true, false, ◌≡◌, refl, ◌∙◌, arith, List, [], ◌∷◌, ◌++◌, ℤ, below, length,
  select, length-append, select-append, if◌then◌else◌, Bool-cases, inl, inr, ◌==◌, eq_refl,
}
use chain_pulse.Gateway.RateLimit.{
  Windows, write, in_window, memory_key, memory_allow, new_memory_limiter,
}
use chain_pulse.Gateway.RateLimit.Log.{count, count-select, in_window-later, log_step}

-- A request of a tenant to a route, as the limiter sees it.
pub record Hit : Type 0 where
  pub tenant_id : String
  pub suffix : String
  pub now : ℕ

abbrev pub hit_key : Hit → String
hit_key h = memory_key h.tenant_id h.suffix

-- The limiter's answers to a sequence of requests of any tenants to any routes.
unfoldable pub memory_run : ℤ → ℕ → List Hit → Windows → List Bool
memory_run limit window [] l = []
memory_run limit window (h ∷ hs) l =
    let (l', answer) = memory_allow h.tenant_id h.suffix limit window h.now l in
    answer ∷ memory_run limit window hs l'

-- The same, told from one full log for each key of the map.
unfoldable pub keyed_run : ℤ → ℕ → List Hit → Windows → List Bool
keyed_run limit window [] logs = []
keyed_run limit window (h ∷ hs) logs =
    let (log, answer) = log_step limit window h.now (logs (hit_key h)) in
    answer ∷ keyed_run limit window hs (write logs (hit_key h) log)

abbrev pub RisingHits : ℕ → List Hit → Type 0
RisingHits last [] = Unit
RisingHits last (h ∷ hs) = (last ≤ h.now) × RisingHits h.now hs

-- From this time on, every window over the kept stamps counts what the log counts.
abbrev pub Agrees : ℕ → ℕ → List ℕ → List ℕ → Type 0
Agrees window last stamps log =
    (t : ℕ) → last ≤ t → count (in_window window t) stamps ≡ count (in_window window t) log

Agrees-select :
    (window last now : ℕ) (stamps log : List ℕ)
    → last ≤ now
    → Agrees window last stamps log
    → Agrees window now (select (in_window window now) stamps) log
Agrees-select window last now stamps log h a t le =
    count-select _ _ stamps (in_window-later window now t le) ∙ a t (omega arith)

count-snoc :
    (p : ℕ → Bool) (x : ℕ) (xs ys : List ℕ)
    → count p xs ≡ count p ys
    → count p (xs ++ x ∷ []) ≡ count p (x ∷ ys)
count-snoc p x xs ys e =
    rw (select-append p xs (x ∷ []), length-append (select p xs) (select p (x ∷ [])))
      (ground (arith, e))

-- What one call does to the stamps of its key.
abbrev stamps_step : ℤ → ℕ → ℕ → List ℕ → List ℕ × Bool
stamps_step limit window now stamps =
    let kept = select (in_window window now) stamps in
    if below (length kept) limit then (kept ++ now ∷ [], true) else (kept, false)

memory_allow_lem :
    (tenant_id suffix : String) (limit : ℤ) (window now : ℕ) (l : Windows)
    → let k = memory_key tenant_id suffix in
      memory_allow tenant_id suffix limit window now l
      ≡ (write l k (stamps_step limit window now (l k)).0, (stamps_step limit window now (l k)).1)
unfolding memory_allow
memory_allow_lem tenant_id suffix limit window now l =
    elim (Bool-cases
      (below (length (select (in_window window now) (l (memory_key tenant_id suffix)))) limit)) [
        | inl e ↦ rw e refl
        | inr e ↦ rw e refl
      ]

module _ (limit : ℤ) (window last now : ℕ) (stamps log : List ℕ) (h : last ≤ now)
    (a : Agrees window last stamps log) where
  stamps_step-answer : (stamps_step limit window now stamps).1 ≡ (log_step limit window now log).1
  stamps_step-answer = ground (arith, a now h)

  stamps_step-Agrees :
      Agrees window now (stamps_step limit window now stamps).0 (log_step limit window now log).0
  stamps_step-Agrees t le = ground (
    arith,
    a now h,
    Agrees-select window last now stamps log h a t le,
    count-snoc (in_window window t) now (select (in_window window now) stamps) log
        (Agrees-select window last now stamps log h a t le),
  )

-- One call keeps the stamps of its key in agreement with the log of admitted requests, and answers
-- what the log answers.
pub memory_allow-Agrees :
    (tenant_id suffix : String) (limit : ℤ) (window last now : ℕ) (l : Windows) (log : List ℕ)
    → last ≤ now
    → Agrees window last (l (memory_key tenant_id suffix)) log
    → Agrees window now
        ((memory_allow tenant_id suffix limit window now l).0 (memory_key tenant_id suffix))
        (log_step limit window now log).0
      × ((memory_allow tenant_id suffix limit window now l).1 ≡ (log_step limit window now log).1)
memory_allow-Agrees tenant_id suffix limit window last now l log le a =
    let k = memory_key tenant_id suffix in
    rw (memory_allow_lem tenant_id suffix limit window now l, eq_refl k)
      (
        stamps_step-Agrees limit window last now (l k) log le a,
        stamps_step-answer limit window last now (l k) log le a,
      )

abbrev AgreesAll : ℕ → ℕ → Windows → Windows → Type 0
AgreesAll window last l logs = (k : String) → Agrees window last (l k) (logs k)

write-AgreesAll :
    (window last now : ℕ) (l logs : Windows) (k : String) (stamps log : List ℕ)
    → last ≤ now
    → AgreesAll window last l logs
    → Agrees window now stamps log
    → AgreesAll window now (write l k stamps) (write logs k log)
write-AgreesAll window last now l logs k stamps log h a b j t le = elim (Bool-cases (j == k)) [
  | inl same ↦ rw same (b t le)
  | inr other ↦ rw other (a j t (omega arith))
]

from_agreement :
    (limit : ℤ) (window last : ℕ) (hits : List Hit) (l logs : Windows)
    → RisingHits last hits
    → AgreesAll window last l logs
    → memory_run limit window hits l ≡ keyed_run limit window hits logs
unfolding memory_run keyed_run
from_agreement limit window last [] l logs rising a = refl
from_agreement limit window last (h ∷ hs) l logs (le, rising) a =
    let b : Agrees window last (l (hit_key h)) (logs (hit_key h)) = a (hit_key h) in
    rw (memory_allow_lem h.tenant_id h.suffix limit window h.now l) (
      ap₂ ◌∷◌ (stamps_step-answer limit window last h.now (l (hit_key h)) (logs (hit_key h)) le b) (
        from_agreement limit window h.now hs _ _ rising (
          write-AgreesAll window last h.now l logs (hit_key h) _ _ le a
            (stamps_step-Agrees limit window last h.now (l (hit_key h)) (logs (hit_key h)) le b))))

-- What the limiter prunes changes no answer.
pub memory_run-keyed_run :
    (limit : ℤ) (window : ℕ) (hits : List Hit)
    → RisingHits 0 hits
    → memory_run limit window hits new_memory_limiter
      ≡ keyed_run limit window hits new_memory_limiter
memory_run-keyed_run limit window hits rising =
    from_agreement limit window 0 hits new_memory_limiter new_memory_limiter rising (λ k t le. refl)
