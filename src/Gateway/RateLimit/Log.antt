-- ===== src/Gateway/RateLimit/Log.antt =====
-- What a limiter of internal/gateway/middleware/ratelimit.go promises: it answers as if it kept
-- a log of every request that it ever admitted.
use chain_pulse.Prelude.{
  ℕ, ◌≤◌, Bool, true, false, ◌&&◌, List, [], ◌∷◌, ◌≡◌, refl, arith, leb, below, Bool-cases, inl,
  inr, if◌then◌else◌, length, ℤ, pos, negsuc, pos_part, select, All,
}
use chain_pulse.Gateway.RateLimit.{in_window}

abbrev pub count : (ℕ → Bool) → List ℕ → ℕ
count p xs = length (select p xs)

-- One request, against the log of admitted requests.
abbrev pub log_step : ℤ → ℕ → ℕ → List ℕ → List ℕ × Bool
log_step limit window now log =
    if below (count (in_window window now) log) limit then (now ∷ log, true) else (log, false)

-- The log after requests at these times, and the answers.
unfoldable pub log_run : ℤ → ℕ → List ℕ → List ℕ → List ℕ × List Bool
log_run limit window [] log = (log, [])
log_run limit window (now ∷ times) log =
    let (log', answer) = log_step limit window now log in
    let (final, answers) = log_run limit window times log' in (final, answer ∷ answers)

-- The times do not go back, from this one on.
abbrev pub Rising : ℕ → List ℕ → Type 0
Rising last [] = Unit
Rising last (now ∷ times) = (last ≤ now) × Rising now times

pub count-le :
    (p q : ℕ → Bool) (xs : List ℕ) → ((x : ℕ) → p x ≡ true → q x ≡ true) → count p xs ≤ count q xs
count-le p q [] h = omega arith
count-le p q (x ∷ xs) h = ground (arith, count-le p q xs h, h x)

pub count-select :
    (p q : ℕ → Bool) (xs : List ℕ)
    → ((x : ℕ) → p x ≡ true → q x ≡ true)
    → count p (select q xs) ≡ count p xs
count-select p q [] h = refl
count-select p q (x ∷ xs) h = ground (arith, count-select p q xs h, h x)

pub count-none : (p : ℕ → Bool) (xs : List ℕ) → All (λ x. p x ≡ false) xs → count p xs ≡ 0
count-none p [] h = refl
count-none p (x ∷ xs) (here, later) = ground (arith, count-none p xs later)

-- A later window reaches less far back.
pub in_window-later :
    (window now t : ℕ)
    → now ≤ t
    → (x : ℕ) → in_window window t x ≡ true
    → in_window window now x ≡ true
in_window-later window now t h x e = ground arith

-- The requests admitted after `t - window` and not after `t`.
abbrev pub admitted_in : ℕ → ℕ → List ℕ → ℕ
admitted_in window t log = count (λ x. in_window window t x && leb x t) log

pub admitted_in-le :
    (window now t : ℕ) (log : List ℕ)
    → now ≤ t
    → admitted_in window t log ≤ count (in_window window now) log
admitted_in-le window now t log h = count-le _ _ log (λ x e. ground arith)

-- No window holds more than the limit.
abbrev pub IsBounded : ℤ → ℕ → List ℕ → Type 0
IsBounded limit window log = (t : ℕ) → admitted_in window t log ≤ pos_part limit

pub log_step-IsBounded :
    (limit : ℤ) (window now : ℕ) (log : List ℕ)
    → IsBounded limit window log
    → IsBounded limit window (log_step limit window now log).0
log_step-IsBounded (negsuc k) window now log b t = b t
log_step-IsBounded (pos k) window now log b t = elim (Bool-cases (leb now t)) [
  | inl past ↦ ground (arith, b t, admitted_in-le window now t log (ground arith))
  | inr future ↦ ground (arith, b t)
]

pub log_run-IsBounded :
    (limit : ℤ) (window : ℕ) (times log : List ℕ)
    → IsBounded limit window log
    → IsBounded limit window (log_run limit window times log).0
unfolding log_run
log_run-IsBounded limit window [] log b = b
log_run-IsBounded limit window (now ∷ times) log b =
    log_run-IsBounded limit window times _ (log_step-IsBounded limit window now log b)
