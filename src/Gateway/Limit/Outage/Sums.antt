-- ===== src/Gateway/Limit/Outage/Sums.antt =====
-- Sums over the instances of the gateway, whose states are a function of the instance.
use chain_pulse.Prelude.{
  ℕ, zero, suc, ◌+◌, ◌*◌, ◌≤◌, ◌<◌, ◌≡◌, refl, arith, nat_eq, Bool-cases, inl, inr,
}
use chain_pulse.Gateway.Limit.Instances.{at}

-- The sum of f over the instances below n.
abbrev pub sum : ℕ → (ℕ → ℕ) → ℕ
sum zero f = 0
sum (suc n) f = f n + sum n f

pub sum-le : (n b : ℕ) (f : ℕ → ℕ) → ((i : ℕ) → f i ≤ b) → sum n f ≤ n * b
sum-le zero b f h = omega arith
sum-le (suc n) b f h = ground (arith, h n, sum-le n b f h)

sum-at_beyond :
    {A : Type 0} (g : A → ℕ) (n i : ℕ) (x : A) (f : ℕ → A)
    → n ≤ i
    → sum n (λ j. g (at i x f j)) ≡ sum n (λ j. g (f j))
sum-at_beyond g zero i x f h = refl
sum-at_beyond g (suc n) i x f h = ground (arith, sum-at_beyond g n i x f)

pub sum-at :
    {A : Type 0} (g : A → ℕ) (n i : ℕ) (x : A) (f : ℕ → A)
    → i < n
    → sum n (λ j. g (at i x f j)) + g (f i) ≡ sum n (λ j. g (f j)) + g x
sum-at g zero i x f h = omega arith
sum-at g (suc n) i x f h = elim (Bool-cases (nat_eq n i)) [
  | inl e ↦ ground (arith, sum-at_beyond g n i x f)
  | inr e ↦ ground (arith, sum-at g n i x f)
]
