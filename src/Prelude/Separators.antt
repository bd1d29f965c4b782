-- ===== src/Prelude/Separators.antt =====
-- Texts that are joined by a separator.
use Prim.Native.String.{String, [], ◌∷◌, ◌++◌}
use Prim.Native.Char.{Char, code}
use text.Mathlib.TextLemmas.{nil-append, cons-append, cons-eq-cons}
use mathlib.Core.Path.{ap₂}
use Prim.Native.Nat.{ℕ}
use mathlib.Core.Path.{◌≡◌, refl, sym, ap, ◌∙◌}
use mathlib.Core.Logic.{◌≢◌}

-- The text does not hold the character with this code.
abbrev pub Lacks : ℕ → String → Type 0
Lacks n [] = Unit
Lacks n (c ∷ s) = (code c ≢ n) × Lacks n s

-- What stands before the first separator, and behind it, is determined by the whole.
pub split_at :
    (d : Char) (a b x y : String)
    → Lacks (code d) a
    → Lacks (code d) b
    → a ++ (d ∷ x) ≡ b ++ (d ∷ y)
    → (a ≡ b) × (x ≡ y)
split_at d [] [] x y p q e =
    let e1 : d ∷ x ≡ d ∷ y = sym (nil-append _) ∙ e ∙ nil-append _ in (refl, (cons-eq-cons.0 e1).1)
split_at d [] (c ∷ b) x y p q e =
    let e1 : d ∷ x ≡ c ∷ (b ++ (d ∷ y)) = sym (nil-append _) ∙ e ∙ cons-append c b _ in
    absurd (q.0 (sym (ap code (cons-eq-cons.0 e1).0)))
split_at d (c ∷ a) [] x y p q e =
    let e1 : c ∷ (a ++ (d ∷ x)) ≡ d ∷ y = sym (cons-append c a _) ∙ e ∙ nil-append _ in
    absurd (p.0 (ap code (cons-eq-cons.0 e1).0))
split_at d (c ∷ a) (k ∷ b) x y p q e =
    let e1 : c ∷ (a ++ (d ∷ x)) ≡ k ∷ (b ++ (d ∷ y)) =
      sym (cons-append c a _) ∙ e ∙ cons-append k b _ in
    let (h, t) = cons-eq-cons.0 e1 in
    let (same, rest) = split_at d a b x y p.1 q.1 t in (ap₂ ◌∷◌ h same, rest)

-- A separator of one character in front of a text.
pub separator-append : (d : Char) (x : String) → (d ∷ []) ++ x ≡ d ∷ x
separator-append d x = cons-append d [] x ∙ ap (λ s. d ∷ s) (nil-append x)
