-- ===== src/Config/DotEnv/Characters.antt =====
-- What loadDotEnv of shared/config/config.go finds in a text of which the characters are known.
use Prim.Native.Char.{Char, code}
use Prim.Native.String.{String, [], ◌∷◌, ◌++◌}
use text.Mathlib.TextLemmas.{nil-append, cons-append}
use mathlib.Core.List.{List}
use chain_pulse.Prelude.{
  ℕ, Bool, true, false, ◌||◌, ◌==◌, ◌≡◌, refl, arith, some, nat_eq, trim_right, ne_false,
}
use chain_pulse.Config.DotEnv.{split_lines, drop_cr, cut, holds}
use chain_pulse.Config.DotEnv.Format.{all_of, quote, newline}

-- What a lemma about a scan says of every character.
pub holds-false :
    (b : ℕ) (p : Char → Bool) (s : String)
    → ((c : Char) → p c ≡ true → nat_eq (code c) b ≡ false)
    → all_of p s ≡ true
    → holds b s ≡ false
unfolding holds
holds-false b p [] h a = refl
holds-false b p (c ∷ s) h a = ground (arith, h c, holds-false b p s h)

pub cut-append :
    (b : ℕ) (s : String) (c : Char) (rest : String)
    → holds b s ≡ false
    → nat_eq (code c) b ≡ true
    → cut b (s ++ (c ∷ rest)) ≡ some (s, rest)
unfolding cut holds
cut-append b [] c rest h e = rw (nil-append (c ∷ rest), e) refl
cut-append b (d ∷ s) c rest h e =
    let d_no : nat_eq (code d) b ≡ false = ground arith in
    let s_no : holds b s ≡ false = ground arith in
    rw (cons-append d s (c ∷ rest), d_no, cut-append b s c rest s_no e) refl

pub split_lines-append :
    (s rest : String)
    → holds 10 s ≡ false
    → split_lines (s ++ (newline ∷ rest)) ≡ List.◌∷◌ s (split_lines rest)
unfolding split_lines holds
split_lines-append [] rest h = rw (nil-append (newline ∷ rest)) refl
split_lines-append (c ∷ s) rest h =
    let c_no : nat_eq (code c) 10 ≡ false = ground arith in
    rw (cons-append c s (newline ∷ rest), split_lines-append s rest (ground arith), c_no) refl

-- A text that ends in a quote keeps its end.
pub ends_quoted : (s : String) → (s ++ (quote ∷ []) == []) ≡ false
ends_quoted [] = refl
ends_quoted (c ∷ s) = rw (cons-append c s (quote ∷ [])) (ne_false (λ e. cc))

pub drop_cr-quoted : (s : String) → drop_cr (s ++ (quote ∷ [])) ≡ s ++ (quote ∷ [])
unfolding drop_cr
drop_cr-quoted [] = refl
drop_cr-quoted (c ∷ s) =
    rw (cons-append c s (quote ∷ []), ends_quoted s, drop_cr-quoted s) (ground arith)

pub trim_right-quoted : (s : String) → trim_right (s ++ (quote ∷ [])) ≡ s ++ (quote ∷ [])
unfolding trim_right
trim_right-quoted [] = refl
trim_right-quoted (c ∷ s) =
    rw (cons-append c s (quote ∷ []), trim_right-quoted s, ends_quoted s) (ground arith)

pub holds-append : (b : ℕ) (s t : String) → holds b (s ++ t) ≡ (holds b s || holds b t)
unfolding holds
holds-append b [] t = rw (nil-append t) refl
holds-append b (c ∷ s) t = rw (cons-append c s t, holds-append b s t) (ground arith)
