-- ===== src/Config/DotEnv/Keys.antt =====
-- What loadDotEnv of shared/config/config.go makes of a key and of a quoted value.
use Prim.Native.Char.{code}
use Prim.Native.String.{String, [], ◌∷◌, ◌++◌}
use text.Mathlib.TextLemmas.{cons-append, append-nil}
use chain_pulse.Prelude.{
  Bool, true, false, not, ◌&&◌, ◌≡◌, ◌≢◌, refl, sym, ap, ◌∙◌, arith, some, nat_eq, is_space,
  trim_left, trim_right, trim_space,
}
use chain_pulse.Config.DotEnv.{cut, is_comment}
use chain_pulse.Config.DotEnv.Format.{is_key_char, all_of, quote, equals}
use chain_pulse.Config.DotEnv.Characters.{holds-false, cut-append, trim_right-quoted}

pub trim_left-key :
    (key rest : String)
    → key ≢ []
    → all_of is_key_char key ≡ true
    → trim_left (key ++ rest) ≡ key ++ rest
unfolding trim_left
trim_left-key [] rest n a = absurd (n refl)
trim_left-key (c ∷ s) rest n a =
    let no_space : is_space c ≡ false = ground arith in rw (cons-append c s rest, no_space) refl

trim_right-key : (s : String) → all_of is_key_char s ≡ true → trim_right s ≡ s
unfolding trim_right
trim_right-key [] a = refl
trim_right-key (c ∷ s) a =
    let no_space : is_space c ≡ false = ground arith in
    rw (trim_right-key s (ground arith), no_space) refl

pub trim_space-key : (s : String) → s ≢ [] → all_of is_key_char s ≡ true → trim_space s ≡ s
unfolding trim_space
trim_space-key s n a =
    ap trim_right (ap trim_left (sym (append-nil s)) ∙ trim_left-key s [] n a ∙ append-nil s)
    ∙ trim_right-key s a

pub trim_space-quoted :
    (value : String)
    → trim_space (quote ∷ (value ++ (quote ∷ []))) ≡ quote ∷ (value ++ (quote ∷ []))
unfolding trim_space trim_left
trim_space-quoted value =
    ap trim_right (sym (cons-append quote value (quote ∷ [])))
    ∙ trim_right-quoted (quote ∷ value)
    ∙ cons-append quote value (quote ∷ [])

no_hash : (a b d e t : Bool) → ((not a && not b && not d && not e) && t) ≡ true → d ≡ false
no_hash a b d e t h = ground arith

pub no_comment :
    (key rest : String)
    → key ≢ []
    → all_of is_key_char key ≡ true
    → is_comment (key ++ rest) ≡ false
no_comment [] rest n a = absurd (n refl)
no_comment (c ∷ s) rest n a = rw (cons-append c s rest) (
    no_hash (is_space c) (nat_eq (code c) 61) (nat_eq (code c) 35) (nat_eq (code c) 0)
      (all_of is_key_char s) a)

pub cut-key :
    (key rest : String)
    → all_of is_key_char key ≡ true
    → cut 61 (key ++ (equals ∷ rest)) ≡ some (key, rest)
cut-key key rest a =
    cut-append 61 key equals rest (holds-false 61 is_key_char key (λ c h. ground arith) a) refl
