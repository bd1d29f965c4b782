-- ===== src/Config/Int.antt =====
-- strconv.Atoi as shared/config/config.go uses it: the settings that are integers.
use Prim.Native.Char.{Char, char, code}
use Prim.Native.String.{String, [], ◌∷◌}
use chain_pulse.Prelude.{
  ℕ, ◌+◌, ◌-◌, ◌*◌, ◌<◌, ◌≤◌, ◌≡◌, ◌≢◌, ne_false, zero, suc, refl, ap, ◌∙◌, sym, arith, Bool, ◌&&◌,
  ◌||◌, true, false, Option, none, some, ltb, leb, nat_eq, ℤ, pos, neg, negsuc, two_pow_63,
  if◌then◌else◌, ltb→lt, Bool-cases, inl, inr,
}
use chain_pulse.Config.{
  read_digits, magnitude, in_range_pos, in_range_neg, atoi, get_int_or_default, or_default,
}
use chain_pulse.Config.DotEnv.{Env}

-- The values of an int of 64 bits.
abbrev pub IsInt64 : ℤ → Type 0
IsInt64 (pos n) = n < two_pow_63
IsInt64 (negsuc n) = n < two_pow_63

abbrev pub is_digit : Char → Bool
is_digit c = leb 48 (code c) && leb (code c) 57

abbrev pub all_digits : String → Bool
all_digits [] = true
all_digits (c ∷ s) = is_digit c && all_digits s

-- The weight of the digit in front of a text, and the number that a text of digits stands for.
abbrev pub weight : String → ℕ
weight [] = 1
weight (c ∷ s) = 10 * weight s

abbrev pub place_value : String → ℕ
place_value [] = 0
place_value (c ∷ s) = (code c - 48) * weight s + place_value s

read_digits-place_value :
    (s : String) (n : ℕ)
    → all_digits s ≡ true
    → read_digits s n ≡ some (n * weight s + place_value s)
unfolding read_digits
read_digits-place_value [] n a = ap some (omega arith)
read_digits-place_value (c ∷ s) n a =
    let digit : is_digit c ≡ true = ground arith in
    rw (digit, read_digits-place_value s (10 * n + (code c - 48)) (ground arith))
      (ap some (omega arith))

read_digits-none : (s : String) (n : ℕ) → all_digits s ≡ false → read_digits s n ≡ none
unfolding read_digits
read_digits-none [] n a = cc
read_digits-none (c ∷ s) n a = ground (arith, read_digits-none s (10 * n + (code c - 48)))

pub data Sign : Type 0 where
  plus minus bare : Sign

abbrev pub sign_text : Sign → String → String
sign_text plus s = char 43 tt ∷ s
sign_text minus s = char 45 tt ∷ s
sign_text bare s = s

-- The number that a sign and decimal digits stand for, if an int of 64 bits has it.
abbrev pub signed : Sign → String → Option ℤ
signed minus s =
    if all_digits s && leb (place_value s) two_pow_63 then some (neg (place_value s)) else none
signed _ s =
    if all_digits s && ltb (place_value s) two_pow_63 then some (pos (place_value s)) else none

abbrev pub is_sign : Char → Bool
is_sign c = nat_eq (code c) 43 || nat_eq (code c) 45

if-true {ℓ} : {A : Type ℓ} {b : Bool} (x y : A) → b ≡ true → (if b then x else y) ≡ x
if-true x y h = rw h refl

if-false {ℓ} : {A : Type ℓ} {b : Bool} (x y : A) → b ≡ false → (if b then x else y) ≡ y
if-false x y h = rw h refl

magnitude_lem :
    (c : Char) (s : String)
    → magnitude (c ∷ s) ≡ (if all_digits (c ∷ s) then some (place_value (c ∷ s)) else none)
unfolding magnitude
magnitude_lem c s = elim (Bool-cases (all_digits (c ∷ s))) [
  | inl a ↦ read_digits-place_value (c ∷ s) 0 a ∙ ap some (omega arith) ∙ sym (if-true _ _ a)
  | inr a ↦ read_digits-none (c ∷ s) 0 a ∙ sym (if-false _ _ a)
]

in_range_pos-if :
    (b : Bool) (n : ℕ)
    → in_range_pos (if b then some n else none)
      ≡ (if b && ltb n two_pow_63 then some (pos n) else none)
in_range_pos-if true n = refl
in_range_pos-if false n = refl

in_range_neg-if :
    (b : Bool) (n : ℕ)
    → in_range_neg (if b then some n else none)
      ≡ (if b && leb n two_pow_63 then some (neg n) else none)
in_range_neg-if true n = refl
in_range_neg-if false n = refl

atoi-bare :
    (c : Char) (s : String) → is_sign c ≡ false → atoi (c ∷ s) ≡ in_range_pos (magnitude (c ∷ s))
unfolding atoi
atoi-bare c s h =
    let no_plus : nat_eq (code c) 43 ≡ false = ground arith in
    let no_minus : nat_eq (code c) 45 ≡ false = ground arith in
    if-false _ _ no_minus ∙ if-false _ _ no_plus

atoi-signed :
    (sg : Sign) (c : Char) (s : String)
    → is_sign c ≡ false
    → atoi (sign_text sg (c ∷ s)) ≡ signed sg (c ∷ s)
unfolding atoi
atoi-signed plus c s h =
    ap in_range_pos (magnitude_lem c s) ∙ in_range_pos-if (all_digits (c ∷ s)) (place_value (c ∷ s))
atoi-signed minus c s h =
    ap in_range_neg (magnitude_lem c s) ∙ in_range_neg-if (all_digits (c ∷ s)) (place_value (c ∷ s))
atoi-signed bare c s h =
    atoi-bare c s h
    ∙ ap in_range_pos (magnitude_lem c s)
    ∙ in_range_pos-if (all_digits (c ∷ s)) (place_value (c ∷ s))

neg-IsInt64 : (n : ℕ) → n ≤ two_pow_63 → IsInt64 (neg n)
neg-IsInt64 zero h = ground arith
neg-IsInt64 (suc n) h = omega arith

pos_if-IsInt64 :
    (fallback : ℤ) (b : Bool) (n : ℕ)
    → IsInt64 fallback
    → IsInt64 (or_default fallback (if b && ltb n two_pow_63 then some (pos n) else none))
pos_if-IsInt64 fallback false n f = f
pos_if-IsInt64 fallback true n f = elim (Bool-cases (ltb n two_pow_63)) [
  | inl small ↦ rw small (ltb→lt n two_pow_63 small)
  | inr big ↦ rw big f
]

neg_if-IsInt64 :
    (fallback : ℤ) (b : Bool) (n : ℕ)
    → IsInt64 fallback
    → IsInt64 (or_default fallback (if b && leb n two_pow_63 then some (neg n) else none))
neg_if-IsInt64 fallback false n f = f
neg_if-IsInt64 fallback true n f = elim (Bool-cases (leb n two_pow_63)) [
  | inl small ↦ rw small (neg-IsInt64 n (ground arith))
  | inr big ↦ rw big f
]

signed-IsInt64 :
    (fallback : ℤ) (sg : Sign) (s : String)
    → IsInt64 fallback
    → IsInt64 (or_default fallback (signed sg s))
signed-IsInt64 fallback plus s f = pos_if-IsInt64 fallback (all_digits s) (place_value s) f
signed-IsInt64 fallback minus s f = neg_if-IsInt64 fallback (all_digits s) (place_value s) f
signed-IsInt64 fallback bare s f = pos_if-IsInt64 fallback (all_digits s) (place_value s) f

sign_text-cons : (sg : Sign) (c : Char) (s : String) → sign_text sg (c ∷ s) ≢ ""
sign_text-cons plus c s e = cc
sign_text-cons minus c s e = cc
sign_text-cons bare c s e = cc

-- An integer setting that is a text, after one optional sign, of decimal digits only is the number
-- that they stand for in base ten if an int of 64 bits holds it, and the fallback if it is too large
-- or another character stands among the digits; it is in the range of such an int if the fallback
-- is.
pub get_int_or_default-signed :
    (key : String) (fallback : ℤ) (env : Env) (sg : Sign) (c : Char) (s : String)
    → is_sign c ≡ false
    → env key ≡ some (sign_text sg (c ∷ s))
    → IsInt64 fallback
    → (get_int_or_default key fallback env ≡ or_default fallback (signed sg (c ∷ s)))
      × IsInt64 (get_int_or_default key fallback env)
unfolding get_int_or_default
get_int_or_default-signed key fallback env sg c s h e f =
    let read : get_int_or_default key fallback env ≡ or_default fallback (signed sg (c ∷ s)) =
      rw (e, ne_false (sign_text-cons sg c s), atoi-signed sg c s h) refl in
    (read, rw read (signed-IsInt64 fallback sg (c ∷ s) f))
