-- ===== src/Auth/ApiKey/Shape.antt =====
-- The shape of a generated key of internal/auth/apikey.go.
use Prim.Native.Char.{Char, len_utf8}
use Prim.Native.String.len
use Prim.Native.String.{len, slice, ◌++◌}
use text.Mathlib.TextPositions.{
  len-append, slice-append_left, slice-append_right, starts_with-append,
}
use text.Mathlib.TextLemmas.{nil-append, cons-append, append_assoc}
use chain_pulse.Prelude.{
  ℕ, zero, suc, ◌+◌, ◌*◌, ◌/◌, ◌%◌, ◌≡◌, refl, ◌++◌ as ◌++ᴸ◌, ap, sym, ◌∙◌, arith, String, List, [],
  ◌∷◌, length, some, All, le→ltb,
}
use chain_pulse.Auth.Errors.{ok}
use chain_pulse.Auth.ApiKey.{
  nth, hex_digits, hex_digit, encode_to_string, display_prefix, trim_prefix, generate_api_key,
  Generated, api_key_display_prefix, api_key_random_bytes,
}

nth-len : (cs : List Char) (n : ℕ) → All (λ c. len_utf8 c ≡ 1) cs → len_utf8 (nth cs n) ≡ 1
nth-len [] n h = refl
nth-len (c ∷ cs) zero h = h.0
nth-len (c ∷ cs) (suc n) h = nth-len cs n h.1

hex_digit-len : (n : ℕ) → len_utf8 (hex_digit n) ≡ 1
unfolding hex_digit
hex_digit-len n = nth-len hex_digits n (omega arith)

len-encode_to_string : (bs : List ℕ) → len (encode_to_string bs) ≡ 2 * length bs
unfolding encode_to_string
len-encode_to_string [] = refl
len-encode_to_string (b ∷ bs) = omega (
  arith,
  len.cons (hex_digit (b / 16)) (String.◌∷◌ (hex_digit (b % 16)) (encode_to_string bs)),
  len.cons (hex_digit (b % 16)) (encode_to_string bs),
  hex_digit-len (b / 16),
  hex_digit-len (b % 16),
  len-encode_to_string bs,
)

encode_to_string-append :
    (xs ys : List ℕ) → encode_to_string (xs ++ᴸ ys) ≡ encode_to_string xs ++ encode_to_string ys
unfolding encode_to_string
encode_to_string-append [] ys = sym (nil-append _)
encode_to_string-append (x ∷ xs) ys =
    rw (encode_to_string-append xs ys)
      (sym (cons-append _ _ _ ∙ ap (String.◌∷◌ (hex_digit (x / 16))) (cons-append _ _ _)))

trim_prefix-append : (p s : String) → trim_prefix (p ++ s) p ≡ s
trim_prefix-append p s = rw (starts_with-append p s, len-append p s) (slice-append_right p s)

display_prefix-append :
    (h t : String)
    → len h ≡ 8
    → display_prefix (api_key_display_prefix ++ (h ++ t)) ≡ api_key_display_prefix ++ h
unfolding display_prefix
display_prefix-append h t e =
    rw
      (
        trim_prefix-append api_key_display_prefix (h ++ t),
        len-append h t,
        e,
        le→ltb (8 + len t) 8 (omega arith),
      )
      (ap (◌++◌ api_key_display_prefix) (ap (slice (h ++ t) 0) (sym e) ∙ slice-append_left h t))

-- What a generated key looks like.
pub record IsWellFormed (hash_api_key : String → String) (g : Generated) : Type 0 where
  pub length_in_bytes : len g.plaintext ≡ 67
  pub hashed : g.hash ≡ hash_api_key g.plaintext
  pub prefix_length : len g.prefix ≡ 11
  pub secret_rest : String
  pub prefix_first : g.plaintext ≡ g.prefix ++ secret_rest

shape_of :
    (hash_api_key : String → String) (b₁ b₂ b₃ b₄ : ℕ) (bs : List ℕ)
    → length bs ≡ 28
    → (g : Generated) × (generate_api_key hash_api_key (some (b₁ ∷ b₂ ∷ b₃ ∷ b₄ ∷ bs)) ≡ ok g)
      × IsWellFormed hash_api_key g
unfolding generate_api_key
shape_of hash_api_key b₁ b₂ b₃ b₄ bs e =
    let front : List ℕ = b₁ ∷ b₂ ∷ b₃ ∷ b₄ ∷ [] in
    let shown : String = encode_to_string front in
    let hidden : String = encode_to_string bs in
    let split : encode_to_string (b₁ ∷ b₂ ∷ b₃ ∷ b₄ ∷ bs) ≡ shown ++ hidden =
      encode_to_string-append front bs in
    let prefix : display_prefix
          (api_key_display_prefix ++ encode_to_string (b₁ ∷ b₂ ∷ b₃ ∷ b₄ ∷ bs))
        ≡ api_key_display_prefix ++ shown =
      ap (λ s. display_prefix (api_key_display_prefix ++ s)) split
      ∙ display_prefix-append shown hidden (omega (arith, len-encode_to_string front)) in
    (
      _,
      refl,
      record {
        length_in_bytes = omega (
          arith,
          len-append api_key_display_prefix (encode_to_string (b₁ ∷ b₂ ∷ b₃ ∷ b₄ ∷ bs)),
          len-encode_to_string (b₁ ∷ b₂ ∷ b₃ ∷ b₄ ∷ bs),
          e,
        );
        hashed = refl;
        prefix_length =
            rw prefix
              (omega (arith, len-append api_key_display_prefix shown, len-encode_to_string front));
        secret_rest = hidden;
        prefix_first =
            ap (◌++◌ api_key_display_prefix) split
            ∙ sym (append_assoc api_key_display_prefix shown hidden)
            ∙ ap (λ p. p ++ hidden) (sym prefix);
      },
    )

-- From 32 random bytes a key of 67 bytes is made, with the hash of the whole key beside it; the
-- display prefix has 11 bytes, and the key begins with it.
pub generate_api_key-IsWellFormed :
    (hash_api_key : String → String) (buf : List ℕ)
    → length buf ≡ api_key_random_bytes
    → (g : Generated) × (generate_api_key hash_api_key (some buf) ≡ ok g)
      × IsWellFormed hash_api_key g
generate_api_key-IsWellFormed hash_api_key [] e = absurd (omega arith)
generate_api_key-IsWellFormed hash_api_key (a ∷ []) e = absurd (omega arith)
generate_api_key-IsWellFormed hash_api_key (a ∷ b ∷ []) e = absurd (omega arith)
generate_api_key-IsWellFormed hash_api_key (a ∷ b ∷ c ∷ []) e = absurd (omega arith)
generate_api_key-IsWellFormed hash_api_key (a ∷ b ∷ c ∷ d ∷ bs) e =
    shape_of hash_api_key a b c d bs (omega arith)
