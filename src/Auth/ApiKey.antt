-- ===== src/Auth/ApiKey.antt =====
-- internal/auth/apikey.go: the shape of a key, its hash and its display prefix. A key is printed in
-- hexadecimal; SHA-256 is a parameter, and what takes the hash of a key takes any function for it.
pub mod Shape
use Prim.Native.Char.{Char}
use Prim.Native.String
use Prim.Native.String.{len, slice, ◌++◌}
use text.Mathlib.Text.{starts_with}
use chain_pulse.Prelude.{
  ℕ, zero, suc, ◌/◌, ◌%◌, String, Bool, List, [], ◌∷◌, Option, none, some, ltb, if◌then◌else◌, ◌==◌,
}
use chain_pulse.Identity.{Role}
use chain_pulse.Auth.Errors.{Result, ok, err, internal_error}

abbrev pub api_key_display_prefix : String
api_key_display_prefix = "cp_"

abbrev pub api_key_random_bytes : ℕ
api_key_random_bytes = 32

-- The metadata of a key, without the secret.
pub record ApiKey : Type 0 where
  pub id : String
  pub tenant_id : String
  pub name : String
  pub key_prefix : String
  pub role : Role
  pub region : String
  pub supplier_id : String
  pub created_at : ℕ
  pub last_used_at : Option ℕ
  pub expires_at : Option ℕ
  pub revoked_at : Option ℕ

pub record CreateApiKeySpec : Type 0 where
  pub tenant_id : String
  pub name : String
  pub role : Role
  pub region : String
  pub supplier_id : String
  pub expires_at : Option ℕ

abbrev pub nth : List Char → ℕ → Char
nth [] n = "0"
nth (c ∷ cs) zero = c
nth (c ∷ cs) (suc n) = nth cs n

abbrev pub hex_digits : List Char
hex_digits =
    "0" ∷ "1" ∷ "2" ∷ "3" ∷ "4" ∷ "5" ∷ "6" ∷ "7" ∷ "8" ∷ "9" ∷ "a" ∷ "b" ∷ "c" ∷ "d" ∷ "e" ∷ "f"
    ∷ []

unfoldable pub hex_digit : ℕ → Char
hex_digit n = nth hex_digits n

-- hex.EncodeToString, over the bytes
unfoldable pub encode_to_string : List ℕ → String
encode_to_string [] = String.[]
encode_to_string (b ∷ bs) =
    String.◌∷◌ (hex_digit (b / 16)) (String.◌∷◌ (hex_digit (b % 16)) (encode_to_string bs))

-- sha256 gives the bytes of the sum.
unfoldable pub hash_api_key : (String → List ℕ) → String → String
hash_api_key sha256 key = encode_to_string (sha256 key)

-- strings.TrimPrefix
abbrev pub trim_prefix : String → String → String
trim_prefix s prefix = if starts_with s prefix then slice s (len prefix) (len s) else s

unfoldable pub display_prefix : String → String
display_prefix plaintext =
    let body = trim_prefix plaintext api_key_display_prefix in
    let n = if ltb (len body) 8 then len body else 8 in api_key_display_prefix ++ slice body 0 n

abbrev pub constant_time_equal : String → String → Bool
constant_time_equal a b = a == b

pub record Generated : Type 0 where
  pub plaintext : String
  pub hash : String
  pub prefix : String

-- generateAPIKey; the bytes that rand.Read gives are `none` if it fails.
unfoldable pub generate_api_key : (String → String) → Option (List ℕ) → Result Generated
generate_api_key hash_api_key none = err internal_error
generate_api_key hash_api_key (some buf) =
    let plaintext = api_key_display_prefix ++ encode_to_string buf in
    ok (record {
      plaintext = plaintext;
      hash = hash_api_key plaintext;
      prefix = display_prefix plaintext;
    })
