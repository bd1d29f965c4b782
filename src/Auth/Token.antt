-- ===== src/Auth/Token.antt =====
-- internal/auth/jwt.go: issuing and validating tokens. Times are in nanoseconds. The library
-- golang-jwt is a parameter: its functions are the fields of `JwtLib`, and what is relied on of
-- their documented behaviour stands in `JwtLaws`.
pub mod RoundTrip
use chain_pulse.Prelude.{
  ℕ, ◌+◌, ◌≤◌, ◌<◌, ◌≡◌, ◌≢◌, String, Bool, true, false, not, ◌&&◌, ◌||◌, ◌==◌, Option, none, some,
  if◌then◌else◌,
}
use chain_pulse.Identity.{Identity, valid}
use chain_pulse.Auth.Errors.{
  Result, ok, err, ◌>>=◌, expired, invalid_token, wrong_token_use, internal_error, or_fail,
}

abbrev pub token_type_access : String
token_type_access = "access"

abbrev pub token_type_refresh : String
token_type_refresh = "refresh"

-- Claims, with the registered claims that the source sets.
pub record Claims : Type 0 where
  pub tenant_id : String
  pub role : String
  pub region : String
  pub supplier_id : String
  pub token_type : String
  pub subject : String
  pub issuer : String
  pub issued_at : ℕ
  pub expires_at : ℕ

pub record TokenPair : Type 0 where
  pub access_token : String
  pub refresh_token : String
  pub token_type : String
  pub expires_at : ℕ

-- The signing methods that the key function tells apart: HMAC with a hash, or anything else.
pub data Method : Type 0 where
  hs256 other_hmac not_hmac : Method

-- What ParseWithClaims answers: the claims, ErrTokenExpired, or any other error.
pub data Parsed : Type 0 where
  claims : Claims → Parsed
  token_expired rejected : Parsed

pub record JwtLib : Type 0 where
  -- NewNumericDate
  pub numeric_date : ℕ → ℕ
  -- NewWithClaims(SigningMethodHS256, …).SignedString(secret)
  pub signed_string : String → Claims → Option String
  -- ParseWithClaims(token, …, keyfunc, WithTimeFunc(now))
  pub parse_with_claims : String → (Method → Option String) → ℕ → Parsed
  -- The method that the token's header names, and whether its signature verifies under a key.
  pub method_of : String → Method
  pub verifies : Method → String → String → Bool

pub record JwtLaws (lib : JwtLib) : Type 0 where
  -- A date is truncated to its precision.
  pub numeric_date-le : (t : ℕ) → lib.numeric_date t ≤ t
  -- A token that was signed with a key parses to its claims before they expire, and is reported as
  -- expired from then on, if the key function gives that key to HS256.
  pub parse-signed :
      (secret token : String) (c : Claims) (key : Method → Option String) (now : ℕ)
      → lib.signed_string secret c ≡ some token
      → key hs256 ≡ some secret
      → now < c.expires_at
      → lib.parse_with_claims token key now ≡ claims c
  pub parse-signed_late :
      (secret token : String) (c : Claims) (key : Method → Option String) (now : ℕ)
      → lib.signed_string secret c ≡ some token
      → key hs256 ≡ some secret
      → c.expires_at ≤ now
      → lib.parse_with_claims token key now ≡ token_expired
  -- Claims come only from a token whose signature verifies under the key that the key function
  -- gives to the method of its header.
  pub parse-verifies :
      (token : String) (key : Method → Option String) (now : ℕ) (c : Claims)
      → lib.parse_with_claims token key now ≡ claims c
      → (k : String) × (key (lib.method_of token) ≡ some k)
        × (lib.verifies (lib.method_of token) k token ≡ true)

-- The clock is an argument of each method.
pub record Issuer : Type 0 where
  pub secret : String
  pub access_ttl : ℕ
  pub refresh_ttl : ℕ

-- NewIssuer; `none` is the panic on an empty secret.
unfoldable pub new_issuer : String → ℕ → ℕ → Option Issuer
new_issuer secret access_ttl refresh_ttl =
    if secret == ""
    then none
    else some (record { secret = secret; access_ttl = access_ttl; refresh_ttl = refresh_ttl })

module _ (lib : JwtLib) (i : Issuer) where
  abbrev pub claims_of : Identity → String → ℕ → ℕ → Claims
  claims_of id token_type iat exp = record {
    tenant_id = id.tenant_id;
    role = id.role;
    region = id.region;
    supplier_id = id.supplier_id;
    token_type = token_type;
    subject = id.user_id;
    issuer = "chainpulse";
    issued_at = lib.numeric_date iat;
    expires_at = lib.numeric_date exp;
  }

  unfoldable pub sign : Identity → String → ℕ → ℕ → Result String
  sign id token_type iat exp =
      or_fail (lib.signed_string i.secret (claims_of id token_type iat exp)) internal_error

  -- Issue, at a time
  unfoldable pub issue : ℕ → Identity → Result TokenPair
  unfolding sign
  issue now id =
      if not (valid id.role)
      then err invalid_token
      else if id.tenant_id == "" || id.user_id == ""
      then err invalid_token
      else do
        access ← sign id token_type_access now (now + i.access_ttl)
        refresh ← sign id token_type_refresh now (now + i.refresh_ttl)
        ok (record {
          access_token = access;
          refresh_token = refresh;
          token_type = "Bearer";
          expires_at = now + i.access_ttl;
        })

  -- The key function of parse: any method but HMAC is refused.
  unfoldable pub key_func : Method → Option String
  key_func not_hmac = none
  key_func _ = some i.secret

  abbrev pub of_parsed : Parsed → Result Claims
  of_parsed (claims c) = ok c
  of_parsed token_expired = err expired
  of_parsed rejected = err invalid_token

  unfoldable pub parse : ℕ → String → Result Claims
  parse now token = of_parsed (lib.parse_with_claims token key_func now)

  unfoldable pub to_identity : Claims → Result Identity
  to_identity c =
      if not (valid c.role)
      then err invalid_token
      else ok (record {
        tenant_id = c.tenant_id;
        user_id = c.subject;
        role = c.role;
        region = c.region;
        supplier_id = c.supplier_id;
      })

  unfoldable pub validate : ℕ → String → Result Identity
  unfolding parse to_identity
  validate now token = do
    c ← parse now token
    if not (c.token_type == token_type_access) then err wrong_token_use else to_identity c

  unfoldable pub refresh : ℕ → String → Result TokenPair
  unfolding parse to_identity issue
  refresh now token = parse now token >>= λ c.
      if not (c.token_type == token_type_refresh)
      then err wrong_token_use
      else to_identity c >>= issue now
