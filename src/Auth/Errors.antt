-- ===== src/Auth/Errors.antt =====
-- The sentinel errors of internal/auth/jwt.go and apikey.go. An error that wraps a sentinel
-- (`fmt.Errorf("%w: …")`) is that sentinel to errors.Is, so its text is left out.
use chain_pulse.Prelude.{Option, none, some}

pub data AuthError : Type 0 where
  expired invalid_token wrong_token_use : AuthError
  key_not_found key_revoked key_expired : AuthError
  -- errNoCredential of the gateway's middleware
  no_credential : AuthError
  -- an error of the database, of the random source or of the signing library
  internal_error : AuthError

pub data Result {ℓ} (A : Type ℓ) : Type ℓ where
  ok : A → Result A
  err : AuthError → Result A

infixl 5 ◌>>=◌
abbrev pub ◌>>=◌ {ℓ κ} : {A : Type ℓ} {B : Type κ} → Result A → (A → Result B) → Result B
ok a >>= f = f a
err e >>= f = err e

abbrev pub or_fail {ℓ} : {A : Type ℓ} → Option A → AuthError → Result A
or_fail none e = err e
or_fail (some a) e = ok a
