-- ===== src/Auth/Token/RoundTrip.antt =====
-- From internal/auth/jwt.go: what a token that Issue hands out is good for.
use chain_pulse.Prelude.{
  ℕ, ◌+◌, ◌≡◌, ◌≢◌, inl, inr, String, true, refl, arith, ◌∙◌, not, ◌==◌, some, Bool-cases, eq_iff,
  ltb, if◌then◌else◌,
}
use chain_pulse.Identity.{Identity, valid}
use chain_pulse.Auth.Errors.{Result, ok, err, ◌>>=◌, expired, wrong_token_use}
use chain_pulse.Auth.Token.{
  JwtLib, JwtLaws, Issuer, TokenPair, Claims, claims_of, token_type_access, token_type_refresh,
  issue, parse, key_func, validate, refresh, to_identity, of_parsed, Parsed, claims, token_expired,
  rejected, Method, hs256, other_hmac, not_hmac,
}

module _ (lib : JwtLib) (laws : JwtLaws lib) (i : Issuer) where
  -- What is known of an identity for which tokens were issued, and of the tokens.
  record Issued (now : ℕ) (id : Identity) (pair : TokenPair) : Type 0 where
    role_valid : valid id.role ≡ true
    tenant : id.tenant_id ≢ ""
    user : id.user_id ≢ ""
    access :
        lib.signed_string i.secret (claims_of lib i id token_type_access now (now + i.access_ttl))
        ≡ some pair.access_token
    refresher :
        lib.signed_string i.secret (claims_of lib i id token_type_refresh now (now + i.refresh_ttl))
        ≡ some pair.refresh_token
    expiry : pair.expires_at ≡ now + i.access_ttl

  issue-Issued :
      (now : ℕ) (id : Identity) (pair : TokenPair)
      → issue lib i now id ≡ ok pair
      → Issued now id pair
  unfolding issue
  issue-Issued now id pair h = record {
    role_valid = ground arith;
    tenant = ground (arith, eq_iff id.tenant_id "");
    user = ground (arith, eq_iff id.user_id "");
    access = ground arith;
    refresher = ground arith;
    expiry = ground arith;
  }

  key_func-hs256 : key_func lib i hs256 ≡ some i.secret
  unfolding key_func
  key_func-hs256 = refl

  parse-signed :
      (t : ℕ) (token : String) (c : Claims)
      → lib.signed_string i.secret c ≡ some token
      → parse lib i t token ≡ (if ltb t c.expires_at then ok c else err expired)
  unfolding parse
  parse-signed t token c signed = elim (Bool-cases (ltb t c.expires_at)) [
    | inl early ↦
        rw
          (
            early,
            laws.parse-signed i.secret token c (key_func lib i) t signed key_func-hs256
                (ground arith),
          )
          refl
    | inr late ↦
        rw
          (
            late,
            laws.parse-signed_late i.secret token c (key_func lib i) t signed key_func-hs256
                (ground arith),
          )
          refl
  ]

  to_identity-claims_of :
      (id : Identity) (token_type : String) (iat exp : ℕ)
      → valid id.role ≡ true
      → to_identity lib i (claims_of lib i id token_type iat exp) ≡ ok id
  unfolding to_identity
  to_identity-claims_of id token_type iat exp v = rw v refl

  validate-signed :
      (t : ℕ) (token : String) (c : Claims)
      → lib.signed_string i.secret c ≡ some token
      → validate lib i t token ≡ (
          if ltb t c.expires_at
          then (if not (c.token_type == token_type_access)
              then err wrong_token_use
              else to_identity lib i c)
          else err expired)
  unfolding validate
  validate-signed t token c signed =
      rw (parse-signed t token c signed)
        (elim (Bool-cases (ltb t c.expires_at)) [ inl e ↦ rw e refl | inr e ↦ rw e refl ])

  refresh-signed :
      (t : ℕ) (token : String) (c : Claims)
      → lib.signed_string i.secret c ≡ some token
      → refresh lib i t token ≡ (
          if ltb t c.expires_at
          then (if not (c.token_type == token_type_refresh)
              then err wrong_token_use
              else to_identity lib i c >>= issue lib i t)
          else err expired)
  unfolding refresh
  refresh-signed t token c signed =
      rw (parse-signed t token c signed)
        (elim (Bool-cases (ltb t c.expires_at)) [ inl e ↦ rw e refl | inr e ↦ rw e refl ])

  -- An access token of Issue validates to the very identity that it was issued for until its
  -- expiry date, and is expired from then on; as a refresh token it is never accepted.
  pub access_token_use :
      (now t : ℕ) (id : Identity) (pair : TokenPair)
      → issue lib i now id ≡ ok pair
      → let live = ltb t (lib.numeric_date (now + i.access_ttl)) in
        (pair.expires_at ≡ now + i.access_ttl)
        × (validate lib i t pair.access_token ≡ (if live then ok id else err expired))
        × (refresh lib i t pair.access_token ≡ (if live then err wrong_token_use else err expired))
  access_token_use now t id pair h =
      let d = issue-Issued now id pair h in
      (
        d.expiry,
        validate-signed t pair.access_token _ d.access
            ∙ rw (to_identity-claims_of id token_type_access now (now + i.access_ttl) d.role_valid)
                refl,
        refresh-signed t pair.access_token _ d.access,
      )

  -- A refresh token of Issue buys, until its own expiry date, what issuing for the same identity
  -- at that time gives, and is expired from then on; as an access token it is never accepted.
  pub refresh_token_use :
      (now t : ℕ) (id : Identity) (pair : TokenPair)
      → issue lib i now id ≡ ok pair
      → let live = ltb t (lib.numeric_date (now + i.refresh_ttl)) in
        (refresh lib i t pair.refresh_token ≡ (if live then issue lib i t id else err expired))
        × (validate lib i t pair.refresh_token
            ≡ (if live then err wrong_token_use else err expired))
  refresh_token_use now t id pair h =
      let d = issue-Issued now id pair h in
      (
        refresh-signed t pair.refresh_token _ d.refresher
            ∙ rw
                (to_identity-claims_of id token_type_refresh now (now + i.refresh_ttl) d.role_valid)
                refl,
        validate-signed t pair.refresh_token _ d.refresher,
      )

  parsed_ok :
      {A : Type 0} (p : Parsed) (f : Claims → Result A) {a : A}
      → (of_parsed lib i p >>= f) ≡ ok a
      → (c : Claims) × (p ≡ claims c) × (f c ≡ ok a)
  parsed_ok (claims c) f h = (c, refl, h)
  parsed_ok token_expired f h = cc
  parsed_ok rejected f h = cc

  key_func-eq-some :
      (m : Method) {k : String} → key_func lib i m ≡ some k → (m ≢ not_hmac) × (i.secret ≡ k)
  unfolding key_func
  key_func-eq-some hs256 h = (λ e. cc, cc)
  key_func-eq-some other_hmac h = (λ e. cc, cc)
  key_func-eq-some not_hmac h = (λ e. cc, cc)

  role_checked :
      (c : Claims) {id : Identity}
      → (if not (c.token_type == token_type_access)
          then err wrong_token_use
          else to_identity lib i c)
        ≡ ok id
      → valid id.role ≡ true
  unfolding to_identity
  role_checked c h = ground arith

  -- Whatever validates was signed: the signature verifies under the issuer's secret by the method
  -- of the header, that method is an HMAC one, and the role is one of the four.
  pub validate_sound :
      (t : ℕ) (token : String) (id : Identity)
      → validate lib i t token ≡ ok id
      → (lib.method_of token ≢ not_hmac)
        × (lib.verifies (lib.method_of token) i.secret token ≡ true)
        × (valid id.role ≡ true)
  unfolding validate
  validate_sound t token id h =
      let (c, parsed, checked) = parsed_ok (lib.parse_with_claims token (key_func lib i) t) _ h in
      let (k, given, verified) = laws.parse-verifies token (key_func lib i) t c parsed in
      let (hmac, same) = key_func-eq-some (lib.method_of token) given in
      (hmac, rw same verified, role_checked c checked)
