-- ===== src/Tests/Tokens.antt =====
-- Tokens of one issuer over a library that signs two known claims.
use chain_pulse.Prelude.{
  ℕ, ◌+◌, ◌≤◌, ◌<◌, String, Bool, true, ◌&&◌, ◌==◌, eq_iff, eq_of_true, ◌≡◌, ◌≢◌, ◌⊎◌, refl, arith,
  Option, none, some, Bool-cases, inl, inr, ltb, nat_eq, if◌then◌else◌,
}
use chain_pulse.Identity.{Identity, role_admin, valid}
use chain_pulse.Auth.Errors.{ok, err, wrong_token_use}
use chain_pulse.Auth.Token.{
  Claims, TokenPair, hs256, not_hmac, Parsed, claims, token_expired, rejected, JwtLib, JwtLaws,
  Issuer, issue, validate, refresh, token_type_access, token_type_refresh, key_func, parse,
  to_identity, sign,
}
use chain_pulse.Auth.Token.RoundTrip.{access_token_use, refresh_token_use, validate_sound}

abbrev pub admin : Identity
admin = record {
  tenant_id = "acme";
  user_id = "u1";
  role = role_admin;
  region = "";
  supplier_id = "";
}

abbrev pub known : String → ℕ → Claims
known token_type exp = record {
  tenant_id = "acme";
  role = role_admin;
  region = "";
  supplier_id = "";
  token_type = token_type;
  subject = "u1";
  issuer = "chainpulse";
  issued_at = 0;
  expires_at = exp;
}

abbrev pub same : Claims → Claims → Bool
same c d =
    c.tenant_id == d.tenant_id
    && c.role == d.role
    && c.region == d.region
    && c.supplier_id == d.supplier_id
    && c.token_type == d.token_type
    && c.subject == d.subject
    && c.issuer == d.issuer
    && nat_eq c.issued_at d.issued_at
    && nat_eq c.expires_at d.expires_at

same_sound : (c d : Claims) → same c d ≡ true → c ≡ d
same_sound c d h = ground (
  arith,
  eq_iff c.tenant_id d.tenant_id,
  eq_iff c.role d.role,
  eq_iff c.region d.region,
  eq_iff c.supplier_id d.supplier_id,
  eq_iff c.token_type d.token_type,
  eq_iff c.subject d.subject,
  eq_iff c.issuer d.issuer,
)

abbrev pub access_claims : Claims
access_claims = known token_type_access 10

abbrev pub refresh_claims : Claims
refresh_claims = known token_type_refresh 20

abbrev pub read : Claims → Option String → ℕ → Parsed
read c none now = rejected
read c (some k) now =
    if k == "secret" then (if ltb now c.expires_at then claims c else token_expired) else rejected

abbrev pub lib : JwtLib
lib = record {
  numeric_date = λ t. t;
  signed_string = λ secret c.
      if secret == "secret" && same c access_claims
      then some "A"
      else if secret == "secret" && same c refresh_claims
      then some "R"
      else none;
  parse_with_claims = λ token key now.
      if token == "A"
      then read access_claims (key hs256) now
      else if token == "R"
      then read refresh_claims (key hs256) now
      else rejected;
  method_of = λ token. hs256;
  verifies = λ m k token. k == "secret";
}

read_in_time :
    (c : Claims) (o : Option String) (now : ℕ)
    → o ≡ some "secret"
    → now < c.expires_at
    → read c o now ≡ claims c
read_in_time c o now e lt = rw e (ground arith)

read_late :
    (c : Claims) (o : Option String) (now : ℕ)
    → o ≡ some "secret"
    → c.expires_at ≤ now
    → read c o now ≡ token_expired
read_late c o now e le = rw e (ground arith)

read_verifies :
    (c : Claims) (o : Option String) (now : ℕ) {c' : Claims}
    → read c o now ≡ claims c'
    → (k : String) × (o ≡ some k) × ((k == "secret") ≡ true)
read_verifies c none now h = cc
read_verifies c (some k) now h = (k, refl, ground arith)

-- The two tokens, and what they were signed from.
signed_cases :
    (secret token : String) (c : Claims)
    → lib.signed_string secret c ≡ some token
    → (secret ≡ "secret")
      × (((token ≡ "A") × (c ≡ access_claims)) ⊎ ((token ≡ "R") × (c ≡ refresh_claims)))
signed_cases secret token c h = elim (Bool-cases (secret == "secret")) [
  | inl s ↦ elim (Bool-cases (same c access_claims)) [
    | inl a ↦ (eq_of_true s, inl (ground arith, same_sound c access_claims a))
    | inr a ↦ elim (Bool-cases (same c refresh_claims)) [
      | inl b ↦ (eq_of_true s, inr (ground arith, same_sound c refresh_claims b))
      | inr b ↦ absurd (ground arith)
    ]
  ]
  | inr s ↦ absurd (ground arith)
]

pub lib-JwtLaws : JwtLaws lib
lib-JwtLaws = record {
  numeric_date-le = λ t. omega arith;
  parse-signed = λ secret token c key now h k lt.
      let (s, which) = signed_cases secret token c h in
      elim which [
        | inl (t, e) ↦ rw (t, e) (read_in_time access_claims _ now (rw s at k) (rw e at lt))
        | inr (t, e) ↦ rw (t, e) (read_in_time refresh_claims _ now (rw s at k) (rw e at lt))
      ];
  parse-signed_late = λ secret token c key now h k le.
      let (s, which) = signed_cases secret token c h in
      elim which [
        | inl (t, e) ↦ rw t (read_late access_claims _ now (rw s at k) (rw e at le))
        | inr (t, e) ↦ rw t (read_late refresh_claims _ now (rw s at k) (rw e at le))
      ];
  parse-verifies = λ token key now c h. elim (Bool-cases (token == "A")) [
    | inl a ↦ read_verifies access_claims _ now (rw a at h)
    | inr a ↦ elim (Bool-cases (token == "R")) [
      | inl b ↦ read_verifies refresh_claims _ now (rw (a, b) at h)
      | inr b ↦ absurd (ground arith)
    ]
  ];
}

abbrev pub issuer : Issuer
issuer = record { secret = "secret"; access_ttl = 10; refresh_ttl = 20 }

abbrev pair : TokenPair
pair = record { access_token = "A"; refresh_token = "R"; token_type = "Bearer"; expires_at = 10 }

issued : issue lib issuer 0 admin ≡ ok pair
unfolding issue valid sign
issued = refl

access_token_use_example :
    (10 ≡ 0 + 10)
    × (validate lib issuer 5 "A" ≡ ok admin)
    × (refresh lib issuer 5 "A" ≡ err wrong_token_use)
access_token_use_example = access_token_use lib lib-JwtLaws issuer 0 5 admin pair issued

refresh_token_use_example :
    (refresh lib issuer 15 "R" ≡ issue lib issuer 15 admin)
    × (validate lib issuer 15 "R" ≡ err wrong_token_use)
refresh_token_use_example = refresh_token_use lib lib-JwtLaws issuer 0 15 admin pair issued

accepted : validate lib issuer 5 "A" ≡ ok admin
unfolding validate parse to_identity key_func valid
accepted = refl

validate_sound_example :
    (lib.method_of "A" ≢ not_hmac)
    × (lib.verifies (lib.method_of "A") issuer.secret "A" ≡ true)
    × (valid admin.role ≡ true)
validate_sound_example = validate_sound lib lib-JwtLaws issuer 5 "A" admin accepted
