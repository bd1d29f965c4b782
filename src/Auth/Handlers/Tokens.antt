-- ===== src/Auth/Handlers/Tokens.antt =====
-- What the token endpoint of internal/auth/handler.go hands out.
use chain_pulse.Prelude.{
  ℕ, ◌+◌, String, ◌==◌, ◌≡◌, refl, arith, Option, none, some, Bool-cases, inl, inr, ltb,
  if◌then◌else◌,
}
use chain_pulse.Identity.{valid}
use chain_pulse.Http.{json, Context, Outcome, abort, bad_request}
use chain_pulse.Auth.Errors.{Result, ok, err, expired}
use chain_pulse.Auth.Token.{JwtLib, JwtLaws, Issuer, TokenPair, issue, validate}
use chain_pulse.Auth.Token.RoundTrip.{access_token_use}
use chain_pulse.Auth.Handlers.{
  Codec, TokenRequest, requested_identity, pair_json, answer_pair, issue_for, issue_token,
}

module _ {W : Type 0} (codec : Codec) (lib : JwtLib) (i : Issuer) (uuid : String) (now : ℕ)
    (c : Context) (w : W) where
  -- What a 200 of the endpoint rests on.
  record Granted (asked : Option TokenRequest) (o : Outcome W) : Type 0 where
    req : TokenRequest
    pair : TokenPair
    bound : asked ≡ some req
    issued : issue lib i now (requested_identity req uuid) ≡ ok pair
    answered : o.response.body ≡ json (pair_json codec pair)

  answer-Granted :
      (req : TokenRequest) (made : Result TokenPair)
      → issue lib i now (requested_identity req uuid) ≡ made
      → (answer_pair codec lib i c w made).response.status ≡ 200
      → Granted (some req) (answer_pair codec lib i c w made)
  unfolding bad_request abort
  answer-Granted req (ok pair) e s = record {
    req = req;
    pair = pair;
    bound = refl;
    issued = e;
    answered = refl;
  }
  answer-Granted req (err x) e s = absurd (omega arith)

  issue_for-Granted :
      (asked : Option TokenRequest)
      → (issue_for codec lib i uuid now c w asked).response.status ≡ 200
      → Granted asked (issue_for codec lib i uuid now c w asked)
  unfolding bad_request abort
  issue_for-Granted none s = absurd (omega arith)
  issue_for-Granted (some req) s = elim (Bool-cases (req.tenant_id == "")) [
    | inl e ↦ absurd (omega (arith, rw e at s))
    | inr e ↦ elim (Bool-cases (valid req.role)) [
      | inl v ↦ rw (e, v) (answer-Granted req _ refl (rw (e, v) at s))
      | inr v ↦ absurd (omega (arith, rw (e, v) at s))
    ]
  ]

  -- Whenever the token endpoint answers with 200, the request's body decoded and the answer is a pair
  -- whose access token validates to the identity that the body names (with a minted user id where it
  -- names none) until its expiry date, and is expired from then on.
  pub issue_token-validate :
      JwtLaws lib
      → (issue_token codec lib i uuid now c w).response.status ≡ 200
      → (req : TokenRequest) × (pair : TokenPair) × (codec.token_request c.payload ≡ some req)
        × ((issue_token codec lib i uuid now c w).response.body ≡ json (pair_json codec pair))
        × ((t : ℕ)
            → validate lib i t pair.access_token ≡ (
                if ltb t (lib.numeric_date (now + i.access_ttl))
                then ok (requested_identity req uuid)
                else err expired))
  unfolding issue_token
  issue_token-validate laws s =
      let g = issue_for-Granted (codec.token_request c.payload) s in
      (
        g.req,
        g.pair,
        g.bound,
        g.answered,
        λ t. (access_token_use lib laws i now t (requested_identity g.req uuid) g.pair g.issued).1,
      )
