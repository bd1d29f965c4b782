-- ===== src/Gateway/Authenticate/Boundary.antt =====
-- What reaches a handler behind internal/gateway/middleware/auth.go.
use chain_pulse.Prelude.{
  String, ◌≡◌, refl, ◌==◌, Option, none, some, Option-cases, inl, inr, true, false, Bool-cases,
}
use chain_pulse.Identity.{Identity}
use chain_pulse.Http.{Context, Handler, Outcome, abort, unauthorized}
use chain_pulse.Auth.Errors.{AuthError, Result, ok, err, no_credential}
use chain_pulse.Gateway.Header.{bearer_token}
use chain_pulse.Gateway.Authenticate.{
  Resolver, resolve_key, resolve_identity, with_identity, admit, authenticate,
}

module _ {W : Type 0} (validate : String → Result Identity) (keys : Option (Resolver W)) where
  -- Which credential counts: a bearer token whenever the header holds one, else a key.
  pub data Presents (c : Context) (w : W) : W × Result Identity → Type 0 where
    bearer :
        (token : String)
        → bearer_token (c.header "Authorization") ≡ some token
        → Presents c w (w, validate token)
    partner_key :
        bearer_token (c.header "Authorization") ≡ none
        → (c.header "X-API-Key" == "") ≡ false
        → Presents c w (resolve_key keys (c.header "X-API-Key") w)
    nothing :
        bearer_token (c.header "Authorization") ≡ none
        → (c.header "X-API-Key" == "") ≡ true
        → Presents c w (w, err no_credential)

  -- What becomes of the request: the handler runs on the identity of an accepted credential, and
  -- with any other the answer is 401 and the handler is not asked.
  pub data Admits (next : Handler W) (c : Context) : W × Result Identity → Outcome W → Type 0 where
    accepted : (w : W) (id : Identity) → Admits next c (w, ok id) (next (with_identity c id) w)
    refused :
        (w : W) (e : AuthError) {o : Outcome W}
        → o.response.status ≡ 401
        → o.world ≡ w
        → Admits next c (w, err e) o

  pub resolve_identity-Presents :
      (c : Context) (w : W) → Presents c w (resolve_identity validate keys c w)
  unfolding resolve_identity
  resolve_identity-Presents c w = elim (Option-cases (bearer_token (c.header "Authorization"))) [
    | inl e ↦ elim (Bool-cases (c.header "X-API-Key" == "")) [
      | inl b ↦ rw (e, b) (nothing e b)
      | inr b ↦ rw (e, b) (partner_key e b)
    ]
    | inr (token, e) ↦ rw e (bearer token e)
  ]

  admit-Admits :
      (next : Handler W) (c : Context) (r : W × Result Identity) → Admits next c r (admit next c r)
  unfolding unauthorized abort
  admit-Admits next c (w, ok id) = accepted w id
  admit-Admits next c (w, err e) = refused w e refl refl

  -- Behind the trust boundary a handler runs only on an identity that the token validation or the
  -- key store gave for the credential of this very request, a bearer token taking precedence over
  -- a key; every other request is answered with 401, and only the key store can have changed the
  -- state.
  pub authenticate-Admits :
      (next : Handler W) (c : Context) (w : W)
      → (r : W × Result Identity) × Presents c w r
        × Admits next c r (authenticate validate keys next c w)
  unfolding authenticate
  authenticate-Admits next c w = (
    resolve_identity validate keys c w,
    resolve_identity-Presents c w,
    admit-Admits next c (resolve_identity validate keys c w),
  )
