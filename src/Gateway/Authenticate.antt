-- ===== src/Gateway/Authenticate.antt =====
-- internal/gateway/middleware/auth.go: the trust boundary. The token validation and the key store
-- are arguments; a key store that is nil in the source is `none`.
pub mod Boundary
use chain_pulse.Prelude.{String, Option, none, some, [], ◌∷◌, ◌==◌, if◌then◌else◌}
use chain_pulse.Identity.{Identity}
use chain_pulse.Logger.{with_attributes}
use chain_pulse.Scope.{Scope, with_logger, logger_of, with_caller}
use chain_pulse.Http.{Context, Handler, Outcome, unauthorized}
use chain_pulse.Auth.Errors.{
  AuthError, Result, ok, err, expired, key_expired, key_not_found, no_credential,
}
use chain_pulse.Gateway.Header.{bearer_token}

-- APIKeyResolver.Resolve, on the state of the server
abbrev pub Resolver : Type 0 → Type 0
Resolver W = String → W → W × Result Identity

abbrev pub auth_message : AuthError → String
auth_message expired = "credential expired"
auth_message key_expired = "credential expired"
auth_message no_credential = "missing Authorization or X-API-Key"
auth_message _ = "invalid credential"

-- The caller's attributes on the logger of the request.
abbrev pub with_caller_logger : Identity → Scope → Scope
with_caller_logger id ctx =
    with_logger
      (with_attributes
        (("tenant_id", id.tenant_id) ∷ ("actor_id", id.user_id) ∷ ("role", id.role) ∷ [])
        (logger_of ctx))
      ctx

abbrev pub with_identity : Context → Identity → Context
with_identity c id = record c {
  identity = some id;
  scope = with_caller_logger id (with_caller id c.scope);
}

module _ {W : Type 0} where
  abbrev pub resolve_key : Option (Resolver W) → String → W → W × Result Identity
  resolve_key none presented w = (w, err key_not_found)
  resolve_key (some resolve) presented w = resolve presented w

  abbrev pub resolve_credential :
      (String → Result Identity)
      → Option (Resolver W)
      → Option String
      → String
      → W
      → W × Result Identity
  resolve_credential validate keys (some token) api_key w = (w, validate token)
  resolve_credential validate keys none api_key w =
      if api_key == "" then (w, err no_credential) else resolve_key keys api_key w

  unfoldable pub resolve_identity :
      (String → Result Identity) → Option (Resolver W) → Context → W → W × Result Identity
  resolve_identity validate keys c w =
      resolve_credential validate keys (bearer_token (c.header "Authorization"))
        (c.header "X-API-Key") w

  abbrev pub admit : Handler W → Context → W × Result Identity → Outcome W
  admit next c (w, ok id) = next (with_identity c id) w
  admit next c (w, err e) = unauthorized (auth_message e) c w

  -- Authenticate
  unfoldable pub authenticate :
      (String → Result Identity) → Option (Resolver W) → Handler W → Handler W
  unfolding resolve_identity
  authenticate validate keys next c w = admit next c (resolve_identity validate keys c w)
