-- ===== src/Tests/Endpoints.antt =====
-- The endpoints of the auth package on concrete requests. The state is the table of keys.
use chain_pulse.Prelude.{
  ℕ, String, false, ◌≡◌, refl, map, none, some, ltb, if◌then◌else◌, ne_of_false,
}
use chain_pulse.Scope.{empty_scope}
use chain_pulse.Identity.{Identity, role_admin, valid}
use chain_pulse.Http.{number, json, Context, Part}
use chain_pulse.Auth.Errors.{ok, err, expired}
use chain_pulse.Auth.Token.{TokenPair, validate, issue, sign}
use chain_pulse.Auth.Rows.{Table}
use chain_pulse.Auth.Store.Tenants.{rows_of}
use chain_pulse.Auth.Handlers.{
  Codec, TokenRequest, requested_identity, pair_json, issue_token, list_keys,
}
use chain_pulse.Auth.Handlers.Tokens.{issue_token-validate}
use chain_pulse.Auth.Handlers.Keys.{revoking, endpoint, endpoint-rows_of}
use chain_pulse.Auth.Handlers.Answers.{rehash, list_keys-rehash}
use chain_pulse.Tests.Tokens.{lib, lib-JwtLaws, issuer}
use chain_pulse.Tests.ApiKeys.{digest, table}

abbrev body : TokenRequest
body = record {
  tenant_id = "acme";
  user_id = "u1";
  role = role_admin;
  region = "";
  supplier_id = "";
}

abbrev pub codec : Codec
codec = record {
  token_request = λ s. some body;
  refresh_request = λ s. none;
  create_key_request = λ s. none;
  time_json = number;
  error_text = λ e. "error";
}

abbrev whole : Part Table Table
whole = record { view = λ t. t; put = λ t w. t; view-put = λ t w. refl }

abbrev caller : Identity
caller = record {
  tenant_id = "acme";
  user_id = "u1";
  role = role_admin;
  region = "";
  supplier_id = "";
}

abbrev request : String → Context
request id = record {
  method = "DELETE";
  full_path = "/v1/api-keys/:id";
  path = "/v1/api-keys/:id";
  header = λ name. "";
  query = λ name. "";
  param_id = id;
  payload = "{}";
  identity = some caller;
  request_id = none;
  policy_decision = none;
  policy_rule = none;
  ratelimit_fallback = false;
  scope = empty_scope;
}

granted : (issue_token codec lib issuer "fresh" 0 (request "") table).response.status ≡ 200
unfolding issue_token issue valid sign
granted = refl

issue_token-validate_example :
    (req : TokenRequest) × (pair : TokenPair) × (codec.token_request "{}" ≡ some req)
    × ((issue_token codec lib issuer "fresh" 0 (request "") table).response.body
        ≡ json (pair_json codec pair))
    × ((t : ℕ)
        → validate lib issuer t pair.access_token
          ≡ (if ltb t 10 then ok (requested_identity req "fresh") else err expired))
issue_token-validate_example =
    issue_token-validate codec lib issuer "fresh" 0 (request "") table lib-JwtLaws granted

endpoint-rows_of_example :
    rows_of "other" (endpoint codec digest whole 9 (revoking none) (request "k2") table).world
    ≡ rows_of "other" table
endpoint-rows_of_example =
    endpoint-rows_of codec digest whole (request "k2") table 9 caller "other" (ne_of_false refl)
      ((ne_of_false refl, tt), (tt, tt)) (revoking none) refl

list_keys-rehash_example :
    (list_keys codec digest whole none (request "") (map (rehash (λ r. "x")) table)).response
    ≡ (list_keys codec digest whole none (request "") table).response
list_keys-rehash_example =
    list_keys-rehash codec digest whole (λ r. "x") none (request "") table caller refl
