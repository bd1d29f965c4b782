-- ===== src/Auth/Handlers.antt =====
-- internal/auth/handler.go and apikey_handler.go: the HTTP endpoints for tokens and for API keys. The
-- decoding of a request's body and the JSON form of a time are encoding/json's, the text of an error
-- is the error's: parameters. The key store is over a part of the server's state.
pub mod Tokens
pub mod Keys
pub mod Answers
pub mod Keeping
use chain_pulse.Prelude.{
  ℕ, String, Bool, not, ◌==◌, List, [], ◌∷◌, map, Option, none, some, if◌then◌else◌,
}
use chain_pulse.Identity.{Identity, valid}
use chain_pulse.Http.{
  Json, Fields, Items, text, object, array, field, end, nil, cons, omit_empty, json, no_body,
  Context, Handler, Outcome, Part, reply, abort, bad_request, unauthorized, internal, require_actor,
  code_conflict,
}
use chain_pulse.Storage.{Fault}
use chain_pulse.Auth.Errors.{
  AuthError, Result, ok, err, expired, wrong_token_use, key_not_found, key_revoked,
}
use chain_pulse.Auth.Token.{JwtLib, Issuer, TokenPair, issue, refresh}
use chain_pulse.Auth.ApiKey.{ApiKey, CreateApiKeySpec}
use chain_pulse.Auth.Rows.{Table}
use chain_pulse.Auth.Store.{RotateEvents, create, rotate, revoke, list}

pub record TokenRequest : Type 0 where
  pub tenant_id : String
  pub user_id : String
  pub role : String
  pub region : String
  pub supplier_id : String

pub record RefreshRequest : Type 0 where
  pub refresh_token : String

pub record CreateKeyRequest : Type 0 where
  pub name : String
  pub role : String
  pub region : String
  pub supplier_id : String
  pub expires_at : Option ℕ

-- ShouldBindJSON for the three requests, the JSON of a time, and err.Error().
pub record Codec : Type 0 where
  pub token_request : String → Option TokenRequest
  pub refresh_request : String → Option RefreshRequest
  pub create_key_request : String → Option CreateKeyRequest
  pub time_json : ℕ → Json
  pub error_text : AuthError → String

abbrev pub role_message : String
role_message = "role must be one of: admin, supplier, warehouse_manager, analyst"

abbrev pub or_uuid : String → String → String
or_uuid user_id uuid = if user_id == "" then uuid else user_id

abbrev pub requested_identity : TokenRequest → String → Identity
requested_identity req uuid = record {
  tenant_id = req.tenant_id;
  user_id = or_uuid req.user_id uuid;
  role = req.role;
  region = req.region;
  supplier_id = req.supplier_id;
}

abbrev pub refresh_message : AuthError → String
refresh_message expired = "refresh token expired"
refresh_message wrong_token_use = "not a refresh token"
refresh_message _ = "invalid refresh token"

module _ (codec : Codec) where
  abbrev pub pair_json : TokenPair → Json
  pair_json p = object (
      field "access_token" (text p.access_token) (
        field "refresh_token" (text p.refresh_token) (
          field "token_type" (text p.token_type)
            (field "expires_at" (codec.time_json p.expires_at) end))))

  -- The tag `omitempty` on a pointer to a time.
  abbrev pub omit_none : String → Option ℕ → Fields → Fields
  omit_none name none rest = rest
  omit_none name (some t) rest = field name (codec.time_json t) rest

  -- toKeyResponse, as JSON
  unfoldable pub to_key_response : ApiKey → String → Json
  to_key_response k plaintext = object (
      field "id" (text k.id) (
        field "name" (text k.name) (
          field "key_prefix" (text k.key_prefix) (
            field "role" (text k.role) (
              omit_empty "region" k.region (
                omit_empty "supplier_id" k.supplier_id (
                  field "created_at" (codec.time_json k.created_at) (
                    omit_none "last_used_at" k.last_used_at (
                      omit_none "expires_at" k.expires_at (
                        omit_none "revoked_at" k.revoked_at
                          (omit_empty "api_key" plaintext end)))))))))))

  abbrev pub items_of : List ApiKey → Items
  items_of [] = nil
  items_of (k ∷ ks) = cons (to_key_response k "") (items_of ks)

module _ {W : Type 0} (codec : Codec) where
  module _ (lib : JwtLib) (i : Issuer) where
    abbrev pub answer_pair : Context → W → Result TokenPair → Outcome W
    answer_pair c w (ok pair) = reply w c 200 (json (pair_json codec pair))
    answer_pair c w (err e) = bad_request (codec.error_text e) c w

    abbrev pub issue_for : String → ℕ → Context → W → Option TokenRequest → Outcome W
    issue_for uuid now c w none = bad_request "invalid JSON body" c w
    issue_for uuid now c w (some req) =
        if req.tenant_id == ""
        then bad_request "tenant_id is required" c w
        else if not (valid req.role)
        then bad_request role_message c w
        else answer_pair c w (issue lib i now (requested_identity req uuid))

    -- Handler.issueToken; `uuid` is the user id that it mints.
    unfoldable pub issue_token : String → ℕ → Handler W
    issue_token uuid now c w = issue_for uuid now c w (codec.token_request c.payload)

    abbrev pub answer_refresh : Context → W → Result TokenPair → Outcome W
    answer_refresh c w (ok pair) = reply w c 200 (json (pair_json codec pair))
    answer_refresh c w (err e) = unauthorized (refresh_message e) c w

    abbrev pub refresh_for : ℕ → Context → W → Option RefreshRequest → Outcome W
    refresh_for now c w none = bad_request "refresh_token is required" c w
    refresh_for now c w (some req) =
        if req.refresh_token == ""
        then bad_request "refresh_token is required" c w
        else answer_refresh c w (refresh lib i now req.refresh_token)

    -- Handler.refresh
    unfoldable pub refresh_token : ℕ → Handler W
    refresh_token now c w = refresh_for now c w (codec.refresh_request c.payload)

  -- writeStoreError
  unfoldable pub write_store_error : AuthError → Handler W
  write_store_error key_not_found = abort 404 "not_found" "api key not found"
  write_store_error key_revoked = abort 409 code_conflict "api key already revoked"
  write_store_error _ = internal "api key operation failed"

  module _ (hash_api_key : String → String) (keys : Part W Table) where
    abbrev pub answer_created : Context → W → Table × Result (ApiKey × String) → Outcome W
    answer_created c w (t, ok (k, plaintext)) =
        reply (keys.put t w) c 201 (json (to_key_response codec k plaintext))
    answer_created c w (t, err e) = bad_request (codec.error_text e) c (keys.put t w)

    abbrev pub spec_of : Identity → CreateKeyRequest → CreateApiKeySpec
    spec_of actor req = record {
      tenant_id = actor.tenant_id;
      name = req.name;
      role = req.role;
      region = req.region;
      supplier_id = req.supplier_id;
      expires_at = req.expires_at;
    }

    abbrev pub create_for :
        Option Fault → ℕ → Option (List ℕ) → String → Option CreateKeyRequest → Identity → Handler W
    create_for fault now entropy id none actor c w = bad_request "invalid JSON body" c w
    create_for fault now entropy id (some req) actor c w =
        if not (valid req.role)
        then bad_request role_message c w
        else answer_created c w
            (create hash_api_key fault now entropy id (spec_of actor req) (keys.view w))

    -- APIKeyHandler.Create
    unfoldable pub create_key : Option Fault → ℕ → Option (List ℕ) → String → Handler W
    create_key fault now entropy id =
        require_actor
          λ actor c. create_for fault now entropy id (codec.create_key_request c.payload) actor c

    abbrev pub answer_list : Context → W → Result (List ApiKey) → Outcome W
    answer_list c w (ok ks) =
        reply w c 200 (json (object (field "keys" (array (items_of codec ks)) end)))
    answer_list c w (err e) = internal "failed to list api keys" c w

    -- APIKeyHandler.List
    unfoldable pub list_keys : Option Fault → Handler W
    list_keys fault =
        require_actor λ actor c w. answer_list c w (list fault actor.tenant_id (keys.view w))

    abbrev pub answer_rotated : Context → W → Table × Result (ApiKey × String) → Outcome W
    answer_rotated c w (t, ok (k, plaintext)) =
        reply (keys.put t w) c 201 (json (to_key_response codec k plaintext))
    answer_rotated c w (t, err e) = write_store_error e c (keys.put t w)

    -- APIKeyHandler.Rotate
    unfoldable pub rotate_key : RotateEvents → ℕ → Handler W
    rotate_key ev now = require_actor λ actor c w.
        answer_rotated c w (rotate hash_api_key ev now actor.tenant_id c.param_id (keys.view w))

    abbrev pub answer_revoked : Context → W → Table × Result (Unit {0}) → Outcome W
    answer_revoked c w (t, ok done) = reply (keys.put t w) c 204 no_body
    answer_revoked c w (t, err e) = write_store_error e c (keys.put t w)

    -- APIKeyHandler.Revoke
    unfoldable pub revoke_key : Option Fault → ℕ → Handler W
    revoke_key fault now =
        require_actor λ actor c w.
          answer_revoked c w (revoke fault now actor.tenant_id c.param_id (keys.view w))
