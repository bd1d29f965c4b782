-- ===== src/Auth/Handlers/Keeping.antt =====
-- The endpoints of internal/auth/handler.go and apikey_handler.go leave the context as it was, and change the
-- state by calls of the key store only.
use chain_pulse.Prelude.{ℕ, String, not, ◌==◌, List, Option, none, some}
use chain_pulse.Identity.{Identity, valid}
use chain_pulse.Http.{Context, Part, abort, bad_request, unauthorized, internal}
use chain_pulse.Http.Keeping.{Holds, Keeps, require_actor-Keeps, choose_outcome}
use chain_pulse.Auth.Store.Changes.{Changes, creates, rotates, revokes, step, step-Changes}
use chain_pulse.Storage.{Fault}
use chain_pulse.Auth.Errors.{AuthError, Result, ok, err, key_not_found, key_revoked}
use chain_pulse.Auth.Token.{JwtLib, Issuer, TokenPair, issue, refresh}
use chain_pulse.Auth.ApiKey.{ApiKey}
use chain_pulse.Auth.Rows.{Table}
use chain_pulse.Auth.Store.{RotateEvents}
use chain_pulse.Auth.Handlers.{
  Codec, TokenRequest, RefreshRequest, CreateKeyRequest, requested_identity, answer_pair, issue_for,
  issue_token, answer_refresh, refresh_for, refresh_token, write_store_error, answer_created,
  spec_of, create_for, create_key, answer_list, list_keys, answer_rotated, rotate_key,
  answer_revoked, revoke_key,
}

module _ {W : Type 0} (Q : Context → W → Type 0) (codec : Codec) where
  module _ (lib : JwtLib) (i : Issuer) where
    answer_pair_lem :
        (c : Context) (w : W) (r : Result TokenPair)
        → Q c w
        → Holds Q (answer_pair codec lib i c w r)
    unfolding bad_request abort
    answer_pair_lem c w (ok pair) q = q
    answer_pair_lem c w (err e) q = q

    issue_for_lem :
        (uuid : String) (now : ℕ) (c : Context) (w : W) (req : Option TokenRequest)
        → Q c w
        → Holds Q (issue_for codec lib i uuid now c w req)
    unfolding bad_request abort
    issue_for_lem uuid now c w none q = q
    issue_for_lem uuid now c w (some req) q = choose_outcome Q (req.tenant_id == "") _ _ q (
        choose_outcome Q (not (valid req.role)) _ _ q
          (answer_pair_lem c w (issue lib i now (requested_identity req uuid)) q))

    pub issue_token-Keeps : (uuid : String) (now : ℕ) → Keeps Q (issue_token codec lib i uuid now)
    unfolding issue_token
    issue_token-Keeps uuid now c w q = issue_for_lem uuid now c w (codec.token_request c.payload) q

    answer_refresh_lem :
        (c : Context) (w : W) (r : Result TokenPair)
        → Q c w
        → Holds Q (answer_refresh codec lib i c w r)
    unfolding unauthorized abort
    answer_refresh_lem c w (ok pair) q = q
    answer_refresh_lem c w (err e) q = q

    refresh_for_lem :
        (now : ℕ) (c : Context) (w : W) (req : Option RefreshRequest)
        → Q c w
        → Holds Q (refresh_for codec lib i now c w req)
    unfolding bad_request abort
    refresh_for_lem now c w none q = q
    refresh_for_lem now c w (some req) q =
        choose_outcome Q (req.refresh_token == "") _ _ q
          (answer_refresh_lem c w (refresh lib i now req.refresh_token) q)

    pub refresh_token-Keeps : (now : ℕ) → Keeps Q (refresh_token codec lib i now)
    unfolding refresh_token
    refresh_token-Keeps now c w q = refresh_for_lem now c w (codec.refresh_request c.payload) q

  write_store_error-Keeps : (e : AuthError) → Keeps Q (write_store_error codec e)
  unfolding write_store_error abort internal
  write_store_error-Keeps key_not_found c w q = q
  write_store_error-Keeps key_revoked c w q = q
  write_store_error-Keeps _ c w q = q

  module _ (hash_api_key : String → String) (keys : Part W Table)
      (stores : (t : Table) (c : Context) (w : W)
        → Changes (keys.view w) t
        → Q c w
        → Q c (keys.put t w)) where
    answer_created_lem :
        (c : Context) (w : W) (r : Table × Result (ApiKey × String))
        → Q c (keys.put r.0 w)
        → Holds Q (answer_created codec hash_api_key keys c w r)
    unfolding bad_request abort
    answer_created_lem c w (t, ok (k, plaintext)) q = q
    answer_created_lem c w (t, err e) q = q

    create_for-Keeps :
        (fault : Option Fault) (now : ℕ) (entropy : Option (List ℕ)) (id : String)
        (req : Option CreateKeyRequest) (actor : Identity)
        → Keeps Q (create_for codec hash_api_key keys fault now entropy id req actor)
    unfolding bad_request abort step
    create_for-Keeps fault now entropy id none actor c w q = q
    create_for-Keeps fault now entropy id (some req) actor c w q =
        choose_outcome Q (not (valid req.role)) _ _ q (
          answer_created_lem c w _ (
            stores _ c w
              (step-Changes hash_api_key now (keys.view w)
                (creates fault entropy id (spec_of codec hash_api_key keys actor req)))
              q))

    pub create_key-Keeps :
        (fault : Option Fault) (now : ℕ) (entropy : Option (List ℕ)) (id : String)
        → Keeps Q (create_key codec hash_api_key keys fault now entropy id)
    unfolding create_key
    create_key-Keeps fault now entropy id = require_actor-Keeps Q _ (λ actor c.
        create_for-Keeps fault now entropy id (codec.create_key_request c.payload) actor c)

    answer_list_lem :
        (c : Context) (w : W) (r : Result (List ApiKey))
        → Q c w
        → Holds Q (answer_list codec hash_api_key keys c w r)
    unfolding internal abort
    answer_list_lem c w (ok ks) q = q
    answer_list_lem c w (err e) q = q

    pub list_keys-Keeps : (fault : Option Fault) → Keeps Q (list_keys codec hash_api_key keys fault)
    unfolding list_keys
    list_keys-Keeps fault = require_actor-Keeps Q _ (λ actor c w q. answer_list_lem c w _ q)

    answer_rotated_lem :
        (c : Context) (w : W) (r : Table × Result (ApiKey × String))
        → Q c (keys.put r.0 w)
        → Holds Q (answer_rotated codec hash_api_key keys c w r)
    answer_rotated_lem c w (t, ok (k, plaintext)) q = q
    answer_rotated_lem c w (t, err e) q = write_store_error-Keeps e c _ q

    pub rotate_key-Keeps :
        (ev : RotateEvents) (now : ℕ) → Keeps Q (rotate_key codec hash_api_key keys ev now)
    unfolding rotate_key step
    rotate_key-Keeps ev now = require_actor-Keeps Q _ (λ actor c w q. answer_rotated_lem c w _ (
        stores _ c w
          (step-Changes hash_api_key now (keys.view w) (rotates ev actor.tenant_id c.param_id)) q))

    answer_revoked_lem :
        (c : Context) (w : W) (r : Table × Result (Unit {0}))
        → Q c (keys.put r.0 w)
        → Holds Q (answer_revoked codec hash_api_key keys c w r)
    answer_revoked_lem c w (t, ok done) q = q
    answer_revoked_lem c w (t, err e) q = write_store_error-Keeps e c _ q

    pub revoke_key-Keeps :
        (fault : Option Fault) (now : ℕ) → Keeps Q (revoke_key codec hash_api_key keys fault now)
    unfolding revoke_key step
    revoke_key-Keeps fault now = require_actor-Keeps Q _ (λ actor c w q. answer_revoked_lem c w _ (
        stores _ c w
          (step-Changes hash_api_key now (keys.view w) (revokes fault actor.tenant_id c.param_id))
          q))
