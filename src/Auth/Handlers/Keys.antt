-- ===== src/Auth/Handlers/Keys.antt =====
-- The API key endpoints of internal/auth/apikey_handler.go: what they change and what they tell.
use chain_pulse.Prelude.{
  ℕ, String, ◌≡◌, ◌≢◌, refl, ap, ◌∙◌, List, Option, none, some, Bool-cases, inl, inr,
}
use chain_pulse.Identity.{Identity, valid}
use chain_pulse.Http.{Context, Handler, Part, abort, bad_request, internal, require_actor_lem}
use chain_pulse.Storage.{Fault}
use chain_pulse.Auth.Errors.{AuthError, Result, ok, err}
use chain_pulse.Auth.ApiKey.{ApiKey}
use chain_pulse.Auth.Rows.{Table}
use chain_pulse.Auth.Store.{RotateEvents, create, rotate, revoke, list}
use chain_pulse.Auth.Store.Changes.{creates, rotates, revokes, step}
use chain_pulse.Auth.Store.Tenants.{HasUniqueIds, rows_of, calls_of_other_tenant}
use chain_pulse.Auth.Handlers.{
  Codec, CreateKeyRequest, spec_of, create_for, create_key, list_keys, rotate_key, revoke_key,
  answer_created, answer_list, answer_rotated, answer_revoked, write_store_error,
}

-- A request to one of the endpoints, with what the outside does in it.
pub data KeyCall : Type 0 where
  creating : Option Fault → Option (List ℕ) → String → KeyCall
  listing : Option Fault → KeyCall
  rotating : RotateEvents → KeyCall
  revoking : Option Fault → KeyCall

module _ {W : Type 0} (codec : Codec) (hash_api_key : String → String) (keys : Part W Table) where
  abbrev pub endpoint : ℕ → KeyCall → Handler W
  endpoint now (creating fault entropy id) = create_key codec hash_api_key keys fault now entropy id
  endpoint now (listing fault) = list_keys codec hash_api_key keys fault
  endpoint now (rotating ev) = rotate_key codec hash_api_key keys ev now
  endpoint now (revoking fault) = revoke_key codec hash_api_key keys fault now

  module _ (c : Context) (w : W) where
    store_error-world : (e : AuthError) (v : W) → (write_store_error codec e c v).world ≡ v
    unfolding write_store_error internal abort
    store_error-world AuthError.key_not_found v = refl
    store_error-world AuthError.key_revoked v = refl
    store_error-world AuthError.expired v = refl
    store_error-world AuthError.invalid_token v = refl
    store_error-world AuthError.wrong_token_use v = refl
    store_error-world AuthError.key_expired v = refl
    store_error-world AuthError.no_credential v = refl
    store_error-world AuthError.internal_error v = refl

    view-created :
        (p : Table × Result (ApiKey × String))
        → keys.view (answer_created codec hash_api_key keys c w p).world ≡ p.0
    unfolding bad_request abort
    view-created (t, ok (k, plaintext)) = keys.view-put t w
    view-created (t, err e) = keys.view-put t w

    view-rotated :
        (p : Table × Result (ApiKey × String))
        → keys.view (answer_rotated codec hash_api_key keys c w p).world ≡ p.0
    view-rotated (t, ok (k, plaintext)) = keys.view-put t w
    view-rotated (t, err e) = ap keys.view (store_error-world e (keys.put t w)) ∙ keys.view-put t w

    view-revoked :
        (p : Table × Result (Unit {0}))
        → keys.view (answer_revoked codec hash_api_key keys c w p).world ≡ p.0
    view-revoked (t, ok done) = keys.view-put t w
    view-revoked (t, err e) = ap keys.view (store_error-world e (keys.put t w)) ∙ keys.view-put t w

    answer_list-world :
        (r : Result (List ApiKey)) → (answer_list codec hash_api_key keys c w r).world ≡ w
    unfolding internal abort
    answer_list-world (ok ks) = refl
    answer_list-world (err e) = refl

    module _ (now : ℕ) (actor : Identity) (other : String) (n : actor.tenant_id ≢ other)
        (u : HasUniqueIds (keys.view w)) where
      creating_lem :
          (fault : Option Fault) (entropy : Option (List ℕ)) (id : String)
          (req : Option CreateKeyRequest)
          → rows_of other (
              keys.view
                (create_for codec hash_api_key keys fault now entropy id req actor c w).world)
            ≡ rows_of other (keys.view w)
      unfolding bad_request abort step
      creating_lem fault entropy id none = refl
      creating_lem fault entropy id (some req) = elim (Bool-cases (valid req.role)) [
        | inl v ↦ rw v (
            ap (rows_of other) (
              view-created (
                create hash_api_key fault now entropy id (spec_of codec hash_api_key keys actor req)
                  (keys.view w)))
            ∙ calls_of_other_tenant hash_api_key now (keys.view w) other actor.tenant_id
                (creates fault entropy id (spec_of codec hash_api_key keys actor req)) u refl n)
        | inr v ↦ rw v refl
      ]

      -- No request to the API key endpoints, whatever its body or path says and whatever fails,
      -- changes a row of a tenant other than the authenticated actor's, as long as ids are unique.
      pub endpoint-rows_of :
          (call : KeyCall)
          → c.identity ≡ some actor
          → rows_of other (keys.view (endpoint now call c w).world) ≡ rows_of other (keys.view w)
      unfolding create_key list_keys rotate_key revoke_key step
      endpoint-rows_of (creating fault entropy id) i =
          rw (require_actor_lem _ c w actor i)
            (creating_lem fault entropy id (codec.create_key_request c.payload))
      endpoint-rows_of (listing fault) i = rw (require_actor_lem _ c w actor i) (
          ap (λ v. rows_of other (keys.view v))
            (answer_list-world (list fault actor.tenant_id (keys.view w))))
      endpoint-rows_of (rotating ev) i = rw (require_actor_lem _ c w actor i) (
          ap (rows_of other)
            (view-rotated (rotate hash_api_key ev now actor.tenant_id c.param_id (keys.view w)))
          ∙ calls_of_other_tenant hash_api_key now (keys.view w) other actor.tenant_id
              (rotates ev actor.tenant_id c.param_id) u refl n)
      endpoint-rows_of (revoking fault) i = rw (require_actor_lem _ c w actor i) (
          ap (rows_of other)
            (view-revoked (revoke fault now actor.tenant_id c.param_id (keys.view w)))
          ∙ calls_of_other_tenant hash_api_key now (keys.view w) other actor.tenant_id
              (revokes fault actor.tenant_id c.param_id) u refl n)
