-- ===== src/Auth/Store/Spelled/Refines.antt =====
-- The store of internal/auth/apikey_postgres.go, for UUIDs in whatever spelling, against the registry
-- that it implements.
use mathlib.Core.Path.{ap₂}
use chain_pulse.Prelude.{
  ℕ, String, true, ◌≡◌, refl, ap, ◌∙◌, List, [], ◌∷◌, map, Option, none, some,
}
use chain_pulse.Storage.{Fault, not_executed}
use chain_pulse.Auth.Errors.{Result, ok, err}
use chain_pulse.Auth.ApiKey.{ApiKey, CreateApiKeySpec}
use chain_pulse.Auth.Rows.{Table}
use chain_pulse.Auth.Store.{RotateEvents, resolve}
use chain_pulse.Auth.Store.Changes.{Call, resolves, creates, rotates, revokes, step}
use chain_pulse.Auth.Store.Tenants.{HasUniqueIds}
use chain_pulse.Auth.Store.Registry.{Seen, identified, issued, revoked, registry_run}
use chain_pulse.Auth.Store.View.{view}
use chain_pulse.Auth.Store.Refinement.{observe, store_run, store_run-registry_run}
use chain_pulse.Auth.Store.Refinement.Issue.{shown, map_ok}
use chain_pulse.Auth.Store.Spelled.{
  Uuid, named, both, create_in, create_spelled, rotate_in, rotate_spelled, revoke_in,
  revoke_spelled,
}

-- What a call means for the registry: with the UUIDs as the database prints them, or, if a text is
-- none, a statement that fails.
abbrev creates_in :
    Option Fault → Option (List ℕ) → String → CreateApiKeySpec → Option String → Call
creates_in fault entropy id spec none = creates (some not_executed) entropy id spec
creates_in fault entropy id spec (some tenant_id) =
    creates fault entropy id (record spec { tenant_id = tenant_id })

abbrev rotates_in : RotateEvents → String → String → Option (String × String) → Call
rotates_in ev tenant_id id none = rotates (record ev { select_fails = true }) tenant_id id
rotates_in ev tenant_id id (some (a, b)) = rotates ev a b

abbrev revokes_in : Option Fault → String → String → Option (String × String) → Call
revokes_in fault tenant_id id none = revokes (some not_executed) tenant_id id
revokes_in fault tenant_id id (some (a, b)) = revokes fault a b

module _ (uuid : Uuid) where
  abbrev pub meant : Call → Call
  meant (resolves fault stamp_fault presented) = resolves fault stamp_fault presented
  meant (creates fault entropy id spec) = creates_in fault entropy id spec (uuid spec.tenant_id)
  meant (rotates ev tenant_id id) = rotates_in ev tenant_id id (both (uuid tenant_id) (uuid id))
  meant (revokes fault tenant_id id) =
      revokes_in fault tenant_id id (both (uuid tenant_id) (uuid id))

  abbrev pub all_meant : List (ℕ × Call) → List (ℕ × Call)
  all_meant = map (λ (now, c). (now, meant c))

  module _ (hash_api_key : String → String) where
    abbrev issuing : Table × Result (ApiKey × String) → Table × Seen
    issuing (t, answer) = (t, issued (map_ok shown answer))

    abbrev revoking : Table × Result (Unit {0}) → Table × Seen
    revoking (t, answer) = (t, revoked answer)

    abbrev done : ℕ → Call → Table → Table × Seen
    done now c t = (step hash_api_key now c t, observe hash_api_key now c t)

    -- A call of the store: the table after it, and what its caller sees.
    abbrev pub call : ℕ → Call → Table → Table × Seen
    call now (resolves fault stamp_fault presented) t =
        let (t', answer) = resolve hash_api_key fault stamp_fault now presented t in
        (t', identified answer)
    call now (creates fault entropy id spec) t =
        issuing (create_spelled hash_api_key uuid fault now entropy id spec t)
    call now (rotates ev tenant_id id) t =
        issuing (rotate_spelled hash_api_key uuid ev now tenant_id id t)
    call now (revokes fault tenant_id id) t =
        revoking (revoke_spelled uuid fault now tenant_id id t)

    -- What the callers see over a history of timed calls.
    unfoldable pub spelled_run : List (ℕ × Call) → Table → List Seen
    spelled_run [] t = []
    spelled_run ((now, c) ∷ cs) t = let (t', seen) = call now c t in seen ∷ spelled_run cs t'

    named_table :
        (tenant_id : String) (o : Table × Result (ApiKey × String)) → (named tenant_id o).0 ≡ o.0
    named_table tenant_id (t, err e) = refl
    named_table tenant_id (t, ok (k, plaintext)) = refl

    named_shown :
        (tenant_id : String) (o : Table × Result (ApiKey × String))
        → map_ok shown (named tenant_id o).1 ≡ map_ok shown o.1
    named_shown tenant_id (t, err e) = refl
    named_shown tenant_id (t, ok (k, plaintext)) = refl

    create_in_lem :
        (now : ℕ) (fault : Option Fault) (entropy : Option (List ℕ)) (id : String)
        (spec : CreateApiKeySpec) (t : Table) (tenant : Option String)
        → issuing (create_in hash_api_key fault now entropy id spec t tenant)
          ≡ done now (creates_in fault entropy id spec tenant) t
    unfolding step
    create_in_lem now fault entropy id spec t none = refl
    create_in_lem now fault entropy id spec t (some tenant_id) =
        ap₂ (λ x y. (x, issued y)) (named_table spec.tenant_id _) (named_shown spec.tenant_id _)

    rotate_in_lem :
        (now : ℕ) (ev : RotateEvents) (tenant_id id : String) (t : Table)
        (found : Option (String × String))
        → issuing (rotate_in hash_api_key ev now tenant_id id t found)
          ≡ done now (rotates_in ev tenant_id id found) t
    unfolding step
    rotate_in_lem now ev tenant_id id t none = refl
    rotate_in_lem now ev tenant_id id t (some (a, b)) =
        ap₂ (λ x y. (x, issued y)) (named_table tenant_id _) (named_shown tenant_id _)

    revoke_in_lem :
        (now : ℕ) (fault : Option Fault) (tenant_id id : String) (t : Table)
        (found : Option (String × String))
        → revoking (revoke_in fault now tenant_id id t found)
          ≡ done now (revokes_in fault tenant_id id found) t
    unfolding step
    revoke_in_lem now fault tenant_id id t none = refl
    revoke_in_lem now fault tenant_id id t (some (a, b)) = refl

    call_lem : (now : ℕ) (c : Call) (t : Table) → call now c t ≡ done now (meant c) t
    unfolding step create_spelled rotate_spelled revoke_spelled
    call_lem now (resolves fault stamp_fault presented) t = refl
    call_lem now (creates fault entropy id spec) t =
        create_in_lem now fault entropy id spec t (uuid spec.tenant_id)
    call_lem now (rotates ev tenant_id id) t =
        rotate_in_lem now ev tenant_id id t (both (uuid tenant_id) (uuid id))
    call_lem now (revokes fault tenant_id id) t =
        revoke_in_lem now fault tenant_id id t (both (uuid tenant_id) (uuid id))

    spelled_run-store_run :
        (calls : List (ℕ × Call)) (t : Table)
        → spelled_run calls t ≡ store_run hash_api_key (all_meant calls) t
    unfolding spelled_run store_run
    spelled_run-store_run [] t = refl
    spelled_run-store_run ((now, c) ∷ cs) t = rw (call_lem now c t) (
        ap (◌∷◌ (observe hash_api_key now (meant c) t))
          (spelled_run-store_run cs (step hash_api_key now (meant c) t)))

    -- From a table of unique ids, and over any history of Create, Rotate, Revoke and Resolve with
    -- any failures of the statements in it and with UUIDs in any spelling that the database reads,
    -- every answer of the store (the identity, the id and the plaintext of a new key, or the
    -- error) is that of the registry that the table stands for, to which each UUID is given as the
    -- database prints it, and a text that is no UUID as a failure: the order of the rows, the names,
    -- the prefixes and the stamps change no answer.
    pub spelled_run-registry_run :
        (calls : List (ℕ × Call)) (t : Table)
        → HasUniqueIds t
        → spelled_run calls t ≡ registry_run hash_api_key (all_meant calls) (view t)
    spelled_run-registry_run calls t u =
        spelled_run-store_run calls t ∙ store_run-registry_run hash_api_key (all_meant calls) t u
