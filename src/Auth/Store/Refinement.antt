-- ===== src/Auth/Store/Refinement.antt =====
-- The store of internal/auth/apikey_postgres.go against the registry that it implements.
mod Found
pub mod Issue
mod Replace
use chain_pulse.Prelude.{ℕ, String, ◌≡◌, refl, ap, ◌∙◌, List, [], ◌∷◌, Option, none, some}
use mathlib.Core.Path.{ap₂}
use chain_pulse.Storage.{Fault, not_executed, reply_lost}
use chain_pulse.Auth.Rows.{Table}
use chain_pulse.Auth.Store.{resolve, create, rotate, revoke}
use chain_pulse.Auth.Store.Changes.{Call, resolves, creates, rotates, revokes, step, step-Changes}
use chain_pulse.Auth.Store.Tenants.{HasUniqueIds, Changes-HasUniqueIds}
use chain_pulse.Auth.Store.Registry.{
  Registry, Seen, identified, issued, revoked, registry_step, registry_run,
}
use chain_pulse.Auth.Store.View.{view}
use chain_pulse.Auth.Store.Refinement.Issue.{Matches, shown, map_ok, create-Matches}
use chain_pulse.Auth.Store.Refinement.Replace.{rotate-Matches}
use chain_pulse.Auth.Store.Refinement.Found.{resolve_lem, revoke_lem}

module _ (hash_api_key : String → String) where
  -- What the caller of the store sees: of the metadata of a key, the id.
  abbrev pub observe : ℕ → Call → Table → Seen
  observe now (resolves fault stamp_fault presented) t =
      identified (resolve hash_api_key fault stamp_fault now presented t).1
  observe now (creates fault entropy id spec) t =
      issued (map_ok shown (create hash_api_key fault now entropy id spec t).1)
  observe now (rotates ev tenant_id id) t =
      issued (map_ok shown (rotate hash_api_key ev now tenant_id id t).1)
  observe now (revokes fault tenant_id id) t = revoked (revoke fault now tenant_id id t).1

  unfoldable pub store_run : List (ℕ × Call) → Table → List Seen
  store_run [] t = []
  store_run ((now, c) ∷ cs) t = observe now c t ∷ store_run cs (step hash_api_key now c t)

  step-registry_step :
      (now : ℕ) (c : Call) (t : Table)
      → HasUniqueIds t
      → (view (step hash_api_key now c t), observe now c t)
        ≡ registry_step hash_api_key now c (view t)
  unfolding step registry_step
  step-registry_step now (resolves fault stamp_fault presented) t u =
      let (same, answer) = resolve_lem hash_api_key fault stamp_fault now presented t in
      ap₂ (λ x y. (x, y)) same (ap identified answer)
  step-registry_step now (creates fault entropy id spec) t u =
      let m = create-Matches hash_api_key fault now entropy id spec t in
      ap₂ (λ x y. (x, y)) m.shows (ap issued m.told)
  step-registry_step now (rotates ev tenant_id id) t u =
      let m = rotate-Matches hash_api_key ev now tenant_id id t u in
      ap₂ (λ x y. (x, y)) m.shows (ap issued m.told)
  step-registry_step now (revokes fault tenant_id id) t u =
      let (same, answer) = revoke_lem tenant_id id fault now t u in
      ap₂ (λ x y. (x, y)) same (ap revoked answer)

  -- From a table of unique ids, and over any history of Create, Rotate, Revoke and Resolve with any
  -- failures of the statements in it, every answer of the store (the identity, the id and the
  -- plaintext of a new key, or the error) is that of the registry that the table stands for: the
  -- order of the rows, the names, the prefixes and the stamps change no answer.
  pub store_run-registry_run :
      (calls : List (ℕ × Call)) (t : Table)
      → HasUniqueIds t
      → store_run calls t ≡ registry_run hash_api_key calls (view t)
  unfolding store_run registry_run
  store_run-registry_run [] t u = refl
  store_run-registry_run ((now, c) ∷ cs) t u =
      let unique = Changes-HasUniqueIds (step-Changes hash_api_key now t c) u in
      rw (← step-registry_step now c t u)
        (ap (◌∷◌ (observe now c t)) (store_run-registry_run cs (step hash_api_key now c t) unique))
