-- ===== src/Auth/Store/Refinement/Replace.antt =====
-- Rotate of internal/auth/apikey_postgres.go against the registry.
use mathlib.Core.Path.{ap₂}
use mathlib.Core.Option
use chain_pulse.Prelude.{
  ℕ, String, true, ◌||◌, ◌≡◌, refl, ap, ◌∙◌, ◌∷◌, Option, none, some, All-mono, if◌then◌else◌,
  Bool-cases, inl, inr, eq_of_true, eq_true,
}
use chain_pulse.Auth.Errors.{Result, ok, err, internal_error}
use chain_pulse.Auth.ApiKey.{Generated, generate_api_key}
use chain_pulse.Auth.Rows.{Row, Table, is_some, find, update_where, has_id, has_owner, revoke_row}
use chain_pulse.Auth.Store.{
  RotateEvents, Commit, committed, rolled_back, committed_unreported, rotate, rotate_found,
  rotate_generated, rotate_commit, replacement,
}
use chain_pulse.Auth.Store.Tenants.{HasUniqueIds, wanted, owner_of_id}
use chain_pulse.Auth.Store.Registry.{
  Registry, put, map_entries, mark, is_taken, settled, fault_of, renewed, replace_generated,
  replace_found, replace,
}
use chain_pulse.Auth.Store.View.{entry_of, view, view-insert, view-update_where}
use chain_pulse.Auth.Store.Refinement.Found.{entry_if, owned, find-wanted}
use chain_pulse.Auth.Store.Refinement.Issue.{
  Matches, refused, if_Matches, insert_taken, insert_free,
}

module _ (hash_api_key : String → String) (ev : RotateEvents) (now : ℕ) (tenant_id id : String)
    (t : Table) where
  abbrev marked : Table
  marked = update_where (has_id id) (revoke_row now) t

  marked_row :
      (x : Row)
      → (has_id id x ≡ true → x.tenant_id ≡ tenant_id)
      → entry_of (if has_id id x then revoke_row now x else x) ≡ mark tenant_id id (entry_of x)
  marked_row x own =
      entry_if (has_id id x) (revoke_row now x) x
      ∙ elim (Bool-cases (has_id id x)) [ inl e ↦ rw (e, eq_true (own e)) refl | inr e ↦ rw e refl ]

  -- The UPDATE of Rotate names no tenant; the row of that id is the tenant's.
  view-marked :
      (old : Row)
      → HasUniqueIds t
      → find (wanted tenant_id id) t ≡ some old
      → view marked ≡ map_entries (mark tenant_id id) (view t)
  view-marked old u f =
      view-update_where (has_id id) (revoke_row now) (mark tenant_id id) t (λ x. refl) (λ x. refl)
        (All-mono _ _ t marked_row (owner_of_id tenant_id id t u f))

  rotate_commit-Matches :
      (c : Commit) (r : Row) (plaintext : String) (t' : Table) (reg : Registry)
      → view t' ≡ reg
      → Matches
          (rotate_commit hash_api_key c r plaintext t t')
          (settled (fault_of c) (view t) reg (r.id, plaintext))
  rotate_commit-Matches committed r plaintext t' reg e = record { shows = e; told = refl }
  rotate_commit-Matches rolled_back r plaintext t' reg e = refused t internal_error
  rotate_commit-Matches committed_unreported r plaintext t' reg e = record {
    shows = e;
    told = refl;
  }

  module _ (old : Row) (own : old.tenant_id ≡ tenant_id)
      (shown_marked : view marked ≡ map_entries (mark tenant_id id) (view t)) where
    renewed_entry :
        (g : Generated)
        → entry_of (replacement hash_api_key tenant_id old g ev.new_id now)
          ≡ renewed ev.new_id (entry_of old)
    renewed_entry g = rw (← own) refl

    rotate_generated-Matches :
        (made : Result Generated)
        → Matches
            (rotate_generated hash_api_key ev now tenant_id old t marked made)
            (replace_generated hash_api_key ev tenant_id id (entry_of old) (view t) made)
    rotate_generated-Matches (err e) = refused t e
    rotate_generated-Matches (ok g) =
        let r : Row = replacement hash_api_key tenant_id old g ev.new_id now in
        let reg : Registry = map_entries (mark tenant_id id) (view t) in
        let same : is_taken ev.new_id g.hash (view marked) ≡ is_taken ev.new_id g.hash reg =
          ap (is_taken ev.new_id g.hash) shown_marked in
        elim (Bool-cases (is_taken ev.new_id g.hash reg)) [
          | inl e ↦ rw (e, insert_taken r marked (same ∙ e)) (refused t internal_error)
          | inr e ↦
              let inserted = insert_free r marked (same ∙ e) in
              rw (e, inserted)
                (if_Matches ev.insert_fails (λ _. refused t internal_error)
                  λ _. rotate_commit-Matches ev.commit r g.plaintext (r ∷ marked) _ (
                    view-insert r marked (r ∷ marked) inserted
                    ∙ ap₂ (put g.hash) (renewed_entry g) shown_marked))
        ]

  rotate_found-Matches :
      (o : Option Row)
      → HasUniqueIds t
      → find (has_id id) t ≡ o
      → Matches
          (rotate_found hash_api_key ev now tenant_id id t (owned tenant_id id o))
          (replace_found hash_api_key ev tenant_id id (view t) (Option.map entry_of o))
  rotate_found-Matches none u f = refused t _
  rotate_found-Matches (some x) u f = elim (Bool-cases (has_owner tenant_id x)) [
    | inr e ↦ rw e (refused t _)
    | inl e ↦
        let found : find (wanted tenant_id id) t ≡ some x =
          find-wanted tenant_id id t u ∙ ap (owned tenant_id id) f ∙ rw e refl in
        rw e (
          if_Matches (is_some x.revoked_at) (λ _. refused t _)
            λ _.
              if_Matches ev.update_fails (λ _. refused t _)
                λ _.
                  rotate_generated-Matches x (eq_of_true e) (view-marked x u found)
                    (generate_api_key hash_api_key ev.entropy))
  ]

  pub rotate-Matches :
      HasUniqueIds t
      → Matches
          (rotate hash_api_key ev now tenant_id id t)
          (replace hash_api_key ev tenant_id id (view t))
  unfolding rotate
  rotate-Matches u =
      if_Matches (ev.begin_fails || ev.select_fails) (λ _. refused t _)
        (λ _. rw (find-wanted tenant_id id t u) (rotate_found-Matches (find (has_id id) t) u refl))
