-- ===== src/Auth/Store/Live.antt =====
-- The live keys of internal/auth/apikey_postgres.go around a Rotate.
use chain_pulse.Prelude.{
  ℕ, suc, String, Bool, true, false, not, ◌&&◌, eq_iff, ◌≡◌, ◌≢◌, refl, ap, ◌∙◌, arith, [], ◌∷◌,
  none, some, Bool-cases, inl, inr, All, select, length, ne_false, eq_refl,
}
use chain_pulse.Auth.Rows.{Row, Table, is_some, find, update_where, has_id, has_owner, revoke_row}
use chain_pulse.Auth.Rows.Laws.{find_passes, insert_lem}
use chain_pulse.Auth.Store.{RotateEvents, rotate}
use chain_pulse.Auth.Store.Cases.{rotate_cases}
use chain_pulse.Auth.Store.Tenants.{HasUniqueIds, All_found, wanted, same_id}

abbrev pub is_live_of : String → Row → Bool
is_live_of tenant_id r = has_owner tenant_id r && not (is_some r.revoked_at)

-- The keys of a tenant that are not revoked.
abbrev pub live_keys : String → Table → ℕ
live_keys tenant_id t = length (select (is_live_of tenant_id) t)

module _ (now : ℕ) (tenant_id id : String) where
  -- Marking the rows of an id that no row has.
  mark_absent :
      (t : Table) → All (λ q. q.id ≢ id) t → update_where (has_id id) (revoke_row now) t ≡ t
  unfolding update_where
  mark_absent [] h = refl
  mark_absent (q ∷ t) (n, h) = rw (ne_false n) (ap (◌∷◌ q) (mark_absent t h))

  count_step :
      (x : Row) (t : Table)
      → is_live_of tenant_id x ≡ true
      → is_live_of tenant_id (revoke_row now x) ≡ false
      → suc (live_keys tenant_id (revoke_row now x ∷ t)) ≡ live_keys tenant_id (x ∷ t)
  count_step x t before after = ground arith

  count_same :
      (x : Row) (t t' : Table)
      → suc (live_keys tenant_id t') ≡ live_keys tenant_id t
      → suc (live_keys tenant_id (x ∷ t')) ≡ live_keys tenant_id (x ∷ t)
  count_same x t t' h = ground arith

  -- A row in front of the one that a tenant's call finds has another id.
  not_named :
      (x : Row) (t : Table) {old : Row}
      → All (λ q. q.id ≢ x.id) t
      → find (wanted tenant_id id) t ≡ some old
      → has_id id x ≡ false
  not_named x t {old} h found = elim (Bool-cases (has_id id x)) [
    | inl i ↦ absurd (
        All_found (λ q. q.id ≢ x.id) (wanted tenant_id id) t h found
          (same_id tenant_id id old x (find_passes (wanted tenant_id id) t found) i))
    | inr e ↦ e
  ]

  mark_one :
      (t : Table) {old : Row}
      → HasUniqueIds t
      → find (wanted tenant_id id) t ≡ some old
      → old.revoked_at ≡ none
      → suc (live_keys tenant_id (update_where (has_id id) (revoke_row now) t))
        ≡ live_keys tenant_id t
  unfolding find update_where
  mark_one [] u f l = cc
  mark_one (x ∷ t) {old} (h, u) f l = elim (Bool-cases (wanted tenant_id id x)) [
    | inl m ↦
        let same : x ≡ old = ground arith in
        let named : x.id ≡ id = ground (arith, eq_iff x.id id) in
        let rest : update_where (has_id id) (revoke_row now) t ≡ t =
          mark_absent t (rw named at h) in
        let live : x.revoked_at ≡ none = ap (λ r. r.revoked_at) same ∙ l in
        let own : has_id id x ≡ true = ground arith in
        let before : is_live_of tenant_id x ≡ true = ground arith in
        let after : is_live_of tenant_id (revoke_row now x) ≡ false = ground arith in
        rw (own, rest) (count_step x t before after)
    | inr m ↦
        let found : find (wanted tenant_id id) t ≡ some old = ground arith in
        let other : has_id id x ≡ false = not_named x t h found in
        let ih = mark_one t u found l in rw other (count_same x _ _ ih)
  ]

  -- If ids are unique, Rotate never changes how many of the tenant's keys are not revoked, whatever fails in it and even
  -- if the reply to the COMMIT is lost: there is no outcome with no or with two live keys in place of
  -- one.
  pub rotate-live_keys :
      (hash_api_key : String → String) (ev : RotateEvents) (t : Table)
      → HasUniqueIds t
      → live_keys tenant_id (rotate hash_api_key ev now tenant_id id t).0 ≡ live_keys tenant_id t
  rotate-live_keys hash_api_key ev t u =
      rotate_cases hash_api_key now t (λ v. live_keys tenant_id v ≡ live_keys tenant_id t) ev
        tenant_id id refl
        λ old g t' f l i. rw (insert_lem _ _ t' i, eq_refl tenant_id) (mark_one t u f l)
