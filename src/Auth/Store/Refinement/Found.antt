-- ===== src/Auth/Store/Refinement/Found.antt =====
-- Resolve and Revoke of internal/auth/apikey_postgres.go against the registry, and the row that a
-- tenant's id names.
use mathlib.Core.Option
use chain_pulse.Prelude.{
  ℕ, String, Bool, true, false, not, ◌&&◌, ◌||◌, eq_iff, ◌≡◌, ◌≢◌, refl, sym, ap, ◌∙◌, arith, [],
  ◌∷◌, Option, none, some, All, All-pure, any, if◌then◌else◌, Bool-cases, inl, inr, eq_true,
  eq_of_true, nat_eq, length, select,
}
use chain_pulse.Identity.{Identity}
use chain_pulse.Storage.{Fault, not_executed, reply_lost}
use chain_pulse.Auth.Errors.{Result, ok, err, key_not_found}
use chain_pulse.Auth.Rows.{
  Row, Table, is_some, find, update_where, has_hash, has_id, has_owner, revoke_row,
}
use chain_pulse.Auth.Rows.Laws.{find_passes}
use chain_pulse.Auth.Store.{check_row, stamp, resolve, resolve_found, revocable, revoke}
use chain_pulse.Auth.Store.Tenants.{HasUniqueIds, wanted}
use chain_pulse.Auth.Store.Registry.{
  Entry, map_entries, mark, who, is_revocable, identify, revoke_entry,
}
use chain_pulse.Auth.Store.View.{entry_of, view, view-update_where, view-stamped}

check_row-who :
    (now : ℕ) (h : String) (r : Row)
    → r.key_hash ≡ h
    → check_row now h r ≡ who now (some (entry_of r))
unfolding check_row
check_row-who now h r e = rw (eq_true (sym e)) refl

view-stamp :
    (fault : Option Fault) (now : ℕ) (r : Row) (t : Table) (checked : Result Identity)
    → view (stamp fault now r t checked) ≡ view t
view-stamp (some not_executed) now r t (ok id) = refl
view-stamp (some reply_lost) now r t (ok id) = view-stamped (has_id r.id) now t
view-stamp none now r t (ok id) = view-stamped (has_id r.id) now t
view-stamp (some not_executed) now r t (err e) = refl
view-stamp (some reply_lost) now r t (err e) = refl
view-stamp none now r t (err e) = refl

resolve_found_lem :
    (stamp_fault : Option Fault) (now : ℕ) (h : String) (t : Table) (o : Option Row)
    → find (has_hash h) t ≡ o
    → (view (resolve_found stamp_fault now h t o).0 ≡ view t)
      × ((resolve_found stamp_fault now h t o).1 ≡ who now (Option.map entry_of o))
resolve_found_lem stamp_fault now h t none e = (refl, refl)
resolve_found_lem stamp_fault now h t (some r) e = (
  view-stamp stamp_fault now r t (check_row now h r),
  check_row-who now h r (eq_of_true (find_passes (has_hash h) t e)),
)

pub resolve_lem :
    (hash_api_key : String → String) (fault stamp_fault : Option Fault) (now : ℕ)
    (presented : String) (t : Table)
    → (view (resolve hash_api_key fault stamp_fault now presented t).0 ≡ view t)
      × ((resolve hash_api_key fault stamp_fault now presented t).1
          ≡ identify hash_api_key fault now presented (view t))
unfolding resolve
resolve_lem hash_api_key (some fault) stamp_fault now presented t = (refl, refl)
resolve_lem hash_api_key none stamp_fault now presented t =
    resolve_found_lem stamp_fault now (hash_api_key presented) t _ refl

pub entry_if :
    (b : Bool) (x y : Row) → entry_of (if b then x else y) ≡ (if b then entry_of x else entry_of y)
entry_if true x y = refl
entry_if false x y = refl

none_passes : (p : Row → Bool) (t : Table) → All (λ q. p q ≡ false) t → any p t ≡ false
none_passes p [] h = refl
none_passes p (q ∷ t) (e, h) = rw e (none_passes p t h)

selected_count : (p : Row → Bool) (t : Table) → nat_eq (length (select p t)) 0 ≡ not (any p t)
selected_count p [] = refl
selected_count p (x ∷ t) = elim (Bool-cases (p x)) [
  | inl e ↦ rw e (ground arith)
  | inr e ↦ rw e (selected_count p t)
]

or_none : (b : Bool) → (b || false) ≡ b
or_none true = refl
or_none false = refl

if_not : {A : Type 0} (b : Bool) (x y : A) → (if not b then x else y) ≡ (if b then y else x)
if_not true x y = refl
if_not false x y = refl

module _ (tenant_id id : String) where
  if_marked :
      (b o v : Bool) (e : Entry)
      → e.revoked ≡ v
      → (if b && (o && not v) then record e { revoked = true } else e)
        ≡ (if b && o then record e { revoked = true } else e)
  if_marked false o v e h = refl
  if_marked true false v e h = refl
  if_marked true true false e h = refl
  if_marked true true true e h = ap (λ r. record e { revoked = r }) h

  marked_row :
      (now : ℕ) (x : Row)
      → entry_of (if revocable tenant_id id x then revoke_row now x else x)
        ≡ mark tenant_id id (entry_of x)
  marked_row now x =
      entry_if (revocable tenant_id id x) (revoke_row now x) x
      ∙ if_marked (has_id id x) (has_owner tenant_id x) (is_some x.revoked_at) (entry_of x) refl

  view-revoked :
      (now : ℕ) (t : Table)
      → view (update_where (revocable tenant_id id) (revoke_row now) t)
        ≡ map_entries (mark tenant_id id) (view t)
  view-revoked now t =
      view-update_where (revocable tenant_id id) (revoke_row now) (mark tenant_id id) t (λ x. refl)
        (λ x. refl) (All-pure _ t (marked_row now))

  -- With unique ids, no row behind one of this id has it.
  pub others :
      (x : Row) (t : Table)
      → has_id id x ≡ true
      → All (λ q. q.id ≢ x.id) t
      → All (λ q. has_id id q ≡ false) t
  others x [] e h = tt
  others x (q ∷ t) e (n, h) = (ground (arith, eq_iff q.id id, eq_iff x.id id, n), others x t e h)

  not_revocable :
      (t : Table) → All (λ q. has_id id q ≡ false) t → All (λ q. revocable tenant_id id q ≡ false) t
  not_revocable [] h = tt
  not_revocable (q ∷ t) (e, h) = (rw e refl, not_revocable t h)

  any-revocable :
      (t : Table)
      → HasUniqueIds t
      → any (revocable tenant_id id) t
        ≡ is_revocable tenant_id (Option.map entry_of (find (has_id id) t))
  unfolding find
  any-revocable [] u = refl
  any-revocable (x ∷ t) (h, u) = elim (Bool-cases (has_id id x)) [
    | inl e ↦
        rw (e, none_passes (revocable tenant_id id) t (not_revocable t (others x t e h)))
          (or_none _)
    | inr e ↦ rw e (any-revocable t u)
  ]

  pub revoke_lem :
      (fault : Option Fault) (now : ℕ) (t : Table)
      → HasUniqueIds t
      → (view (revoke fault now tenant_id id t).0 ≡ (revoke_entry fault tenant_id id (view t)).0)
        × ((revoke fault now tenant_id id t).1 ≡ (revoke_entry fault tenant_id id (view t)).1)
  unfolding revoke
  revoke_lem (some not_executed) now t u = (refl, refl)
  revoke_lem (some reply_lost) now t u = (view-revoked now t, refl)
  revoke_lem none now t u = (
    view-revoked now t,
    ap (λ b. if b then err key_not_found else ok tt)
          (selected_count (revocable tenant_id id) t ∙ ap not (any-revocable t u))
        ∙ if_not (is_revocable tenant_id (Option.map entry_of (find (has_id id) t)))
            (err key_not_found) (ok tt),
  )

  -- The row that a tenant's id names is the row of that id, if the tenant owns it.
  abbrev pub owned : Option Row → Option Row
  owned none = none
  owned (some x) = if has_owner tenant_id x then some x else none

  find_missing :
      (t : Table) → All (λ q. has_id id q ≡ false) t → find (wanted tenant_id id) t ≡ none
  unfolding find
  find_missing [] h = refl
  find_missing (q ∷ t) (e, h) = rw e (find_missing t h)

  pub find-wanted :
      (t : Table) → HasUniqueIds t → find (wanted tenant_id id) t ≡ owned (find (has_id id) t)
  unfolding find
  find-wanted [] u = refl
  find-wanted (x ∷ t) (h, u) = elim (Bool-cases (has_id id x)) [
    | inl e ↦ rw (e, find_missing t (others x t e h)) refl
    | inr e ↦ rw e (find-wanted t u)
  ]
