-- ===== src/Auth/Store/Lifecycle.antt =====
-- Revocation in the store of internal/auth/apikey_postgres.go, over whole histories of calls.
use mathlib.Core.Option
use chain_pulse.Prelude.{
  ℕ, String, eq_iff, ◌≡◌, ◌≢◌, refl, ap, ◌∙◌, arith, List, [], ◌∷◌, Option, none, some, Bool-cases,
  Option-cases, eq_refl, inl, inr, if◌then◌else◌, eq_of_true,
}
use chain_pulse.Storage.{Fault, not_executed, reply_lost}
use chain_pulse.Auth.Errors.{err, key_revoked}
use chain_pulse.Auth.Rows.{Row, Table, find, update_where, has_hash, revoke_row}
use chain_pulse.Auth.Rows.Laws.{find_passes, find-insert, find-update_where}
use chain_pulse.Auth.Store.{check_row, resolve, revocable, revoke}
use chain_pulse.Auth.Store.Changes.{Call, run, Changes, unchanged, updates, inserts, step-Changes}

-- The row under this hash is there and revoked.
pub record IsRevoked (h : String) (t : Table) : Type 0 where
  pub row : Row
  pub found : find (has_hash h) t ≡ some row
  pub marked : row.revoked_at ≢ none

module _ (h : String) where
  pub Changes-IsRevoked : {t u : Table} → Changes t u → IsRevoked h t → IsRevoked h u
  Changes-IsRevoked unchanged v = v
  Changes-IsRevoked (updates {u} p f k c e) v =
      let w = Changes-IsRevoked c v in
      rw e (record {
        row = if p w.row then f w.row else w.row;
        found =
            find-update_where h p f u k.hashes
            ∙ ap (Option.map (λ x. if p x then f x else x)) w.found;
        marked = elim (Bool-cases (p w.row)) [
          | inl e ↦ rw e (k.marks w.row w.marked)
          | inr e ↦ rw e w.marked
        ];
      })
  Changes-IsRevoked (inserts {u} {v = t'} r c i) v =
      let w = Changes-IsRevoked c v in
      record { row = w.row; found = find-insert h r w.row u t' w.found i; marked = w.marked }

  pub run-IsRevoked :
      (hash_api_key : String → String) (calls : List (ℕ × Call)) (t : Table)
      → IsRevoked h t
      → IsRevoked h (run hash_api_key calls t)
  unfolding run
  run-IsRevoked hash_api_key [] t v = v
  run-IsRevoked hash_api_key ((now, c) ∷ cs) t v =
      run-IsRevoked hash_api_key cs _ (Changes-IsRevoked (step-Changes hash_api_key now t c) v)

check_row_revoked :
    (now : ℕ) (h : String) (r : Row)
    → r.key_hash ≡ h
    → r.revoked_at ≢ none
    → check_row now h r ≡ err key_revoked
unfolding check_row
check_row_revoked now h r e n = ground (arith, eq_iff h r.key_hash)

pub resolve_revoked :
    (hash_api_key : String → String) (stamp_fault : Option Fault) (now : ℕ) (presented : String)
    (t : Table)
    → IsRevoked (hash_api_key presented) t
    → (resolve hash_api_key none stamp_fault now presented t).1 ≡ err key_revoked
unfolding resolve
resolve_revoked hash_api_key stamp_fault now presented t v = rw v.found (
    check_row_revoked now (hash_api_key presented) v.row
      (eq_of_true (find_passes (has_hash (hash_api_key presented)) t v.found)) v.marked)

executed_table :
    (fault : Option Fault) (now : ℕ) (tenant_id id : String) (t : Table)
    → fault ≢ some not_executed
    → (revoke fault now tenant_id id t).0 ≡ update_where (revocable tenant_id id) (revoke_row now) t
unfolding revoke
executed_table none now tenant_id id t n = refl
executed_table (some reply_lost) now tenant_id id t n = refl
executed_table (some not_executed) now tenant_id id t n = absurd (n refl)

marked_after :
    (now : ℕ) (r : Row)
    → (if revocable r.tenant_id r.id r then revoke_row now r else r).revoked_at ≢ none
marked_after now r =
    rw (eq_refl r.id, eq_refl r.tenant_id)
      (elim (Option-cases r.revoked_at) [
        | inl live ↦ rw live (λ e. cc)
        | inr (since, e) ↦ rw e (λ e'. cc)
      ])

-- An executed Revoke leaves the row under a hash revoked, if its tenant and id were named.
pub revoke_marks :
    (h : String) (fault : Option Fault) (now : ℕ) (r : Row) (t : Table)
    → fault ≢ some not_executed
    → find (has_hash h) t ≡ some r
    → IsRevoked h (revoke fault now r.tenant_id r.id t).0
revoke_marks h fault now r t executed found = record {
  row = if revocable r.tenant_id r.id r then revoke_row now r else r;
  found = rw (executed_table fault now r.tenant_id r.id t executed) (
      find-update_where h (revocable r.tenant_id r.id) (revoke_row now) t (λ x. refl)
      ∙ ap (Option.map (λ x. if revocable r.tenant_id r.id x then revoke_row now x else x)) found);
  marked = marked_after now r;
}

-- Once Revoke has run for a key's row, under the tenant of that row, the key never resolves again:
-- after any history of further calls, with any failures in them, it is refused as revoked, even if
-- the reply to the Revoke was lost.
pub revoke-resolve :
    (hash_api_key : String → String) (fault stamp_fault : Option Fault) (now later : ℕ) (r : Row)
    (presented : String) (t : Table) (calls : List (ℕ × Call))
    → fault ≢ some not_executed
    → find (has_hash (hash_api_key presented)) t ≡ some r
    → (resolve hash_api_key none stamp_fault later presented
        (run hash_api_key calls (revoke fault now r.tenant_id r.id t).0)).1
      ≡ err key_revoked
revoke-resolve hash_api_key fault stamp_fault now later r presented t calls executed found =
    resolve_revoked hash_api_key stamp_fault later presented _ (
      run-IsRevoked (hash_api_key presented) hash_api_key calls _
        (revoke_marks (hash_api_key presented) fault now r t executed found))
