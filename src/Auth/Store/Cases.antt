-- ===== src/Auth/Store/Cases.antt =====
-- The table after Create and Rotate of internal/auth/apikey_postgres.go, over all that can fail in them.
use chain_pulse.Prelude.{
  ℕ, String, Bool, true, false, not, ◌&&◌, ◌||◌, ◌==◌, ◌≡◌, refl, List, Option, none, some,
  if◌then◌else◌,
}
use chain_pulse.Identity.{valid}
use chain_pulse.Storage.{Fault, not_executed, reply_lost}
use chain_pulse.Auth.Errors.{Result, ok, err}
use chain_pulse.Auth.ApiKey.{CreateApiKeySpec, Generated, generate_api_key}
use chain_pulse.Auth.Rows.{
  Row, Table, is_some, find, update_where, insert, has_id, has_owner, revoke_row,
}
use chain_pulse.Auth.Store.{
  create, create_generated, create_inserted, row_of, created, RotateEvents, Commit, committed,
  rolled_back, committed_unreported, rotate, rotate_found, rotate_generated, rotate_inserted,
  rotate_commit, replacement,
}

if_table :
    {A : Type 0} (P : Table → Type 0) (b : Bool) (x y : Table × A)
    → P x.0
    → P y.0
    → P (if b then x else y).0
if_table P true x y p q = p
if_table P false x y p q = q

if_table_by :
    {A : Type 0} (P : Table → Type 0) (b : Bool) (x y : Table × A)
    → (b ≡ true → P x.0)
    → (b ≡ false → P y.0)
    → P (if b then x else y).0
if_table_by P true x y p q = p refl
if_table_by P false x y p q = q refl

none_of : (o : Option ℕ) → is_some o ≡ false → o ≡ none
none_of none e = refl
none_of (some n) e = cc

module _ (hash_api_key : String → String) (now : ℕ) (t : Table) where
  -- The table after Create is the one before, or has the new row.
  module _ (P : Table → Type 0) (spec : CreateApiKeySpec) (id : String) (same : P t)
      (added : (g : Generated) (t' : Table)
        → insert (row_of hash_api_key spec g id now) t ≡ some t'
        → P t') where
    create_inserted_cases :
        (fault : Option Fault) (g : Generated) (o : Option Table)
        → insert (row_of hash_api_key spec g id now) t ≡ o
        → P
            (create_inserted hash_api_key fault
              (created hash_api_key spec g id now)
              g.plaintext
              t
              o).0
    create_inserted_cases (some not_executed) g none i = same
    create_inserted_cases (some reply_lost) g none i = same
    create_inserted_cases none g none i = same
    create_inserted_cases (some not_executed) g (some t') i = same
    create_inserted_cases (some reply_lost) g (some t') i = added g t' i
    create_inserted_cases none g (some t') i = added g t' i

    pub create_cases :
        (fault : Option Fault) (entropy : Option (List ℕ))
        → P (create hash_api_key fault now entropy id spec t).0
    unfolding create
    create_cases fault entropy =
        if_table P (spec.tenant_id == "" || not (valid spec.role)) _ _ same
          (go (generate_api_key hash_api_key entropy))
      where
        go : (g : Result Generated) → P (create_generated hash_api_key fault now id spec t g).0
        go (err e) = same
        go (ok g) = create_inserted_cases fault g _ refl

  -- The table after Rotate is the one before, or has the old row marked and the new one added.
  module _ (P : Table → Type 0) (ev : RotateEvents) (tenant_id id : String) (same : P t)
      (replaced : (old : Row) (g : Generated) (t' : Table)
        → find (λ r. has_id id r && has_owner tenant_id r) t ≡ some old
        → old.revoked_at ≡ none
        → insert
            (replacement hash_api_key tenant_id old g ev.new_id now)
            (update_where (has_id id) (revoke_row now) t)
          ≡ some t'
        → P t') where
    abbrev marked : Table
    marked = update_where (has_id id) (revoke_row now) t

    rotate_commit_cases :
        (c : Commit) (r : Row) (plaintext : String) (t' : Table)
        → P t'
        → P (rotate_commit hash_api_key c r plaintext t t').0
    rotate_commit_cases committed r plaintext t' h = h
    rotate_commit_cases rolled_back r plaintext t' h = same
    rotate_commit_cases committed_unreported r plaintext t' h = h

    rotate_generated_cases :
        (old : Row) (made : Result Generated)
        → find (λ r. has_id id r && has_owner tenant_id r) t ≡ some old
        → old.revoked_at ≡ none
        → P (rotate_generated hash_api_key ev now tenant_id old t marked made).0
    rotate_generated_cases old (err e) f l = same
    rotate_generated_cases old (ok g) f l = go _ refl
      where
        r : Row
        r = replacement hash_api_key tenant_id old g ev.new_id now

        go :
            (o : Option Table)
            → insert r marked ≡ o
            → P (rotate_inserted hash_api_key ev r g.plaintext t o).0
        go none i = same
        go (some t') i =
            if_table P ev.insert_fails _ _ same
              (rotate_commit_cases ev.commit r g.plaintext t' (replaced old g t' f l i))

    rotate_found_cases :
        (o : Option Row)
        → find (λ r. has_id id r && has_owner tenant_id r) t ≡ o
        → P (rotate_found hash_api_key ev now tenant_id id t o).0
    rotate_found_cases none f = same
    rotate_found_cases (some old) f =
        if_table_by P (is_some old.revoked_at) _ _ (λ e. same)
          λ e.
            if_table P ev.update_fails _ _ same
              (rotate_generated_cases old _ f (none_of old.revoked_at e))

    pub rotate_cases : P (rotate hash_api_key ev now tenant_id id t).0
    unfolding rotate
    rotate_cases =
        if_table P (ev.begin_fails || ev.select_fails) _ _ same (rotate_found_cases _ refl)
