-- ===== src/Auth/Store/Changes.antt =====
-- What the calls of the store of internal/auth/apikey_postgres.go do to the table, in terms of
-- the statements that they send.
use chain_pulse.Prelude.{ℕ, String, Bool, ◌≡◌, ◌≢◌, refl, List, [], ◌∷◌, Option, none, some}
use chain_pulse.Identity.{Identity}
use chain_pulse.Storage.{Fault, not_executed, reply_lost}
use chain_pulse.Auth.Errors.{Result, ok, err}
use chain_pulse.Auth.ApiKey.{CreateApiKeySpec}
use chain_pulse.Auth.Rows.{
  Row, Table, find, update_where, insert, has_hash, has_id, stamp_used, revoke_row,
}
use chain_pulse.Auth.Store.{
  stamp, resolve, resolve_found, create, RotateEvents, rotate, revocable, revoke,
}
use chain_pulse.Auth.Store.Cases.{create_cases, rotate_cases}

-- A call of the store, with what the outside does in it.
pub data Call : Type 0 where
  resolves : Option Fault → Option Fault → String → Call
  creates : Option Fault → Option (List ℕ) → String → CreateApiKeySpec → Call
  rotates : RotateEvents → String → String → Call
  revokes : Option Fault → String → String → Call

-- The table after a call.
unfoldable pub step : (String → String) → ℕ → Call → Table → Table
step hash_api_key now (resolves fault stamp_fault presented) t =
    (resolve hash_api_key fault stamp_fault now presented t).0
step hash_api_key now (creates fault entropy id spec) t =
    (create hash_api_key fault now entropy id spec t).0
step hash_api_key now (rotates ev tenant_id id) t = (rotate hash_api_key ev now tenant_id id t).0
step hash_api_key now (revokes fault tenant_id id) t = (revoke fault now tenant_id id t).0

-- The table after a history of timed calls.
unfoldable pub run : (String → String) → List (ℕ × Call) → Table → Table
run hash_api_key [] t = t
run hash_api_key ((now, c) ∷ cs) t = run hash_api_key cs (step hash_api_key now c t)

-- An update that keeps the identifying columns and takes no revocation back.
pub record Keeps (f : Row → Row) : Type 0 where
  pub ids : (x : Row) → (f x).id ≡ x.id
  pub owners : (x : Row) → (f x).tenant_id ≡ x.tenant_id
  pub hashes : (x : Row) → (f x).key_hash ≡ x.key_hash
  pub marks : (x : Row) → x.revoked_at ≢ none → (f x).revoked_at ≢ none

stamp_used-Keeps : (now : ℕ) → Keeps (stamp_used now)
stamp_used-Keeps now = record {
  ids = λ x. refl;
  owners = λ x. refl;
  hashes = λ x. refl;
  marks = λ x h. h;
}

pub revoke_row-Keeps : (now : ℕ) → Keeps (revoke_row now)
revoke_row-Keeps now = record {
  ids = λ x. refl;
  owners = λ x. refl;
  hashes = λ x. refl;
  marks = λ x h. λ e. cc;
}

-- A table comes from another by such updates and by insertions that the constraints accept.
pub data Changes (t : Table) : Table → Type 0 where
  unchanged : Changes t t
  updates :
      {u v : Table} (p : Row → Bool) (f : Row → Row)
      → Keeps f
      → Changes t u
      → v ≡ update_where p f u
      → Changes t v
  inserts : {u v : Table} (r : Row) → Changes t u → insert r u ≡ some v → Changes t v

revoke-Changes :
    (fault : Option Fault) (now : ℕ) (tenant_id id : String) (t : Table)
    → Changes t (revoke fault now tenant_id id t).0
unfolding revoke
revoke-Changes none now tenant_id id t =
    updates (revocable tenant_id id) (revoke_row now) (revoke_row-Keeps now) unchanged refl
revoke-Changes (some reply_lost) now tenant_id id t =
    updates (revocable tenant_id id) (revoke_row now) (revoke_row-Keeps now) unchanged refl
revoke-Changes (some not_executed) now tenant_id id t = unchanged

stamp-Changes :
    (fault : Option Fault) (now : ℕ) (r : Row) (t : Table) (checked : Result Identity)
    → Changes t (stamp fault now r t checked)
stamp-Changes (some not_executed) now r t (ok id) = unchanged
stamp-Changes (some reply_lost) now r t (ok id) =
    updates (has_id r.id) (stamp_used now) (stamp_used-Keeps now) unchanged refl
stamp-Changes none now r t (ok id) =
    updates (has_id r.id) (stamp_used now) (stamp_used-Keeps now) unchanged refl
stamp-Changes (some not_executed) now r t (err e) = unchanged
stamp-Changes (some reply_lost) now r t (err e) = unchanged
stamp-Changes none now r t (err e) = unchanged

module _ (hash_api_key : String → String) (now : ℕ) (t : Table) where
  resolve-Changes :
      (fault stamp_fault : Option Fault) (presented : String)
      → Changes t (resolve hash_api_key fault stamp_fault now presented t).0
  unfolding resolve
  resolve-Changes (some f) stamp_fault presented = unchanged
  resolve-Changes none stamp_fault presented = go (find (has_hash (hash_api_key presented)) t)
    where
      go :
          (o : Option Row)
          → Changes t (resolve_found stamp_fault now (hash_api_key presented) t o).0
      go none = unchanged
      go (some r) = stamp-Changes stamp_fault now r t _

  -- Every call changes the table by such statements only, whatever fails in it.
  pub step-Changes : (c : Call) → Changes t (step hash_api_key now c t)
  unfolding step
  step-Changes (resolves fault stamp_fault presented) = resolve-Changes fault stamp_fault presented
  step-Changes (creates fault entropy id spec) =
      create_cases hash_api_key now t (Changes t) spec id unchanged
        (λ g t' i. inserts _ unchanged i) fault entropy
  step-Changes (rotates ev tenant_id id) =
      rotate_cases hash_api_key now t (Changes t) ev tenant_id id unchanged λ old g t' f l i.
        inserts _ (updates (has_id id) (revoke_row now) (revoke_row-Keeps now) unchanged refl) i
  step-Changes (revokes fault tenant_id id) = revoke-Changes fault now tenant_id id t
