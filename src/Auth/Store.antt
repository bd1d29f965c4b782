-- ===== src/Auth/Store.antt =====
-- internal/auth/apikey_postgres.go and db/migrations/00003_create_api_keys.sql: the key store
-- over the table of Auth/Rows. The UUIDs that the calls get are in the form in which the database
-- prints them; Auth/Store/Spelled takes them in any. Time is an argument; the database's clock and
-- the program's are one. A statement can fail for reasons that the table does not show (the
-- connection, a malformed or unknown tenant): a `Fault` says so.
pub mod Lookup
mod Cases
pub mod Changes
pub mod Lifecycle
pub mod Rotation
pub mod Tenants
pub mod Live
pub mod Listing
pub mod Registry
pub mod View
pub mod Refinement
pub mod RowOrder
pub mod Spelled
use mathlib.Core.Option
use chain_pulse.Prelude.{
  ℕ, String, Bool, true, false, not, ◌&&◌, ◌||◌, ◌==◌, List, [], ◌∷◌, map, Option, none, some, leb,
  ltb, nat_eq, length, select, any, if◌then◌else◌,
}
use chain_pulse.Identity.{Identity, valid}
use chain_pulse.Storage.{Fault, not_executed, reply_lost}
use chain_pulse.Auth.Errors.{
  Result, ok, err, ◌>>=◌, invalid_token, key_not_found, key_revoked, key_expired, internal_error,
}
use chain_pulse.Auth.Rows.{
  Row, Table, nullify, deref, is_some, find, update_where, insert, has_hash, has_id, has_owner,
  timestamptz, is_expired, stamp_used, revoke_row, identity_of, order_by_time,
}
use chain_pulse.Auth.ApiKey.{
  ApiKey, CreateApiKeySpec, Generated, generate_api_key, constant_time_equal,
}

-- The checks of Resolve on the row that it found.
unfoldable pub check_row : ℕ → String → Row → Result Identity
check_row now h r =
    if not (constant_time_equal h r.key_hash)
    then err key_not_found
    else if is_some r.revoked_at
    then err key_revoked
    else if is_expired now r.expires_at
    then err key_expired
    else if not (valid r.role)
    then err key_not_found
    else ok (identity_of r)

-- The stamp that follows a successful check; its error is dropped.
abbrev pub stamp : Option Fault → ℕ → Row → Table → Result Identity → Table
stamp (some not_executed) now r t (ok id) = t
stamp _ now r t (ok id) = update_where (has_id r.id) (stamp_used now) t
stamp _ now r t (err e) = t

abbrev pub resolve_found : Option Fault → ℕ → String → Table → Option Row → Table × Result Identity
resolve_found stamp_fault now h t none = (t, err key_not_found)
resolve_found stamp_fault now h t (some r) =
    let checked = check_row now h r in (stamp stamp_fault now r t checked, checked)

abbrev pub api_key_of : Row → ApiKey
api_key_of r = record {
  id = r.id;
  tenant_id = r.tenant_id;
  name = r.name;
  key_prefix = r.key_prefix;
  role = r.role;
  region = deref r.region;
  supplier_id = deref r.supplier_id;
  created_at = r.created_at;
  last_used_at = r.last_used_at;
  expires_at = r.expires_at;
  revoked_at = r.revoked_at;
}

-- What COMMIT reports, and what it did.
pub data Commit : Type 0 where
  committed rolled_back committed_unreported : Commit

-- The outside of one Rotate: a fault of any statement before COMMIT ends in the deferred rollback.
pub record RotateEvents : Type 0 where
  pub begin_fails : Bool
  pub select_fails : Bool
  pub update_fails : Bool
  pub entropy : Option (List ℕ)
  pub new_id : String
  pub insert_fails : Bool
  pub commit : Commit

module _ (hash_api_key : String → String) where
  unfoldable pub resolve :
      Option Fault → Option Fault → ℕ → String → Table → Table × Result Identity
  resolve (some _) stamp_fault now presented t = (t, err internal_error)
  resolve none stamp_fault now presented t =
      let h = hash_api_key presented in resolve_found stamp_fault now h t (find (has_hash h) t)

  abbrev pub row_of : CreateApiKeySpec → Generated → String → ℕ → Row
  row_of spec g id now = record {
    id = id;
    tenant_id = spec.tenant_id;
    name = spec.name;
    key_hash = g.hash;
    key_prefix = g.prefix;
    role = spec.role;
    region = nullify spec.region;
    supplier_id = nullify spec.supplier_id;
    created_at = now;
    last_used_at = none;
    expires_at = Option.map timestamptz spec.expires_at;
    revoked_at = none;
  }

  -- What Create returns: the fields of the request, the expiry as it was asked for, and those that
  -- RETURNING gives.
  abbrev pub created : CreateApiKeySpec → Generated → String → ℕ → ApiKey
  created spec g id now = record {
    id = id;
    tenant_id = spec.tenant_id;
    name = spec.name;
    key_prefix = g.prefix;
    role = spec.role;
    region = spec.region;
    supplier_id = spec.supplier_id;
    created_at = now;
    last_used_at = none;
    expires_at = spec.expires_at;
    revoked_at = none;
  }

  abbrev pub create_inserted :
      Option Fault → ApiKey → String → Table → Option Table → Table × Result (ApiKey × String)
  create_inserted (some not_executed) k plaintext t inserted = (t, err internal_error)
  create_inserted fault k plaintext t none = (t, err internal_error)
  create_inserted (some reply_lost) k plaintext t (some t') = (t', err internal_error)
  create_inserted none k plaintext t (some t') = (t', ok (k, plaintext))

  abbrev pub create_generated :
      Option Fault
      → ℕ
      → String
      → CreateApiKeySpec
      → Table
      → Result Generated
      → Table × Result (ApiKey × String)
  create_generated fault now id spec t (err e) = (t, err e)
  create_generated fault now id spec t (ok g) =
      create_inserted fault (created spec g id now) g.plaintext t (insert (row_of spec g id now) t)

  -- Create; `id` is what gen_random_uuid() gives.
  unfoldable pub create :
      Option Fault
      → ℕ
      → Option (List ℕ)
      → String
      → CreateApiKeySpec
      → Table
      → Table × Result (ApiKey × String)
  create fault now entropy id spec t =
      if spec.tenant_id == "" || not (valid spec.role)
      then (t, err invalid_token)
      else create_generated fault now id spec t (generate_api_key hash_api_key entropy)

  -- The row that replaces a rotated one.
  abbrev pub replacement : String → Row → Generated → String → ℕ → Row
  replacement tenant_id old g id now = record {
    id = id;
    tenant_id = tenant_id;
    name = old.name;
    key_hash = g.hash;
    key_prefix = g.prefix;
    role = old.role;
    region = old.region;
    supplier_id = old.supplier_id;
    created_at = now;
    last_used_at = none;
    expires_at = old.expires_at;
    revoked_at = none;
  }

  abbrev pub rotate_commit :
      Commit → Row → String → Table → Table → Table × Result (ApiKey × String)
  rotate_commit committed r plaintext t t' = (t', ok (api_key_of r, plaintext))
  rotate_commit rolled_back r plaintext t t' = (t, err internal_error)
  rotate_commit committed_unreported r plaintext t t' = (t', err internal_error)

  abbrev pub rotate_inserted :
      RotateEvents → Row → String → Table → Option Table → Table × Result (ApiKey × String)
  rotate_inserted ev r plaintext t none = (t, err internal_error)
  rotate_inserted ev r plaintext t (some t') =
      if ev.insert_fails then (t, err internal_error) else rotate_commit ev.commit r plaintext t t'

  abbrev pub rotate_generated :
      RotateEvents
      → ℕ
      → String
      → Row
      → Table
      → Table
      → Result Generated
      → Table × Result (ApiKey × String)
  rotate_generated ev now tenant_id old t marked (err e) = (t, err e)
  rotate_generated ev now tenant_id old t marked (ok g) =
      let r = replacement tenant_id old g ev.new_id now in
      rotate_inserted ev r g.plaintext t (insert r marked)

  abbrev pub rotate_found :
      RotateEvents → ℕ → String → String → Table → Option Row → Table × Result (ApiKey × String)
  rotate_found ev now tenant_id id t none = (t, err key_not_found)
  rotate_found ev now tenant_id id t (some old) =
      if is_some old.revoked_at
      then (t, err key_revoked)
      else if ev.update_fails
      then (t, err internal_error)
      else rotate_generated ev now tenant_id old t (update_where (has_id id) (revoke_row now) t)
          (generate_api_key hash_api_key ev.entropy)

  -- Rotate, as one transaction: the table after it is the one before unless COMMIT took effect.
  unfoldable pub rotate :
      RotateEvents → ℕ → String → String → Table → Table × Result (ApiKey × String)
  rotate ev now tenant_id id t =
      if ev.begin_fails || ev.select_fails
      then (t, err internal_error)
      else rotate_found ev now tenant_id id t (find (λ r. has_id id r && has_owner tenant_id r) t)

-- The WHERE of Revoke.
abbrev pub revocable : String → String → Row → Bool
revocable tenant_id id r = has_id id r && (has_owner tenant_id r && not (is_some r.revoked_at))

-- Revoke, with the number of rows that the statement affected.
unfoldable pub revoke : Option Fault → ℕ → String → String → Table → Table × Result (Unit {0})
revoke (some not_executed) now tenant_id id t = (t, err internal_error)
revoke (some reply_lost) now tenant_id id t =
    (update_where (revocable tenant_id id) (revoke_row now) t, err internal_error)
revoke none now tenant_id id t = (
  update_where (revocable tenant_id id) (revoke_row now) t,
  (if nat_eq (length (select (revocable tenant_id id) t)) 0 then err key_not_found else ok tt),
)

-- List
unfoldable pub list : Option Fault → String → Table → Result (List ApiKey)
list (some _) tenant_id t = err internal_error
list none tenant_id t = ok (map api_key_of (order_by_time (select (has_owner tenant_id) t)))
