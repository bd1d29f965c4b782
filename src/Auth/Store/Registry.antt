-- ===== src/Auth/Store/Registry.antt =====
-- What the key store of internal/auth/apikey.go (APIKeyStore) promises, without the table: a
-- registry of keys, looked up by id and by hash. It keeps no names, prefixes or stamps, no order of
-- the rows, and of a revocation only that it was. An expiry counts in whole microseconds.
use chain_pulse.Prelude.{
  ℕ, String, Bool, true, false, not, ◌&&◌, ◌||◌, ◌==◌, List, [], ◌∷◌, Option, none, some,
  if◌then◌else◌,
}
use mathlib.Core.Option
use chain_pulse.Identity.{Identity, valid}
use chain_pulse.Storage.{Fault, not_executed, reply_lost}
use chain_pulse.Auth.Errors.{
  Result, ok, err, invalid_token, key_not_found, key_revoked, key_expired, internal_error,
}
use chain_pulse.Auth.ApiKey.{CreateApiKeySpec, Generated, generate_api_key}
use chain_pulse.Auth.Rows.{is_some, is_expired, timestamptz}
use chain_pulse.Auth.Store.{Commit, committed, rolled_back, committed_unreported, RotateEvents}
use chain_pulse.Auth.Store.Changes.{Call, resolves, creates, rotates, revokes}

pub record Entry : Type 0 where
  pub id : String
  pub tenant_id : String
  pub role : String
  pub region : String
  pub supplier_id : String
  pub expires_at : Option ℕ
  pub revoked : Bool

pub record Registry : Type 0 where
  pub by_id : String → Option Entry
  pub by_hash : String → Option Entry

-- What a caller of the store sees: an identity, the id and the plaintext of a key, or an error.
pub data Seen : Type 0 where
  identified : Result Identity → Seen
  issued : Result (String × String) → Seen
  revoked : Result (Unit {0}) → Seen

abbrev pub put : String → Entry → Registry → Registry
put hash e reg = record {
  by_id = λ id. if e.id == id then some e else reg.by_id id;
  by_hash = λ h. if hash == h then some e else reg.by_hash h;
}

abbrev pub map_entries : (Entry → Entry) → Registry → Registry
map_entries f reg = record {
  by_id = λ id. Option.map f (reg.by_id id);
  by_hash = λ h. Option.map f (reg.by_hash h);
}

abbrev pub is_key_of : String → String → Entry → Bool
is_key_of tenant_id id e = e.id == id && e.tenant_id == tenant_id

abbrev pub mark : String → String → Entry → Entry
mark tenant_id id e = if is_key_of tenant_id id e then record e { revoked = true } else e

abbrev pub is_taken : String → String → Registry → Bool
is_taken id hash reg = is_some (reg.by_id id) || is_some (reg.by_hash hash)

-- Resolve
abbrev pub who : ℕ → Option Entry → Result Identity
who now none = err key_not_found
who now (some e) =
    if e.revoked
    then err key_revoked
    else if is_expired now e.expires_at
    then err key_expired
    else if not (valid e.role)
    then err key_not_found
    else ok (record {
      tenant_id = e.tenant_id;
      user_id = e.id;
      role = e.role;
      region = e.region;
      supplier_id = e.supplier_id;
    })

-- A change that the server made, or not, and whose reply came, or not.
abbrev pub settled : {A : Type 0} → Option Fault → Registry → Registry → A → Registry × Result A
settled none before after a = (after, ok a)
settled (some not_executed) before after a = (before, err internal_error)
settled (some reply_lost) before after a = (after, err internal_error)

abbrev pub fault_of : Commit → Option Fault
fault_of committed = none
fault_of rolled_back = some not_executed
fault_of committed_unreported = some reply_lost

abbrev pub new_entry : CreateApiKeySpec → String → Entry
new_entry spec id = record {
  id = id;
  tenant_id = spec.tenant_id;
  role = spec.role;
  region = spec.region;
  supplier_id = spec.supplier_id;
  expires_at = Option.map timestamptz spec.expires_at;
  revoked = false;
}

abbrev pub renewed : String → Entry → Entry
renewed id e = record e { id = id; revoked = false }

-- Revoke
abbrev pub is_revocable : String → Option Entry → Bool
is_revocable tenant_id none = false
is_revocable tenant_id (some e) = e.tenant_id == tenant_id && not e.revoked

abbrev pub revoke_entry : Option Fault → String → String → Registry → Registry × Result (Unit {0})
revoke_entry (some not_executed) tenant_id id reg = (reg, err internal_error)
revoke_entry (some reply_lost) tenant_id id reg =
    (map_entries (mark tenant_id id) reg, err internal_error)
revoke_entry none tenant_id id reg = (
  map_entries (mark tenant_id id) reg,
  (if is_revocable tenant_id (reg.by_id id) then ok tt else err key_not_found),
)

module _ (hash_api_key : String → String) where
  -- Create
  abbrev pub register_generated :
      Option Fault
      → String
      → CreateApiKeySpec
      → Registry
      → Result Generated
      → Registry × Result (String × String)
  register_generated fault id spec reg (err e) = (reg, err e)
  register_generated fault id spec reg (ok g) =
      if is_taken id g.hash reg
      then (reg, err internal_error)
      else settled fault reg (put g.hash (new_entry spec id) reg) (id, g.plaintext)

  abbrev pub register :
      Option Fault
      → Option (List ℕ)
      → String
      → CreateApiKeySpec
      → Registry
      → Registry × Result (String × String)
  register fault entropy id spec reg =
      if spec.tenant_id == "" || not (valid spec.role)
      then (reg, err invalid_token)
      else register_generated fault id spec reg (generate_api_key hash_api_key entropy)

  -- Rotate
  abbrev pub replace_generated :
      RotateEvents
      → String
      → String
      → Entry
      → Registry
      → Result Generated
      → Registry × Result (String × String)
  replace_generated ev tenant_id id e reg (err x) = (reg, err x)
  replace_generated ev tenant_id id e reg (ok g) =
      let marked = map_entries (mark tenant_id id) reg in
      if is_taken ev.new_id g.hash marked
      then (reg, err internal_error)
      else if ev.insert_fails
      then (reg, err internal_error)
      else settled (fault_of ev.commit) reg (put g.hash (renewed ev.new_id e) marked)
          (ev.new_id, g.plaintext)

  abbrev pub replace_found :
      RotateEvents → String → String → Registry → Option Entry → Registry × Result (String × String)
  replace_found ev tenant_id id reg none = (reg, err key_not_found)
  replace_found ev tenant_id id reg (some e) =
      if not (e.tenant_id == tenant_id)
      then (reg, err key_not_found)
      else if e.revoked
      then (reg, err key_revoked)
      else if ev.update_fails
      then (reg, err internal_error)
      else replace_generated ev tenant_id id e reg (generate_api_key hash_api_key ev.entropy)

  abbrev pub replace :
      RotateEvents → String → String → Registry → Registry × Result (String × String)
  replace ev tenant_id id reg =
      if ev.begin_fails || ev.select_fails
      then (reg, err internal_error)
      else replace_found ev tenant_id id reg (reg.by_id id)

  abbrev pub identify : Option Fault → ℕ → String → Registry → Result Identity
  identify (some fault) now presented reg = err internal_error
  identify none now presented reg = who now (reg.by_hash (hash_api_key presented))

  unfoldable pub registry_step : ℕ → Call → Registry → Registry × Seen
  registry_step now (resolves fault stamp_fault presented) reg =
      (reg, identified (identify fault now presented reg))
  registry_step now (creates fault entropy id spec) reg =
      let (reg', answer) = register fault entropy id spec reg in (reg', issued answer)
  registry_step now (rotates ev tenant_id id) reg =
      let (reg', answer) = replace ev tenant_id id reg in (reg', issued answer)
  registry_step now (revokes fault tenant_id id) reg =
      let (reg', answer) = revoke_entry fault tenant_id id reg in (reg', revoked answer)

  -- What the callers see over a history of timed calls.
  unfoldable pub registry_run : List (ℕ × Call) → Registry → List Seen
  registry_run [] reg = []
  registry_run ((now, c) ∷ cs) reg =
      let (reg', seen) = registry_step now c reg in seen ∷ registry_run cs reg'
