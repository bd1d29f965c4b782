-- ===== src/Auth/Store/Spelled.antt =====
-- The calls of internal/auth/apikey_postgres.go for UUIDs in whatever spelling: the database takes
-- several for one UUID, and refuses a text that is none.
pub mod Refines
pub mod Listed
use chain_pulse.Prelude.{ℕ, String, true, List, Option, none, some}
use chain_pulse.Storage.{Fault, not_executed}
use chain_pulse.Auth.Errors.{Result, ok, err, internal_error}
use chain_pulse.Auth.ApiKey.{ApiKey, CreateApiKeySpec}
use chain_pulse.Auth.Rows.{Table}
use chain_pulse.Auth.Store.{RotateEvents, create, rotate, revoke, list}

-- The key that Create and Rotate return names the tenant as the caller did.
abbrev pub named : String → Table × Result (ApiKey × String) → Table × Result (ApiKey × String)
named tenant_id (t, err e) = (t, err e)
named tenant_id (t, ok (k, plaintext)) = (t, ok (record k { tenant_id = tenant_id }, plaintext))

-- How the database prints the UUID that a text spells; `none` for a text that is no UUID.
abbrev pub Uuid : Type 0
Uuid = String → Option String

-- A statement with two of them; `none` if one is no UUID.
abbrev pub both : Option String → Option String → Option (String × String)
both none b = none
both (some a) none = none
both (some a) (some b) = some (a, b)

module _ (hash_api_key : String → String) where
  abbrev pub create_in :
      Option Fault
      → ℕ
      → Option (List ℕ)
      → String
      → CreateApiKeySpec
      → Table
      → Option String
      → Table × Result (ApiKey × String)
  create_in fault now entropy id spec t none =
      create hash_api_key (some not_executed) now entropy id spec t
  create_in fault now entropy id spec t (some tenant_id) =
      named spec.tenant_id
        (create hash_api_key fault now entropy id (record spec { tenant_id = tenant_id }) t)

  -- Create
  unfoldable pub create_spelled :
      Uuid
      → Option Fault
      → ℕ
      → Option (List ℕ)
      → String
      → CreateApiKeySpec
      → Table
      → Table × Result (ApiKey × String)
  create_spelled uuid fault now entropy id spec t =
      create_in fault now entropy id spec t (uuid spec.tenant_id)

  abbrev pub rotate_in :
      RotateEvents
      → ℕ
      → String
      → String
      → Table
      → Option (String × String)
      → Table × Result (ApiKey × String)
  rotate_in ev now tenant_id id t none =
      rotate hash_api_key (record ev { select_fails = true }) now tenant_id id t
  rotate_in ev now tenant_id id t (some (a, b)) = named tenant_id (rotate hash_api_key ev now a b t)

  -- Rotate
  unfoldable pub rotate_spelled :
      Uuid → RotateEvents → ℕ → String → String → Table → Table × Result (ApiKey × String)
  rotate_spelled uuid ev now tenant_id id t =
      rotate_in ev now tenant_id id t (both (uuid tenant_id) (uuid id))

abbrev pub revoke_in :
    Option Fault
    → ℕ
    → String
    → String
    → Table
    → Option (String × String)
    → Table × Result (Unit {0})
revoke_in fault now tenant_id id t none = revoke (some not_executed) now tenant_id id t
revoke_in fault now tenant_id id t (some (a, b)) = revoke fault now a b t

-- Revoke
unfoldable pub revoke_spelled :
    Uuid → Option Fault → ℕ → String → String → Table → Table × Result (Unit {0})
revoke_spelled uuid fault now tenant_id id t =
    revoke_in fault now tenant_id id t (both (uuid tenant_id) (uuid id))

abbrev pub list_in : Option Fault → Table → Option String → Result (List ApiKey)
list_in fault t none = err internal_error
list_in fault t (some tenant_id) = list fault tenant_id t

-- List
unfoldable pub list_spelled : Uuid → Option Fault → String → Table → Result (List ApiKey)
list_spelled uuid fault tenant_id t = list_in fault t (uuid tenant_id)
