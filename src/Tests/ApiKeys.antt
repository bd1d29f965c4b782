-- ===== src/Tests/ApiKeys.antt =====
-- The key store on concrete tables, with a readable stand-in for SHA-256.
use Prim.Native.String.{◌++◌}
use chain_pulse.Prelude.{
  ℕ, String, false, ◌≡◌, refl, List, [], ◌∷◌, Option, none, some, ◌==◌, if◌then◌else◌, ne_of_false,
}
use chain_pulse.Identity.{Identity, role_supplier, valid}
use chain_pulse.Storage.{reply_lost}
use chain_pulse.Auth.Errors.{ok, err, key_revoked}
use chain_pulse.Auth.ApiKey.{
  ApiKey, CreateApiKeySpec, generate_api_key, display_prefix, encode_to_string, hex_digit,
}
use chain_pulse.Auth.Rows.{Row, Table, find, insert, update_where, nullify, deref}
use chain_pulse.Auth.Store.{
  RotateEvents, committed, committed_unreported, resolve, create, rotate, revoke,
}
use chain_pulse.Auth.Store.Changes.{Call, creates, revokes, rotates, run}
use chain_pulse.Auth.Store.Lifecycle.{revoke-resolve}
use chain_pulse.Auth.Store.Rotation.{rotate-resolve}
use chain_pulse.Auth.Store.Live.{live_keys, rotate-live_keys}

abbrev pub digest : String → String
digest s = "digest of " ++ s

-- A stand-in for the UUIDs of the database: two spellings of one, and a text that is none.
abbrev pub uuid : String → Option String
uuid s = if s == "" then none else if s == "ACME" then some "acme" else some s

abbrev buf : List ℕ
buf =
    0 ∷ 1 ∷ 2 ∷ 3 ∷ 4 ∷ 5 ∷ 6 ∷ 7 ∷ 8 ∷ 9 ∷ 10 ∷ 11 ∷ 12 ∷ 13 ∷ 14 ∷ 15 ∷ 16 ∷ 17 ∷ 18 ∷ 19 ∷ 20
    ∷ 21 ∷ 22 ∷ 23 ∷ 24 ∷ 25 ∷ 26 ∷ 27 ∷ 28 ∷ 29 ∷ 30 ∷ 255 ∷ []

abbrev pub spec : CreateApiKeySpec
spec = record {
  tenant_id = "acme";
  name = "feed";
  role = role_supplier;
  region = "";
  supplier_id = "s7";
  expires_at = some 100000;
}

abbrev pub row : String → String → String → Row
row tenant_id id hash = record {
  id = id;
  tenant_id = tenant_id;
  name = "feed";
  key_hash = hash;
  key_prefix = "cp_0a";
  role = role_supplier;
  region = none;
  supplier_id = some "s7";
  created_at = 5;
  last_used_at = none;
  expires_at = some 100000;
  revoked_at = none;
}

abbrev pub table : Table
table = row "acme" "k1" "digest of cp_0a" ∷ row "other" "k2" "digest of cp_0b" ∷ []

abbrev pub identity : String → Identity
identity id = record {
  tenant_id = "acme";
  user_id = id;
  role = role_supplier;
  region = "";
  supplier_id = "s7";
}

abbrev pub created_key : ApiKey
created_key = record {
  id = "k1";
  tenant_id = "acme";
  name = "feed";
  key_prefix = "cp_0a";
  role = role_supplier;
  region = "";
  supplier_id = "s7";
  created_at = 5;
  last_used_at = none;
  expires_at = some 100000;
  revoked_at = none;
}

created :
    create digest none 5 (some (10 ∷ [])) "k1" spec (row "other" "k2" "digest of cp_0b" ∷ [])
    ≡ (table, ok (created_key, "cp_0a"))
unfolding create generate_api_key display_prefix encode_to_string hex_digit insert nullify valid
created = refl

abbrev pub events : RotateEvents
events = record {
  begin_fails = false;
  select_fails = false;
  update_fails = false;
  entropy = some (12 ∷ []);
  new_id = "k3";
  insert_fails = false;
  commit = committed;
}

abbrev replaced : Row
replaced = record (row "acme" "k3" "digest of cp_0c") { created_at = 9; key_prefix = "cp_0c" }

abbrev after_rotation : Table
after_rotation =
    replaced
    ∷ record (row "acme" "k1" "digest of cp_0a") { revoked_at = some 9 }
    ∷ row "other" "k2" "digest of cp_0b"
    ∷ []

abbrev replaced_key : ApiKey
replaced_key = record created_key { id = "k3"; created_at = 9; key_prefix = "cp_0c" }

rotated : rotate digest events 9 "acme" "k1" table ≡ (after_rotation, ok (replaced_key, "cp_0c"))
unfolding rotate find update_where insert generate_api_key display_prefix encode_to_string hex_digit
    deref
rotated = refl

rotate-resolve_example :
    ((resolve digest none none 50 "cp_0a" after_rotation).1 ≡ err key_revoked)
    × ((resolve digest none none 50 "cp_0c" after_rotation).1 ≡ ok (identity "k3"))
unfolding find valid deref
rotate-resolve_example =
    rotate-resolve digest events 9 "acme" "k1" table after_rotation replaced_key "cp_0c" none 50
      "cp_0a" (row "acme" "k1" "digest of cp_0a") rotated refl refl

abbrev pub history : List (ℕ × Call)
history =
    (20, creates none (some (13 ∷ [])) "k4" spec)
    ∷ (30, rotates events "acme" "k1")
    ∷ (40, revokes none "other" "k2")
    ∷ []

revoke-resolve_example :
    (resolve digest none none 50 "cp_0a"
      (run digest history (revoke (some reply_lost) 10 "acme" "k1" table).0)).1
    ≡ err key_revoked
unfolding find
revoke-resolve_example =
    revoke-resolve digest (some reply_lost) none 10 50 (row "acme" "k1" "digest of cp_0a") "cp_0a"
      table history (λ e. cc) refl

abbrev unreported : RotateEvents
unreported = record events { commit = committed_unreported }

rotate-live_keys_example :
    live_keys "acme" (rotate digest unreported 9 "acme" "k1" table).0 ≡ live_keys "acme" table
rotate-live_keys_example =
    rotate-live_keys 9 "acme" "k1" digest unreported table ((ne_of_false refl, tt), (tt, tt))
