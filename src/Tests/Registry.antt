-- ===== src/Tests/Registry.antt =====
-- The key store and the registry on one history.
use mathlib.Core.List.{Permᴰ}
use chain_pulse.Prelude.{ℕ, ◌≡◌, refl, List, [], ◌∷◌, none, some, ne_of_false}
use chain_pulse.Identity.{valid}
use chain_pulse.Storage.{reply_lost}
use chain_pulse.Auth.Errors.{ok, err, key_revoked, internal_error}
use chain_pulse.Auth.ApiKey.{generate_api_key, display_prefix, encode_to_string, hex_digit}
use chain_pulse.Auth.Rows.{Table, find, insert, update_where, nullify, deref}
use chain_pulse.Auth.Store.{check_row, resolve, create, rotate, revoke}
use chain_pulse.Auth.Store.Changes.{Call, resolves, creates, rotates, revokes, step}
use chain_pulse.Auth.Store.Registry.{identified, issued, revoked, registry_run}
use chain_pulse.Auth.Store.View.{view}
use chain_pulse.Auth.Store.Refinement.{store_run}
use chain_pulse.Auth.Store.Spelled.{rotate_spelled, revoke_spelled}
use chain_pulse.Auth.Store.Spelled.Refines.{all_meant, spelled_run, spelled_run-registry_run}
use chain_pulse.Auth.Store.RowOrder.{store_run-perm}
use chain_pulse.Tests.ApiKeys.{digest, spec, row, table, events, identity, uuid}

abbrev calls : List (ℕ × Call)
calls =
    (9, resolves none none "cp_0a")
    ∷ (10, creates (some reply_lost) (some (13 ∷ [])) "k4" spec)
    ∷ (20, resolves none none "cp_0d")
    ∷ (30, rotates events "acme" "k1")
    ∷ (40, resolves none (some reply_lost) "cp_0a")
    ∷ (50, revokes none "acme" "k3")
    ∷ (60, resolves none none "cp_0c")
    ∷ []

store_run_sample :
    store_run digest calls table
    ≡ identified (ok (identity "k1"))
      ∷ issued (err internal_error)
      ∷ identified (ok (identity "k4"))
      ∷ issued (ok ("k3", "cp_0c"))
      ∷ identified (err key_revoked)
      ∷ revoked (ok tt)
      ∷ identified (err key_revoked)
      ∷ []
unfolding store_run step resolve create rotate revoke find insert update_where generate_api_key
    display_prefix encode_to_string hex_digit nullify deref valid check_row
store_run_sample = refl

-- A rotation under the tenant's name in capitals, a revocation under no name, then a lookup.
abbrev spelt : List (ℕ × Call)
spelt =
    (30, rotates events "ACME" "k1")
    ∷ (40, revokes none "" "k3")
    ∷ (50, resolves none none "cp_0c")
    ∷ []

spelled_run_sample :
    spelled_run uuid digest spelt table
    ≡ issued (ok ("k3", "cp_0c"))
      ∷ revoked (err internal_error)
      ∷ identified (ok (identity "k3"))
      ∷ []
unfolding spelled_run rotate_spelled revoke_spelled resolve rotate revoke find insert update_where
    generate_api_key display_prefix encode_to_string hex_digit nullify deref valid check_row
spelled_run_sample = refl

spelled_run-registry_run_example :
    spelled_run uuid digest spelt table ≡ registry_run digest (all_meant uuid spelt) (view table)
spelled_run-registry_run_example =
    spelled_run-registry_run uuid digest spelt table ((ne_of_false refl, tt), (tt, tt))

-- The rows of `table` the other way round.
abbrev turned : Table
turned = row "other" "k2" "digest of cp_0b" ∷ row "acme" "k1" "digest of cp_0a" ∷ []

store_run-perm_example : store_run digest calls table ≡ store_run digest calls turned
store_run-perm_example =
    store_run-perm digest calls table turned ∣ Permᴰ.swap refl refl ∣₁
      ((ne_of_false refl, tt), (tt, tt)) ((ne_of_false refl, tt), (tt, tt))
