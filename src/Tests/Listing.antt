-- ===== src/Tests/Listing.antt =====
-- The listing of a tenant's keys on concrete tables.
use chain_pulse.Prelude.{◌≡◌, List, [], ◌∷◌, none, some}
use chain_pulse.Auth.Errors.{ok}
use chain_pulse.Auth.ApiKey.{ApiKey, CreateApiKeySpec}
use chain_pulse.Auth.Rows.{Table}
use chain_pulse.Auth.Store.{list}
use chain_pulse.Auth.Store.Listing.{IsListing, list-IsListing}
use chain_pulse.Tests.ApiKeys.{spec, row, table, created_key}

list-IsListing_example :
    (keys : List ApiKey) × (list none "acme" table ≡ ok keys) × IsListing "acme" table keys
list-IsListing_example = list-IsListing "acme" table

abbrev before : Table
before = row "acme" "k2" "digest of cp_0b" ∷ []

abbrev after : Table
after = record (row "acme" "k1" "digest of cp_0a") { created_at = 9 } ∷ before

abbrev newer_key : ApiKey
newer_key = record created_key { created_at = 9 }

abbrev in_capitals : CreateApiKeySpec
in_capitals = record spec { tenant_id = "ACME"; expires_at = some 100999 }

abbrev named_key : ApiKey
named_key = record newer_key { tenant_id = "ACME"; expires_at = some 100999 }
