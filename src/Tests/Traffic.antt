-- ===== src/Tests/Traffic.antt =====
-- A revoked key at the gateway after other traffic.
use mathlib.Core.List.Memᴰ
use chain_pulse.Prelude.{
  ℕ, ◌+◌, String, ◌≡◌, refl, List, [], ◌∷◌, ◌++◌, none, some, length, ◌==◌, if◌then◌else◌,
  ne_of_false,
}
use chain_pulse.Http.{Context, Handler}
use chain_pulse.Audit.{Record}
use chain_pulse.Policy.{Action}
use chain_pulse.Auth.ApiKey.{hash_api_key, encode_to_string, hex_digit}
use chain_pulse.Auth.Rows.{Table, find, update_where}
use chain_pulse.Auth.Store.{revoke}
use chain_pulse.Auth.Store.Tenants.{HasUniqueIds}
use chain_pulse.Gateway.Header.{bearer_token}
use chain_pulse.Gateway.AccessLog.{Observed}
use chain_pulse.Gateway.Deps.{Server, Deps}
use chain_pulse.Gateway.Router.{
  Route, Endpoint, endpoint, handle_health, observed, new_router, serve, serve_key,
}
use chain_pulse.Gateway.Router.Traffic.{Traffic, quiet, request, Traffic_keeps, revoked_key_refused}
use chain_pulse.Tests.Limits.{Store}
use chain_pulse.Tests.ApiKeys.{row}
use chain_pulse.Tests.Requests.{deps, arrival, start, get_inventory}

-- A stand-in for SHA-256.
abbrev sha256 : String → List ℕ
sha256 key = if key == "cp_0a" then 10 ∷ [] else 11 ∷ []

abbrev stored : Table
stored = row "acme" "k1" "0a" ∷ row "other" "k2" "0b" ∷ []

abbrev keyed : Deps ℕ Store
keyed = record deps { api_keys = some sha256 }

abbrev revoked : Observed (Server Store)
revoked = record start {
  inner = record start.inner { table = (revoke none 10 "acme" "k1" stored).0 };
}

abbrev health : Endpoint (Observed (Server Store))
health = endpoint "GET" "/health" (observed keyed arrival (handle_health keyed arrival))

abbrev later : Observed (Server Store)
later = (health.handler (get_inventory "") revoked).world

one_probe : Traffic keyed revoked 1 later
unfolding new_router
one_probe = request arrival (get_inventory "") health quiet (Memᴰ.head refl)

abbrev with_key : Context
with_key = record (get_inventory "") {
  header = λ name. if name == "X-API-Key" then "cp_0a" else "";
}

Traffic_keeps_example :
    (length later.access ≡ 1 + length revoked.access)
    × ((lines : List Record) × (later.inner.trail ≡ lines ++ revoked.inner.trail))
    × HasUniqueIds later.inner.table
unfolding revoke update_where
Traffic_keeps_example =
    Traffic_keeps keyed revoked 1 later refl ((ne_of_false refl, tt), (tt, tt)) one_probe

revoked_key_refused_example :
    ((ρ : Route) → (serve keyed arrival ρ with_key later).response.status ≡ 401)
    × ((action : Action) (endpoint : Handler (Server Store))
        → (serve_key keyed arrival action endpoint with_key later).response.status ≡ 401)
unfolding find bearer_token hash_api_key encode_to_string hex_digit
revoked_key_refused_example =
    revoked_key_refused keyed sha256 none 10 (row "acme" "k1" "0a") stored revoked 1 later arrival
      with_key refl (λ e. cc) refl refl one_probe refl (ne_of_false refl)
