-- ===== src/Tests/Routes.antt =====
-- The routes of the gateway on concrete requests.
use chain_pulse.Prelude.{ℕ, ◌≡◌, ◌≢◌, ◌⊎◌, inl, refl, suc, some, All, pos, if◌then◌else◌}
use chain_pulse.Identity.{Identity, role_analyst, valid}
use chain_pulse.Logger.{new_logger, parse_level}
use chain_pulse.Http.{Context}
use chain_pulse.Policy.{action_delete, evaluate}
use chain_pulse.Auth.Errors.{ok}
use chain_pulse.Gateway.Header.{bearer_token}
use chain_pulse.Gateway.Authenticate.{resolve_identity}
use chain_pulse.Gateway.AccessLog.{Observed}
use chain_pulse.Gateway.Deps.{Server, Deps}
use chain_pulse.Gateway.Router.{handle, gate, new_router, serve, serve_key}
use chain_pulse.Gateway.Router.Gated.{asked}
use chain_pulse.Gateway.Router.Logged.{IsLoggedOnce, new_router-IsLoggedOnce}
use chain_pulse.Gateway.Router.KeyRoutes.{looked_up, serve_key-refused}
use chain_pulse.Gateway.Router.Running.{serve-runs}
use chain_pulse.Gateway.Stub.{query_resource_extractor}
use chain_pulse.Gateway.RateLimit.{redis_allow}
use chain_pulse.Storage.{key}
use chain_pulse.Policy.{new_engine, first_deny, first_allow}
use chain_pulse.Policy.Rules.{default_rules}
use chain_pulse.Auth.Token.{validate, key_func}
use chain_pulse.Tests.Tokens.{admin}
use chain_pulse.Gateway.Router.Unaudited.{gate-unaudited}
use chain_pulse.Tests.Limits.{Store}
use chain_pulse.Tests.Requests.{deps, arrival, get_inventory, start, inventory}

new_router-IsLoggedOnce_example :
    All
      (λ e.
        (c : Context) (w : Observed (Server Store))
        → IsLoggedOnce deps.logger arrival.uuid c w.access (e.handler c w))
      (new_router deps arrival)
new_router-IsLoggedOnce_example = new_router-IsLoggedOnce deps arrival refl

no_actor : (actor : Identity) → (looked_up deps arrival (get_inventory "") start.inner).1 ≢ ok actor
unfolding bearer_token resolve_identity
no_actor actor e = cc

serve_key-refused_example :
    ((serve_key deps arrival action_delete handle (get_inventory "") start).world.inner.table
      ≡ (looked_up deps arrival (get_inventory "") start.inner).0.table)
    × (((serve_key deps arrival action_delete handle (get_inventory "") start).response.status
          ≡ 401)
        ⊎ ((serve_key deps arrival action_delete handle (get_inventory "") start).response.status
            ≡ 403)
        ⊎ ((serve_key deps arrival action_delete handle (get_inventory "") start).response.status
            ≡ 429))
serve_key-refused_example =
    serve_key-refused deps arrival (pos 1000) refl action_delete handle (get_inventory "") start
      (λ actor e m. no_actor actor e)

abbrev quiet : Deps ℕ Store
quiet = record deps { logger = new_logger (parse_level "warn") }

abbrev analyst : Identity
analyst = record {
  tenant_id = "acme";
  user_id = "u1";
  role = role_analyst;
  region = "";
  supplier_id = "";
}

abbrev asking : Context
asking = record (get_inventory "") { identity = some analyst }

gate-unaudited_example :
    ((gate quiet arrival inventory asking start.inner).world.trail ≡ start.inner.trail)
    × ((gate quiet arrival inventory asking start.inner).world.calls ≡ (
        if (evaluate quiet.engine arrival.race (asked quiet arrival inventory asking analyst)).allow
        then suc start.inner.calls
        else start.inner.calls))
gate-unaudited_example =
    gate-unaudited quiet arrival inventory "warn" asking start.inner analyst refl (inl refl) refl

serve-runs_example :
    ((serve deps arrival inventory (get_inventory "Bearer A") start).world.inner.calls ≡ 1)
    × ((serve deps arrival inventory (get_inventory "Bearer A") start).response.status ≡ 200)
unfolding resolve_identity bearer_token validate key_func valid redis_allow key evaluate asked
    query_resource_extractor new_engine first_deny default_rules first_allow
serve-runs_example =
    serve-runs deps arrival inventory (get_inventory "Bearer A") start start.inner admin refl refl
      (inl refl) refl
