-- ===== src/Gateway/Router.antt =====
-- internal/gateway/router.go: the routes, and the pipeline in front of their handlers. The recovery
-- from panics is gin's and left out: it changes nothing for a handler that returns. gin matches a
-- request to one of the endpoints.
pub mod Gated
pub mod Pipeline
pub mod Keeping
pub mod Effects
pub mod Traffic
pub mod Chains
pub mod Logged
pub mod KeyRoutes
pub mod Unaudited
pub mod Running
use Prim.Native.String.{◌++◌ as ◌⧺◌}
use chain_pulse.Prelude.{
  ℕ, suc, String, Bool, true, false, ◌==◌, refl, List, [], ◌∷◌, ◌++◌, map, Option, none, some, ℤ,
  if◌then◌else◌,
}
use chain_pulse.Identity.{Identity}
use chain_pulse.Logger.{Logger}
use chain_pulse.Http.{text, boolean, object, field, end, json, Handler, Part, reply}
use chain_pulse.Audit.{Record, log_write}
use chain_pulse.Policy.{
  FloatOps, Engine, Race, Action, action_create, action_read, action_update, action_delete,
}
use chain_pulse.Policy.Enforce.{enforce}
use chain_pulse.Storage.{RedisServer, Fault, ok}
use chain_pulse.Auth.Errors.{Result}
use chain_pulse.Auth.Token.{JwtLib, Issuer, validate}
use chain_pulse.Auth.Rows.{Table}
use chain_pulse.Auth.Store.{RotateEvents, resolve}
use chain_pulse.Auth.Handlers.{
  Codec, issue_token, refresh_token, create_key, list_keys, rotate_key, revoke_key,
}
use chain_pulse.Gateway.Deps.{Server, Deps, key_hash, KeyEvents, Arrival}
use chain_pulse.Gateway.Authenticate.{Resolver, authenticate}
use chain_pulse.Gateway.RequestId.{request_id}
use chain_pulse.Gateway.AccessLog.{Observed, request_log}
use chain_pulse.Gateway.Stub.{or_zero_identity, stub_body, query_resource_extractor}
use chain_pulse.Gateway.RateLimit.{Windows, redis_allow, memory_allow}
use chain_pulse.Gateway.Limit.{Limiter, rate_limit}
use chain_pulse.Gateway.Idempotency.{JsonCodec, IdempotencyEvents, idempotency}

pub record Route : Type 0 where
  pub method : String
  pub path : String
  pub idempotent : Bool
  pub action : Action
  pub type : String

abbrev pub route : String → String → Bool → Action → String → Route
route method path idempotent action type = record {
  method = method;
  path = path;
  idempotent = idempotent;
  action = action;
  type = type;
}

-- A registered pattern and the chain of its handlers.
pub record Endpoint (W : Type 0) : Type 0 where
  pub method : String
  pub full_path : String
  pub handler : Handler W

abbrev pub endpoint : {W : Type 0} → String → String → Handler W → Endpoint W
endpoint method full_path handler = record {
  method = method;
  full_path = full_path;
  handler = handler;
}

-- registerStubRoutes
unfoldable pub stub_routes : List Route
stub_routes =
    route "POST" "/orders" true action_create "order"
    ∷ route "GET" "/orders/:id" false action_read "order"
    ∷ route "PUT" "/orders/:id" false action_update "order"
    ∷ route "GET" "/inventory" false action_read "inventory"
    ∷ route "PUT" "/inventory" false action_update "inventory"
    ∷ route "GET" "/shipments/:id" false action_read "shipment"
    ∷ []

module _ {S : Type 0} where
  -- StubModule.handle
  unfoldable pub handle : Handler (Server S)
  handle c w =
      let n = suc w.calls in
      reply (record w { calls = n }) c (if c.method == "POST" then 201 else 200)
        (json (stub_body c (or_zero_identity c.identity) n))

  abbrev pub redis_part : Part (Server S) S
  redis_part = record {
    view = λ w. w.redis;
    put = λ s w. record w { redis = s };
    view-put = λ s w. refl;
  }

  abbrev pub table_part : Part (Server S) Table
  table_part = record {
    view = λ w. w.table;
    put = λ t w. record w { table = t };
    view-put = λ t w. refl;
  }

  abbrev pub write_audit : Logger → ℕ → Record → Server S → Server S
  write_audit log now r w = record w { trail = log_write log now r w.trail }

module _ {F S : Type 0} (d : Deps F S) (a : Arrival) where
  abbrev pub redis_limiter : Limiter (Server S)
  redis_limiter tenant_id suffix w =
      let (s, answer) =
        redis_allow d.redis a.limit_fault tenant_id suffix d.rate_limit_requests d.rate_limit_window
          a.limit_time a.member w.redis in
      (record w { redis = s }, answer)

  abbrev pub memory_limiter : Limiter (Server S)
  memory_limiter tenant_id suffix w =
      let (l, answer) =
        memory_allow tenant_id suffix d.rate_limit_requests d.rate_limit_window a.fallback_time
          w.windows in
      (record w { windows = l }, ok answer)

  abbrev pub resolver_of : Option (String → String) → Option (Resolver (Server S))
  resolver_of none = none
  resolver_of (some hash_api_key) = some λ presented w.
      let (t, answer) =
        resolve hash_api_key a.lookup_fault a.stamp_fault a.key_time presented w.table in
      (record w { table = t }, answer)

  abbrev pub gate : Route → Handler (Server S)
  gate ρ =
      enforce d.floats.zero_value d.engine a.race (write_audit d.logger a.audit_time) ρ.action
        ρ.type (some (query_resource_extractor d.floats)) handle

  abbrev pub guarded : Route → Handler (Server S)
  guarded ρ =
      if ρ.idempotent
      then idempotency d.redis redis_part d.codec d.idempotency_ttl a.idempotency (gate ρ)
      else gate ρ

  abbrev pub limited : Route → Handler (Server S)
  limited ρ = rate_limit redis_limiter memory_limiter (guarded ρ)

  abbrev pub behind_auth : Handler (Server S) → Handler (Server S)
  behind_auth = authenticate (validate d.lib d.issuer a.token_time) (resolver_of (key_hash d))

  -- The global pipeline.
  unfoldable pub observed : Handler (Server S) → Handler (Observed (Server S))
  unfolding request_id request_log
  observed next = request_id d.logger a.uuid (request_log a.started a.finished next)

  -- What a request to one of the stub routes runs through.
  unfoldable pub serve : Route → Handler (Observed (Server S))
  unfolding observed
  serve ρ = observed (behind_auth (limited ρ))

  -- A route of registerAPIKeyRoutes, behind the credentials and the limit.
  abbrev pub key_gate : Action → Handler (Server S) → Handler (Server S)
  key_gate action endpoint =
      enforce d.floats.zero_value d.engine a.race (write_audit d.logger a.audit_time) action
        "api_key" (some (query_resource_extractor d.floats)) endpoint

  abbrev pub key_limited : Action → Handler (Server S) → Handler (Server S)
  key_limited action endpoint = rate_limit redis_limiter memory_limiter (key_gate action endpoint)

  unfoldable pub serve_key : Action → Handler (Server S) → Handler (Observed (Server S))
  unfolding observed
  serve_key action endpoint = observed (behind_auth (key_limited action endpoint))

  -- handleHealth
  abbrev pub handle_health : Handler (Server S)
  handle_health c w =
      reply w c 200
        (json (object (field "redis" (boolean a.redis_answers) (field "status" (text "ok") end))))

  abbrev pub key_routes : Option (String → String) → List (Endpoint (Observed (Server S)))
  key_routes none = []
  key_routes (some hash_api_key) =
      let e = a.keys in
      endpoint "POST" "/v1/api-keys" (
        serve_key action_create
          (create_key d.auth_codec hash_api_key table_part e.fault e.time e.entropy e.new_id))
      ∷ endpoint "GET" "/v1/api-keys"
          (serve_key action_read (list_keys d.auth_codec hash_api_key table_part e.fault))
      ∷ endpoint "POST" "/v1/api-keys/:id/rotate" (
          serve_key action_update
            (rotate_key d.auth_codec hash_api_key table_part e.rotation e.time))
      ∷ endpoint "DELETE" "/v1/api-keys/:id"
          (serve_key action_delete (revoke_key d.auth_codec hash_api_key table_part e.fault e.time))
      ∷ []

  abbrev pub stub_endpoint : Route → Endpoint (Observed (Server S))
  stub_endpoint ρ = endpoint ρ.method ("/v1" ⧺ ρ.path) (serve ρ)

  -- NewRouter: every endpoint with what runs for a request to it.
  unfoldable pub new_router : List (Endpoint (Observed (Server S)))
  unfolding serve serve_key observed
  new_router =
      endpoint "GET" "/health" (observed handle_health)
        ∷ endpoint "POST" "/v1/auth/token"
            (observed (issue_token d.auth_codec d.lib d.issuer a.user_uuid a.token_time))
        ∷ endpoint "POST" "/v1/auth/refresh"
            (observed (refresh_token d.auth_codec d.lib d.issuer a.token_time))
        ∷ map stub_endpoint stub_routes
      ++ key_routes (key_hash d)
