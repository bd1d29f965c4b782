-- ===== src/Tests/Requests.antt =====
-- Whole requests to the stub routes.
use chain_pulse.Prelude.{
  ℕ, String, true, false, ◌==◌, ◌≡◌, refl, none, [], pos, if◌then◌else◌, arith,
}
use chain_pulse.Scope.{empty_scope}
use chain_pulse.Identity.{Identity, valid}
use chain_pulse.Http.{Context, require_actor}
use chain_pulse.Policy.{result_ready, action_read, evaluate, new_engine, first_deny, first_allow}
use chain_pulse.Policy.Rules.{default_rules}
use chain_pulse.Policy.Enforce.{enforce}
use chain_pulse.Storage.{key}
use chain_pulse.Auth.Token.{validate, key_func}
use chain_pulse.Gateway.Header.{bearer_token}
use chain_pulse.Gateway.Authenticate.{authenticate}
use chain_pulse.Gateway.Limit.{rate_limit}
use chain_pulse.Gateway.RateLimit.{new_memory_limiter, redis_allow}
use chain_pulse.Gateway.Deps.{Server, Deps, Arrival}
use chain_pulse.Gateway.Stub.{query_resource_extractor}
use chain_pulse.Gateway.Stub.{query_resource_extractor}
use chain_pulse.Gateway.Router.{Route, route, serve, handle}
use chain_pulse.Gateway.Router.Pipeline.{Authentic, Granted, serve-Ran}
use chain_pulse.Gateway.Router.Gated.{Ran}
use chain_pulse.Tests.Limits.{Store, server, empty}
use chain_pulse.Tests.Tokens.{lib, issuer}
use chain_pulse.Tests.Engine.{floats, engine}
use chain_pulse.Auth.Store.{committed}
use chain_pulse.Logger.{new_logger, level_info}
use chain_pulse.Gateway.AccessLog.{Observed, seen}
use chain_pulse.Tests.Endpoints.{codec as auth_codec}
use chain_pulse.Tests.Edge.{codec}

abbrev pub deps : Deps ℕ Store
deps = record {
  logger = new_logger level_info;
  lib = lib;
  issuer = issuer;
  engine = engine;
  redis = server;
  api_keys = none;
  floats = floats;
  codec = codec;
  auth_codec = auth_codec;
  rate_limit_requests = pos 2;
  rate_limit_window = 100;
  idempotency_ttl = 1000;
}

abbrev pub arrival : Arrival
arrival = record {
  started = 1;
  uuid = "r1";
  user_uuid = "u9";
  token_time = 5;
  key_time = 5;
  lookup_fault = none;
  stamp_fault = none;
  limit_time = 5;
  limit_fault = none;
  member = "m1";
  fallback_time = 5;
  race = result_ready;
  audit_time = 6;
  idempotency = record { get_time = 5; get_fault = none; set_time = 6; set_fault = none };
  keys = record {
    fault = none;
    time = 6;
    entropy = none;
    new_id = "k1";
    rotation = record {
      begin_fails = true;
      select_fails = false;
      update_fails = false;
      entropy = none;
      new_id = "k1";
      insert_fails = false;
      commit = committed;
    };
  };
  redis_answers = true;
  finished = 8000001;
}

abbrev pub get_inventory : String → Context
get_inventory token = record {
  method = "GET";
  full_path = "/v1/inventory";
  path = "/v1/inventory";
  header = λ name. if name == "Authorization" then token else "";
  query = λ name. "";
  param_id = "";
  payload = "";
  identity = none;
  request_id = none;
  policy_decision = none;
  policy_rule = none;
  ratelimit_fallback = false;
  scope = empty_scope;
}

abbrev pub start : Observed (Server Store)
start = record {
  inner = record { redis = empty; windows = new_memory_limiter; table = []; trail = []; calls = 0 };
  access = [];
}

abbrev pub inventory : Route
inventory = route "GET" "/inventory" false action_read "inventory"

one_call : (serve deps arrival inventory (get_inventory "Bearer A") start).world.inner.calls ≡ 1
unfolding serve authenticate bearer_token validate key_func valid rate_limit require_actor
    redis_allow key enforce evaluate query_resource_extractor new_engine first_deny default_rules
    first_allow handle
one_call = refl

serve-Ran_example :
    (actor : Identity) × (w' : Server Store) × Authentic deps arrival inventory
      (get_inventory "Bearer A")
      start.inner
      w'
      actor
    × Granted deps arrival inventory (get_inventory "Bearer A") w' actor
    × Ran deps arrival inventory
        (get_inventory "Bearer A")
        start.inner
        actor
        (seen (serve deps arrival inventory (get_inventory "Bearer A") start))
serve-Ran_example =
    serve-Ran deps arrival inventory (get_inventory "Bearer A") start refl
      (rw one_call (omega arith))
