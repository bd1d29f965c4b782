-- ===== src/Tests/Edge.antt =====
-- The middlewares of the gateway on concrete requests. The state is the limiter's and the store's.
use chain_pulse.Prelude.{
  ℕ, String, false, ◌&&◌, ◌==◌, eq_iff, ne_of_false, nat_eq, trim_space, ◌≡◌, refl, arith, none,
  some, if◌then◌else◌,
}
use chain_pulse.Scope.{empty_scope}
use chain_pulse.Identity.{Identity, role_analyst}
use chain_pulse.Http.{Context, Handler, Part, Outcome, raw, reply}
use chain_pulse.Storage.{redis_get}
use chain_pulse.Auth.Errors.{Result, invalid_token, key_not_found}
use chain_pulse.Gateway.Header.{bearer_token}
use chain_pulse.Gateway.Authenticate.{Resolver, authenticate}
use chain_pulse.Gateway.Authenticate.Boundary.{Presents, Admits, authenticate-Admits}
use chain_pulse.Gateway.Idempotency.{
  JsonCodec, CodecLaws, IdempotencyEvents, idempotency, replay, stored_response, written,
  content_type_of,
}
use chain_pulse.Gateway.Idempotency.Replay.{Handled, idempotency-Handled, idempotency-replay}
use chain_pulse.Tests.Limits.{Store, server, server-StringLaws, empty}

abbrev pub analyst : Identity
analyst = record {
  tenant_id = "acme";
  user_id = "u2";
  role = role_analyst;
  region = "";
  supplier_id = "";
}

abbrev pub headers : String → String
headers name =
    if name == "Idempotency-Key" then "key-1" else if name == "X-API-Key" then "cp_0a" else ""

abbrev pub post_order : Context
post_order = record {
  method = "POST";
  full_path = "/v1/orders";
  path = "/v1/orders";
  header = headers;
  query = λ name. "";
  param_id = "";
  payload = "";
  identity = some analyst;
  request_id = some "r1";
  policy_decision = none;
  policy_rule = none;
  ratelimit_fallback = false;
  scope = empty_scope;
}

bearer_token_sample : bearer_token "BEARER  abc " ≡ some "abc"
unfolding bearer_token trim_space
bearer_token_sample = refl

-- A handler that creates something, over the state of Redis.
abbrev create : String → Handler Store
create text c w = reply w c 201 (raw "text/plain" text)

abbrev whole : Part Store Store
whole = record { view = λ s. s; put = λ s w. s; view-put = λ s w. refl }

-- Stored responses of one status and content type, by their text.
abbrev pub codec : JsonCodec
codec = record {
  encode = λ j. "";
  marshal =
      λ sr. if nat_eq sr.status 201 && sr.content_type == "text/plain" then some sr.body else none;
  unmarshal = λ b. some (record { status = 201; body = b; content_type = "text/plain" });
}

pub codec-CodecLaws : CodecLaws codec
codec-CodecLaws = record {
  unmarshal-marshal = λ sr b h. ground (arith, eq_iff sr.content_type "text/plain");
}

abbrev events : ℕ → IdempotencyEvents
events t = record { get_time = t; get_fault = none; set_time = t; set_fault = none }

abbrev first : Outcome Store
first = idempotency server whole codec 100 (events 10) (create "order 1") post_order empty

idempotency-Handled_example :
    Handled server whole codec 100 (events 10) (create "order 1") post_order empty analyst first
idempotency-Handled_example =
    idempotency-Handled server whole codec 100 (events 10) (create "order 1") post_order empty
      analyst (ne_of_false refl) refl

idempotency-replay_example :
    (first.response ≡ (create "order 1" post_order empty).response)
    × (idempotency server whole codec 100 (events 50) (create "order 2") post_order first.world
        ≡ replay server whole codec post_order first.world
            (stored_response server whole codec (create "order 1" post_order empty).response))
unfolding redis_get stored_response written content_type_of
idempotency-replay_example =
    idempotency-replay server whole codec 100 server-StringLaws codec-CodecLaws (events 10)
      (events 50) (create "order 1") (create "order 2") post_order post_order empty first.world
      analyst analyst "order 1" (ne_of_false refl) refl refl refl refl refl (ne_of_false refl) refl
      (record {
        tenant = refl;
        suffix = refl;
        reads = refl;
        later = omega arith;
        live = omega arith;
        unwritten = refl;
      })

-- A key store that knows one key, and no token that is valid.
abbrev keys : Resolver Store
keys presented w =
    (w, (if presented == "cp_0a" then Result.ok analyst else Result.err key_not_found))

abbrev validate : String → Result Identity
validate token = Result.err invalid_token

authenticate-Admits_example :
    (r : Store × Result Identity) × Presents validate (some keys) post_order empty r
    × Admits validate
        (some keys)
        (create "order 1")
        post_order
        r
        (authenticate validate (some keys) (create "order 1") post_order empty)
authenticate-Admits_example =
    authenticate-Admits validate (some keys) (create "order 1") post_order empty
