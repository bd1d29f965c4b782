-- ===== src/Gateway/Idempotency.antt =====
-- internal/gateway/middleware/idempotency.go. The state of Redis is a part of the server's state;
-- encoding/json is a parameter. The bytes that the capturing writer collects are those of the
-- response's body.
pub mod Replay
pub mod Interleaved
pub mod Origin
pub mod Once
pub mod Alone
use Prim.Native.String.{◌++◌}
use chain_pulse.Prelude.{
  ℕ, String, Bool, true, false, ◌&&◌, ◌==◌, ◌≡◌, Option, none, some, List, [], ◌∷◌, leb, ltb,
  if◌then◌else◌,
}
use chain_pulse.Identity.{Identity}
use chain_pulse.Storage.{
  RedisServer, Fault, RedisError, cache_miss, unavailable, Reply, ok, err, redis_get, redis_set,
}
use chain_pulse.Http.{
  Json, Body, json, raw, no_body, Response, Context, Handler, Part, Outcome, require_actor, abort,
  code_idempotency, reply,
}

pub record StoredResponse : Type 0 where
  pub status : ℕ
  pub body : String
  pub content_type : String

-- json.Marshal of a value for the body, and of a stored response, with json.Unmarshal.
pub record JsonCodec : Type 0 where
  pub encode : Json → String
  pub marshal : StoredResponse → Option String
  pub unmarshal : String → Option StoredResponse

pub record CodecLaws (codec : JsonCodec) : Type 0 where
  pub unmarshal-marshal :
      (sr : StoredResponse) (b : String) → codec.marshal sr ≡ some b → codec.unmarshal b ≡ some sr

abbrev pub json_content_type : String
json_content_type = "application/json; charset=utf-8"

abbrev pub idempotent_replay : List (String × String)
idempotent_replay = ("Idempotent-Replay", "true") ∷ []

-- The outside of one request: when the two commands run, and what goes wrong with them.
pub record IdempotencyEvents : Type 0 where
  pub get_time : ℕ
  pub get_fault : Option Fault
  pub set_time : ℕ
  pub set_fault : Option Fault

unfoldable pub content_type_of : Body → String
content_type_of (json j) = json_content_type
content_type_of (raw content_type s) = content_type
content_type_of no_body = ""

abbrev pub replay_response : StoredResponse → Response
replay_response sr = record {
  status = sr.status;
  body = raw sr.content_type sr.body;
  headers = idempotent_replay;
}

abbrev pub cacheable : ℕ → Bool
cacheable status = leb 200 status && ltb status 500

abbrev pub idempotency_suffix : Context → String
idempotency_suffix c = "idem:" ++ (c.full_path ++ (":" ++ c.header "Idempotency-Key"))

module _ {W S : Type 0} (r : RedisServer S) (redis : Part W S) (codec : JsonCodec) where
  -- What a body writes, and the content type that it sets.
  unfoldable pub written : Body → String
  written (json j) = codec.encode j
  written (raw content_type s) = s
  written no_body = ""

  unfoldable pub stored_response : Response → StoredResponse
  unfolding written content_type_of
  stored_response p = record {
    status = p.status;
    body = written p.body;
    content_type = content_type_of p.body;
  }

  abbrev pub replay : Context → W → StoredResponse → Outcome W
  replay c w sr = record { world = w; context = c; response = replay_response sr }

  abbrev pub persist :
      ℕ → IdempotencyEvents → String → String → Outcome W → Option String → Outcome W
  persist ttl ev tenant_id suffix o none = o
  persist ttl ev tenant_id suffix o (some b) = record o {
    world =
        redis.put
          (redis_set r ev.set_fault ev.set_time tenant_id suffix b ttl (redis.view o.world)).0
          o.world;
  }

  unfoldable pub remember : ℕ → IdempotencyEvents → String → String → Outcome W → Outcome W
  unfolding stored_response
  remember ttl ev tenant_id suffix o =
      if cacheable o.response.status
      then persist ttl ev tenant_id suffix o (codec.marshal (stored_response o.response))
      else o

  abbrev pub first_execution : ℕ → IdempotencyEvents → String → String → Handler W → Handler W
  first_execution ttl ev tenant_id suffix next c w = remember ttl ev tenant_id suffix (next c w)

  abbrev pub replay_or_run :
      ℕ
      → IdempotencyEvents
      → String
      → String
      → Handler W
      → Context
      → W
      → Option StoredResponse
      → Outcome W
  replay_or_run ttl ev tenant_id suffix next c w (some sr) = replay c w sr
  replay_or_run ttl ev tenant_id suffix next c w none =
      first_execution ttl ev tenant_id suffix next c w

  abbrev pub dedup :
      ℕ → IdempotencyEvents → String → String → Handler W → Context → W → Reply String → Outcome W
  dedup ttl ev tenant_id suffix next c w (ok val) =
      replay_or_run ttl ev tenant_id suffix next c w (codec.unmarshal val)
  dedup ttl ev tenant_id suffix next c w (err cache_miss) =
      first_execution ttl ev tenant_id suffix next c w
  dedup ttl ev tenant_id suffix next c w (err unavailable) = next c w

  abbrev pub idempotent_actor : ℕ → IdempotencyEvents → Handler W → Identity → Handler W
  idempotent_actor ttl ev next actor c w =
      dedup ttl ev actor.tenant_id (idempotency_suffix c) next c w
        (redis_get r ev.get_fault ev.get_time actor.tenant_id (idempotency_suffix c) (redis.view w))

  -- Idempotency
  unfoldable pub idempotency : ℕ → IdempotencyEvents → Handler W → Handler W
  unfolding remember
  idempotency ttl ev next c w =
      if c.header "Idempotency-Key" == ""
      then abort 400 code_idempotency "Idempotency-Key header is required for this endpoint" c w
      else require_actor (idempotent_actor ttl ev next) c w
