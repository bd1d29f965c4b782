-- ===== src/Gateway/Deps.antt =====
-- What internal/gateway/router.go is built from (Deps), the state behind it, and what the outside does
-- during one request.
use mathlib.Core.Option
use chain_pulse.Prelude.{ℕ, String, Bool, List, Option, ℤ}
use chain_pulse.Logger.{Logger}
use chain_pulse.Audit.{Record}
use chain_pulse.Policy.{FloatOps, Engine, Race}
use chain_pulse.Storage.{RedisServer, Fault}
use chain_pulse.Auth.ApiKey.{hash_api_key}
use chain_pulse.Auth.Token.{JwtLib, Issuer}
use chain_pulse.Auth.Rows.{Table}
use chain_pulse.Auth.Store.{RotateEvents}
use chain_pulse.Auth.Handlers.{Codec}
use chain_pulse.Gateway.RateLimit.{Windows}
use chain_pulse.Gateway.Idempotency.{JsonCodec, IdempotencyEvents}

-- The state behind the gateway: Redis, the stamps of the in-memory limiter, the table of keys, the
-- audit trail and the calls counter of the stub module.
pub record Server (S : Type 0) : Type 0 where
  pub redis : S
  pub windows : Windows
  pub table : Table
  pub trail : List Record
  pub calls : ℕ

-- Deps, with the configured limits. The logger is the auditor's as well; `api_keys` gives the
-- SHA-256 with which the key store hashes, `none` without a store.
pub record Deps (F S : Type 0) : Type 0 where
  pub logger : Logger
  pub lib : JwtLib
  pub issuer : Issuer
  pub engine : Engine F
  pub redis : RedisServer S
  pub api_keys : Option (String → List ℕ)
  pub floats : FloatOps F
  pub codec : JsonCodec
  pub auth_codec : Codec
  pub rate_limit_requests : ℤ
  pub rate_limit_window : ℕ
  pub idempotency_ttl : ℕ

-- How the key store hashes a key.
abbrev pub key_hash : {F S : Type 0} → Deps F S → Option (String → String)
key_hash d = Option.map hash_api_key d.api_keys

-- The outside of a call of the key endpoints.
pub record KeyEvents : Type 0 where
  pub fault : Option Fault
  pub time : ℕ
  pub entropy : Option (List ℕ)
  pub new_id : String
  pub rotation : RotateEvents

-- The outside of one request: when each step runs, the fresh UUIDs, and what fails.
pub record Arrival : Type 0 where
  pub started : ℕ
  pub uuid : String
  pub user_uuid : String
  pub token_time : ℕ
  pub key_time : ℕ
  pub lookup_fault : Option Fault
  pub stamp_fault : Option Fault
  pub limit_time : ℕ
  pub limit_fault : Option Fault
  pub member : String
  pub fallback_time : ℕ
  pub race : Race
  pub audit_time : ℕ
  pub idempotency : IdempotencyEvents
  pub keys : KeyEvents
  pub redis_answers : Bool
  pub finished : ℕ
