-- ===== src/Server/Resources.antt =====
-- run of cmd/server/main.go: the clients that it opens, and that it closes them.
use chain_pulse.Prelude.{
  String, Bool, true, false, ◌≡◌, refl, ap, ◌∙◌, List, [], ◌∷◌, ◌++◌, Option, none, some, ◌⊎◌, inl,
  inr,
}
use chain_pulse.Config.{Config, load}
use chain_pulse.Config.DotEnv.{Env}
use chain_pulse.Policy.{FloatOps}
use chain_pulse.Server.{
  Platform, PoolConfig, Wake, server_failed, signalled, Event, redis_opened, redis_pinged,
  redis_unreachable, pool_opened, pool_pinged, listening, signal_received, shutting_down,
  stopped_cleanly, pool_closed, redis_closed, issuer_panics, pool_checked, pool_created,
  pool_parsed, new_postgres, after_shutdown, wait, serve_until_stopped, with_pool, redis_state,
  with_redis, with_config, run, RedisOptions, tuned,
}

pub data Resource : Type 0 where
  redis_client postgres_pool : Resource

abbrev both : Option (List Resource)
both = some (postgres_pool ∷ redis_client ∷ [])

module _ {F : Type 0} where
  -- One event, with the clients that are open, the last one first. An event that needs a client that is
  -- not open, or that closes another one than the last, is not possible.
  abbrev pub step : Event F → List Resource → Option (List Resource)
  step (redis_opened options) held = some (redis_client ∷ held)
  step redis_pinged (redis_client ∷ held) = some (redis_client ∷ held)
  step redis_unreachable held = some held
  step (pool_opened cfg) held = some (postgres_pool ∷ held)
  step pool_pinged (postgres_pool ∷ held) = some (postgres_pool ∷ held)
  step (listening server logger engine) (postgres_pool ∷ redis_client ∷ []) =
      some (postgres_pool ∷ redis_client ∷ [])
  step signal_received held = some held
  step (shutting_down timeout) (postgres_pool ∷ redis_client ∷ []) =
      some (postgres_pool ∷ redis_client ∷ [])
  step stopped_cleanly held = some held
  step pool_closed (postgres_pool ∷ held) = some held
  step redis_closed (redis_client ∷ held) = some held
  step _ held = none

  abbrev pub advance : Event F → Option (List Resource) → Option (List Resource)
  advance e none = none
  advance e (some held) = step e held

  abbrev pub replay : List (Event F) → Option (List Resource) → Option (List Resource)
  replay [] o = o
  replay (e ∷ es) o = replay es (advance e o)

  replay-append :
      (es fs : List (Event F)) (o : Option (List Resource))
      → replay (es ++ fs) o ≡ replay fs (replay es o)
  replay-append [] fs o = refl
  replay-append (e ∷ es) fs o = replay-append es fs (advance e o)

  module _ (p : Platform) (floats : FloatOps F) (cfg : Config) where
    shutdown-both : (ended : Bool) → replay (after_shutdown p floats ended).0 both ≡ both
    shutdown-both true = refl
    shutdown-both false = refl

    wait-both : (wake : Wake) → replay (wait p floats cfg wake).0 both ≡ both
    wait-both server_failed = refl
    wait-both signalled = shutdown-both (p.shutdown cfg.server.shutdown_timeout)

    serve-both : (panics : Bool) → replay (serve_until_stopped p floats cfg panics).0 both ≡ both
    serve-both true = refl
    serve-both false = wait-both p.wake

    pool-redis :
        (pool : PoolConfig) (answers : Bool)
        → replay (with_pool p floats cfg (pool_checked p pool answers)).0 (some (redis_client ∷ []))
          ≡ some (redis_client ∷ [])
    pool-redis pool true =
        replay-append (serve_until_stopped p floats cfg (issuer_panics cfg)).0 (pool_closed ∷ [])
          both
        ∙ ap (replay (pool_closed ∷ [])) (serve-both (issuer_panics cfg))
    pool-redis pool false = refl

    created-redis :
        (pool : PoolConfig) (opened : Bool)
        → replay (with_pool p floats cfg (pool_created p pool opened)).0 (some (redis_client ∷ []))
          ≡ some (redis_client ∷ [])
    created-redis pool true = pool-redis pool (p.ping_pool pool)
    created-redis pool false = refl

    parsed-redis :
        (parsed : Option PoolConfig)
        → replay (with_pool p floats cfg (pool_parsed p parsed)).0 (some (redis_client ∷ []))
          ≡ some (redis_client ∷ [])
    parsed-redis none = refl
    parsed-redis (some dsn) = created-redis (tuned dsn) (p.new_with_config (tuned dsn))

    redis_state-redis :
        (reachable : Bool)
        → replay (redis_state p floats reachable) (some (redis_client ∷ []))
          ≡ some (redis_client ∷ [])
    redis_state-redis true = refl
    redis_state-redis false = refl

    with_redis-none :
        (options : RedisOptions) → replay (with_redis p floats cfg options).0 (some []) ≡ some []
    with_redis-none options =
        let rest = (with_pool p floats cfg (new_postgres p cfg.postgres.dsn)).0 in
        replay-append (redis_state p floats (p.ping_redis options)) (rest ++ redis_closed ∷ [])
          (some (redis_client ∷ []))
        ∙ ap (replay (rest ++ redis_closed ∷ [])) (redis_state-redis (p.ping_redis options))
        ∙ replay-append rest (redis_closed ∷ []) (some (redis_client ∷ []))
        ∙ ap (replay (redis_closed ∷ [])) (parsed-redis (p.parse_config cfg.postgres.dsn))

  module _ (p : Platform) (floats : FloatOps F) where
    with_config-none : (c : String ⊎ Config) → replay (with_config p floats c).0 (some []) ≡ some []
    with_config-none (inl missing) = refl
    with_config-none (inr cfg) = with_redis-none p floats cfg _

    -- On every way that run takes (a missing variable, a DSN that does not parse, a pool that does
    -- not held or does not answer, an unreachable Redis, a panic, a server error, a shutdown that
    -- fails or succeeds), it closes each client that it opened exactly once, the pool before the
    -- Redis client, and it listens and shuts down only while both are open.
    pub run-Nested :
        (file : Option String) (env : Env) → replay (run p floats file env).0 (some []) ≡ some []
    unfolding run
    run-Nested file env = with_config-none (load p.parse_duration file env).1
