-- ===== src/Server.antt =====
-- cmd/server/main.go, with the constructors of shared/storage/postgres.go and redis.go: how the process
-- starts and stops, as the sequence of what it does to the outside. What the outside answers is a
-- parameter.
pub mod Resources
pub mod Exit
pub mod Timeout
use chain_pulse.Prelude.{
  ℕ, ◌*◌, String, Bool, true, false, ◌==◌, ◌⊎◌, inl, inr, List, [], ◌∷◌, ◌++◌, Option, none, some,
  ℤ, pos, negsuc, scale, wrap64, if◌then◌else◌,
}
use chain_pulse.Config.{Config, second, minute, load}
use chain_pulse.Config.DotEnv.{Env}
use chain_pulse.Logger.{Logger, new_logger, parse_level}
use chain_pulse.Policy.{FloatOps, Engine, new_engine}
use chain_pulse.Policy.Rules.{default_rules}

abbrev pub millisecond : ℕ
millisecond = 1000000

-- The options that NewRedis sets.
pub record RedisOptions : Type 0 where
  pub addr : String
  pub password : String
  pub dial_timeout : ℕ
  pub read_timeout : ℕ
  pub write_timeout : ℕ
  pub max_retries : ℤ

-- The settings of a pgx pool that the source sets, and what else a DSN says.
pub record PoolConfig : Type 0 where
  pub connection : String
  pub max_conns : ℕ
  pub min_conns : ℕ
  pub max_conn_idle_time : ℕ
  pub max_conn_lifetime : ℕ

pub record HttpServer : Type 0 where
  pub addr : String
  pub read_timeout : ℕ
  pub write_timeout : ℕ
  pub idle_timeout : ℕ

-- What ends the `select` of run: an error of ListenAndServe, or a signal.
pub data Wake : Type 0 where
  server_failed signalled : Wake

-- What the outside answers: whether a ping, the opening of the pool and the shutdown succeed.
pub record Platform : Type 0 where
  pub parse_duration : String → Option ℤ
  pub ping_redis : RedisOptions → Bool
  pub parse_config : String → Option PoolConfig
  pub new_with_config : PoolConfig → Bool
  pub ping_pool : PoolConfig → Bool
  pub wake : Wake
  pub shutdown : ℤ → Bool

-- What it does and reports; the lines of the log that tell no branch are left out.
pub data Event (F : Type 0) : Type 0 where
  redis_opened : RedisOptions → Event F
  redis_pinged redis_unreachable : Event F
  pool_opened : PoolConfig → Event F
  pool_pinged : Event F
  listening : HttpServer → Logger → Engine F → Event F
  signal_received : Event F
  shutting_down : ℤ → Event F
  stopped_cleanly pool_closed redis_closed : Event F

-- What run returns, or the panic of NewIssuer.
pub data Result : Type 0 where
  stopped : Result
  config_error : String → Result
  parse_error create_error ping_error server_error shutdown_error panicked : Result

-- NewRedis: it gives no error.
abbrev pub new_redis : String → String → RedisOptions
new_redis addr password = record {
  addr = addr;
  password = password;
  dial_timeout = 1 * second;
  read_timeout = 500 * millisecond;
  write_timeout = 500 * millisecond;
  max_retries = negsuc 0;
}

abbrev pub tuned : PoolConfig → PoolConfig
tuned cfg = record cfg {
  max_conns = 20;
  min_conns = 2;
  max_conn_idle_time = 5 * minute;
  max_conn_lifetime = 30 * minute;
}

abbrev pub http_server : String → HttpServer
http_server addr = record {
  addr = addr;
  read_timeout = 5 * second;
  write_timeout = 10 * second;
  idle_timeout = 120 * second;
}

-- NewIssuer panics without a secret.
abbrev pub issuer_panics : Config → Bool
issuer_panics cfg = cfg.auth.jwt_secret == ""

-- The logger of the process, which the router and the auditor get.
unfoldable pub logger_for : Config → Logger
unfolding parse_level
logger_for cfg = new_logger (parse_level cfg.log_level)

-- time.Duration(ms) * time.Millisecond
unfoldable pub eval_timeout_of : Config → ℤ
unfolding wrap64
eval_timeout_of cfg = wrap64 (scale millisecond cfg.policy.eval_timeout_ms)

-- What main exits with: log.Fatalf with 1, a panic with 2.
abbrev pub exit_code : Result → ℕ
exit_code stopped = 0
exit_code panicked = 2
exit_code _ = 1

-- What the process does, and how run ends.
abbrev pub Trace : Type 0 → Type 0
Trace F = List (Event F) × Result

module _ {F : Type 0} where
  abbrev pub after : List (Event F) → Trace F → Trace F
  after es (fs, r) = (es ++ fs, r)

  -- What a `defer` does when the function returns or panics.
  abbrev pub deferred : Event F → Trace F → Trace F
  deferred e (es, r) = (es ++ e ∷ [], r)

  module _ (p : Platform) where
    -- NewPostgres: a pool that does not answer is closed again.
    abbrev pub pool_checked : PoolConfig → Bool → List (Event F) × (Result ⊎ PoolConfig)
    pool_checked pool true = (pool_opened pool ∷ pool_pinged ∷ [], inr pool)
    pool_checked pool false = (pool_opened pool ∷ pool_pinged ∷ pool_closed ∷ [], inl ping_error)

    abbrev pub pool_created : PoolConfig → Bool → List (Event F) × (Result ⊎ PoolConfig)
    pool_created pool true = pool_checked pool (p.ping_pool pool)
    pool_created pool false = ([], inl create_error)

    abbrev pub pool_parsed : Option PoolConfig → List (Event F) × (Result ⊎ PoolConfig)
    pool_parsed none = ([], inl parse_error)
    pool_parsed (some cfg) = pool_created (tuned cfg) (p.new_with_config (tuned cfg))

    abbrev pub new_postgres : String → List (Event F) × (Result ⊎ PoolConfig)
    new_postgres dsn = pool_parsed (p.parse_config dsn)

    module _ (floats : FloatOps F) where
      abbrev pub engine_of : Config → Engine F
      unfolding eval_timeout_of
      engine_of cfg = new_engine (default_rules floats) (eval_timeout_of cfg)

      abbrev pub after_shutdown : Bool → Trace F
      after_shutdown true = (stopped_cleanly ∷ [], stopped)
      after_shutdown false = ([], shutdown_error)

      -- From the `select` on.
      abbrev pub wait : Config → Wake → Trace F
      wait cfg server_failed = ([], server_error)
      wait cfg signalled =
          after (signal_received ∷ shutting_down cfg.server.shutdown_timeout ∷ [])
            (after_shutdown (p.shutdown cfg.server.shutdown_timeout))

      -- Behind the clients, and whether NewIssuer panics.
      abbrev pub serve_until_stopped : Config → Bool → Trace F
      serve_until_stopped cfg true = ([], panicked)
      serve_until_stopped cfg false =
          after (listening (http_server cfg.server.addr) (logger_for cfg) (engine_of cfg) ∷ [])
            (wait cfg p.wake)

      abbrev pub with_pool : Config → List (Event F) × (Result ⊎ PoolConfig) → Trace F
      with_pool cfg (es, inl failure) = (es, failure)
      with_pool cfg (es, inr pool) =
          after es (deferred pool_closed (serve_until_stopped cfg (issuer_panics cfg)))

      abbrev pub redis_state : Bool → List (Event F)
      redis_state true = redis_pinged ∷ []
      redis_state false = redis_pinged ∷ redis_unreachable ∷ []

      abbrev pub with_redis : Config → RedisOptions → Trace F
      with_redis cfg redis =
          after (redis_opened redis ∷ redis_state (p.ping_redis redis))
            (deferred redis_closed (with_pool cfg (new_postgres cfg.postgres.dsn)))

      abbrev pub with_config : String ⊎ Config → Trace F
      with_config (inl missing) = ([], config_error missing)
      with_config (inr cfg) = with_redis cfg (new_redis cfg.redis.addr cfg.redis.password)

      unfoldable pub run : Option String → Env → Trace F
      unfolding load
      run file env = with_config (load p.parse_duration file env).1
