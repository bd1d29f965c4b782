-- ===== src/Config.antt =====
-- shared/config/config.go, with strconv.Atoi. Durations are in nanoseconds; time.ParseDuration is a
-- parameter, `none` where it gives an error.
pub mod DotEnv
pub mod Int
pub mod Loading
use Prim.Native.Char.{Char, code}
use Prim.Native.String.{String, [], ◌∷◌}
use chain_pulse.Prelude.{
  ℕ, ◌+◌, ◌-◌, ◌*◌, ◌⊎◌, inl, inr, Bool, ◌&&◌, ◌==◌, Option, none, some, leb, ltb, nat_eq, ℤ, pos,
  neg, two_pow_63, if◌then◌else◌,
}
use chain_pulse.Config.DotEnv.{Env, load_dot_env}

pub record ServerConfig : Type 0 where
  pub addr : String
  pub shutdown_timeout : ℤ

pub record PostgresConfig : Type 0 where
  pub dsn : String

pub record RedisConfig : Type 0 where
  pub addr : String
  pub password : String

pub record AuthConfig : Type 0 where
  pub jwt_secret : String
  pub access_token_ttl : ℤ
  pub refresh_token_ttl : ℤ

pub record PolicyConfig : Type 0 where
  pub cache_refresh_interval : ℤ
  pub eval_timeout_ms : ℤ

pub record GatewayConfig : Type 0 where
  pub rate_limit_requests : ℤ
  pub rate_limit_window : ℤ
  pub idempotency_ttl : ℤ

pub record Config : Type 0 where
  pub server : ServerConfig
  pub postgres : PostgresConfig
  pub redis : RedisConfig
  pub auth : AuthConfig
  pub policy : PolicyConfig
  pub gateway : GatewayConfig
  pub log_level : String

abbrev pub second : ℕ
second = 1000000000

abbrev pub minute : ℕ
minute = 60 * second

abbrev pub hour : ℕ
hour = 60 * minute

abbrev pub or_empty_text : Option String → String
or_empty_text none = ""
or_empty_text (some v) = v

-- os.Getenv
abbrev pub getenv : String → Env → String
getenv key env = or_empty_text (env key)

-- The error is the key that is missing.
unfoldable pub require_env : String → Env → String ⊎ String
require_env key env = let v = getenv key env in if v == "" then inl key else inr v

unfoldable pub get_env_or_default : String → String → Env → String
get_env_or_default key fallback env = let v = getenv key env in if v == "" then fallback else v

abbrev pub or_default : ℤ → Option ℤ → ℤ
or_default fallback none = fallback
or_default fallback (some z) = z

unfoldable pub get_duration_or_default : (String → Option ℤ) → String → ℤ → Env → ℤ
get_duration_or_default parse_duration key fallback env =
    let v = getenv key env in if v == "" then fallback else or_default fallback (parse_duration v)

-- The value of decimal digits behind those that have been read.
unfoldable pub read_digits : String → ℕ → Option ℕ
read_digits [] n = some n
read_digits (c ∷ s) n =
    let rest = read_digits s (10 * n + (code c - 48)) in
    if leb 48 (code c) && leb (code c) 57 then rest else none

unfoldable pub magnitude : String → Option ℕ
unfolding read_digits
magnitude [] = none
magnitude (c ∷ s) = read_digits (c ∷ s) 0

abbrev pub in_range_pos : Option ℕ → Option ℤ
in_range_pos none = none
in_range_pos (some n) = if ltb n two_pow_63 then some (pos n) else none

abbrev pub in_range_neg : Option ℕ → Option ℤ
in_range_neg none = none
in_range_neg (some n) = if leb n two_pow_63 then some (neg n) else none

-- strconv.Atoi, where int has 64 bits.
unfoldable pub atoi : String → Option ℤ
unfolding magnitude
atoi [] = none
atoi (c ∷ s) =
    if nat_eq (code c) 45
    then in_range_neg (magnitude s)
    else if nat_eq (code c) 43
    then in_range_pos (magnitude s)
    else in_range_pos (magnitude (c ∷ s))

unfoldable pub get_int_or_default : String → ℤ → Env → ℤ
unfolding atoi
get_int_or_default key fallback env =
    let v = getenv key env in if v == "" then fallback else or_default fallback (atoi v)

module _ (parse_duration : String → Option ℤ) where
  -- The settings that have a default, and the two that have none.
  abbrev pub config_of : Env → String → String → Config
  config_of env dsn jwt_secret = record {
    log_level = get_env_or_default "LOG_LEVEL" "info" env;
    server = record {
      addr = get_env_or_default "SERVER_ADDR" ":8080" env;
      shutdown_timeout =
          get_duration_or_default parse_duration "SERVER_SHUTDOWN_TIMEOUT" (pos (10 * second)) env;
    };
    postgres = record { dsn = dsn };
    redis = record {
      addr = get_env_or_default "REDIS_ADDR" "localhost:6379" env;
      password = getenv "REDIS_PASSWORD" env;
    };
    auth = record {
      jwt_secret = jwt_secret;
      access_token_ttl =
          get_duration_or_default parse_duration "ACCESS_TOKEN_TTL" (pos (15 * minute)) env;
      refresh_token_ttl =
          get_duration_or_default parse_duration "REFRESH_TOKEN_TTL" (pos (7 * 24 * hour)) env;
    };
    policy = record {
      cache_refresh_interval =
          get_duration_or_default parse_duration "POLICY_CACHE_REFRESH" (pos (60 * second)) env;
      eval_timeout_ms = get_int_or_default "POLICY_EVAL_TIMEOUT_MS" (pos 5) env;
    };
    gateway = record {
      rate_limit_requests = get_int_or_default "RATE_LIMIT_REQUESTS" (pos 100) env;
      rate_limit_window =
          get_duration_or_default parse_duration "RATE_LIMIT_WINDOW" (pos minute) env;
      idempotency_ttl =
          get_duration_or_default parse_duration "IDEMPOTENCY_TTL" (pos (24 * hour)) env;
    };
  }

  -- Load behind loadDotEnv: the error of the first variable that is missing, or the configuration.
  abbrev pub with_jwt_secret : Env → String → String ⊎ String → String ⊎ Config
  with_jwt_secret env dsn (inl missing) = inl missing
  with_jwt_secret env dsn (inr jwt_secret) = inr (config_of env dsn jwt_secret)

  abbrev pub with_dsn : Env → String ⊎ String → String ⊎ Config
  with_dsn env (inl missing) = inl missing
  with_dsn env (inr dsn) = with_jwt_secret env dsn (require_env "JWT_SECRET" env)

  abbrev pub load_env : Env → String ⊎ Config
  load_env env = with_dsn env (require_env "POSTGRES_DSN" env)

  -- Load, with the `.env` file of the working directory, if there is one. It returns the environment
  -- that it leaves to the process.
  unfoldable pub load : Option String → Env → Env × (String ⊎ Config)
  unfolding load_dot_env require_env get_env_or_default get_duration_or_default get_int_or_default
  load file env = let env1 = load_dot_env file env in (env1, load_env env1)
