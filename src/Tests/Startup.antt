-- ===== src/Tests/Startup.antt =====
-- The configuration and the start of the process on concrete environments.
use chain_pulse.Prelude.{
  ℕ, String, true, false, ◌≡◌, ◌≢◌, ◌↔◌, ◌-◌, ◌*◌, two_pow_64, neg, refl, arith, Option, none, some,
  List, [], ◌∷◌, ℤ, ne_of_false, inr,
}
use chain_pulse.Config.{Config, load, require_env, config_of}
use chain_pulse.Config.DotEnv.{Env, load_dot_env}
use chain_pulse.Config.DotEnv.Format.{print}
use chain_pulse.Config.DotEnv.RoundTrip.{load_dot_env-print}
use chain_pulse.Config.Loading.{load-real_env}
use chain_pulse.Server.{Platform, signalled, panicked, exit_code, run, eval_timeout_of}
use chain_pulse.Server.Resources.{replay, run-Nested}
use chain_pulse.Server.Exit.{PoolReady, StopsCleanly, main-Decided}
use chain_pulse.Server.Timeout.{eval_timeout_of-load}
use chain_pulse.Auth.Token.{new_issuer}
use chain_pulse.Tests.Engine.{floats, asks}
use chain_pulse.Policy.{Input, action_read, deadline_passed, result_ready, new_engine, evaluate}
use chain_pulse.Policy.Rules.{default_rules}

abbrev no_env : Env
no_env key = none

abbrev entries : List (String × String)
entries = ("DB_PASSWORD", "a # b = c") ∷ ("DB_PASSWORD", "second") ∷ []

load_dot_env-print_example :
    load_dot_env (some (print entries)) no_env "DB_PASSWORD" ≡ some "a # b = c"
load_dot_env-print_example = load_dot_env-print entries no_env "DB_PASSWORD" (
  record {
    key_ne_nil = ne_of_false refl;
    key_chars = refl;
    value_chars = refl;
    fits = omega arith;
  },
  (
    record {
      key_ne_nil = ne_of_false refl;
      key_chars = refl;
      value_chars = refl;
      fits = omega arith;
    },
    tt,
  ),
)

-- An environment with every setting the same text.
abbrev production : Env
production key = some "9223372036855"

abbrev no_duration : String → Option ℤ
no_duration s = none

load-real_env_example :
    (c : Config) × ((load no_duration (some "JWT_SECRET=other") production).1 ≡ inr c)
    × (c.postgres.dsn ≡ "9223372036855")
    × (c.auth.jwt_secret ≡ "9223372036855")
    × (new_issuer c.auth.jwt_secret 900 3600
        ≡ some (record { secret = "9223372036855"; access_ttl = 900; refresh_ttl = 3600 }))
load-real_env_example =
    load-real_env no_duration (some "JWT_SECRET=other") production "9223372036855" "9223372036855"
      900 3600 refl refl (ne_of_false refl) (ne_of_false refl)

abbrev platform : Platform
platform = record {
  parse_duration = no_duration;
  ping_redis = λ options. false;
  parse_config = λ dsn. some (record {
    connection = dsn;
    max_conns = 4;
    min_conns = 0;
    max_conn_idle_time = 0;
    max_conn_lifetime = 0;
  });
  new_with_config = λ cfg. true;
  ping_pool = λ cfg. true;
  wake = signalled;
  shutdown = λ timeout. true;
}

run-Nested_example : replay (run platform floats none production).0 (some []) ≡ some []
run-Nested_example = run-Nested platform floats none production

main-Decided_example :
    ((exit_code (run platform floats none production).1 ≡ 0) ↔ (
      (cfg : Config) × ((load no_duration none production).1 ≡ inr cfg)
      × PoolReady platform cfg.postgres.dsn
      × StopsCleanly platform cfg))
    × ((run platform floats none production).1 ≢ panicked)
main-Decided_example = main-Decided platform floats none production

abbrev loaded : Config
loaded = config_of no_duration production "9223372036855" "9223372036855"

abbrev asked : Input ℕ
asked = asks action_read 5

-- One millisecond more than what a Duration holds.
eval_timeout_of-load_example :
    (eval_timeout_of loaded ≡ neg (two_pow_64 - 9223372036855 * 1000000))
    × (evaluate (new_engine (default_rules floats) (eval_timeout_of loaded)) deadline_passed asked
        ≡ evaluate (new_engine (default_rules floats) (eval_timeout_of loaded)) result_ready asked)
unfolding load load_dot_env require_env
eval_timeout_of-load_example =
    eval_timeout_of-load no_duration none production loaded "9" "223372036855"
      (default_rules floats) deadline_passed asked refl refl refl refl (omega arith)
