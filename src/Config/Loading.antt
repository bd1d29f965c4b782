-- ===== src/Config/Loading.antt =====
-- Load of shared/config/config.go: which secrets a loaded configuration holds.
use chain_pulse.Prelude.{
  ℕ, String, ◌≡◌, ◌≢◌, refl, ap, ◌∙◌, arith, ◌⊎◌, inl, inr, ◌==◌, Option, some, ne_false,
  ne_of_false, subst, Bool-cases, if◌then◌else◌, ℤ,
}
use chain_pulse.Config.{
  Config, getenv, require_env, with_dsn, with_jwt_secret, load_env, config_of, load,
}
use chain_pulse.Config.DotEnv.{Env, load_dot_env}
use chain_pulse.Config.DotEnv.Precedence.{load_dot_env-keeps}
use chain_pulse.Auth.Token.{new_issuer}

require_env-some :
    (key v : String) (env : Env) → env key ≡ some v → v ≢ "" → require_env key env ≡ inr v
unfolding require_env
require_env-some key v env e n = rw (e, ne_false n) refl

not_empty : (key v w : String) → (if v == "" then inl key else inr v) ≡ inr w → w ≢ ""
not_empty key v w h = elim (Bool-cases (v == "")) [
  | inl empty ↦ absurd (ground (arith, h, empty))
  | inr other ↦
      let same : v ≡ w = ground (arith, h, other) in subst (λ t. t ≢ "") same (ne_of_false other)
]

require_env-inr : (key : String) (env : Env) (v : String) → require_env key env ≡ inr v → v ≢ ""
unfolding require_env
require_env-inr key env v h = not_empty key (getenv key env) v h

new_issuer-some :
    (secret : String) (access_ttl refresh_ttl : ℕ)
    → secret ≢ ""
    → new_issuer secret access_ttl refresh_ttl
      ≡ some (record { secret = secret; access_ttl = access_ttl; refresh_ttl = refresh_ttl })
unfolding new_issuer
new_issuer-some secret access_ttl refresh_ttl n = rw (ne_false n) refl

module _ (parse_duration : String → Option ℤ) where
  load_env-some :
      (env : Env) (dsn jwt_secret : String)
      → env "POSTGRES_DSN" ≡ some dsn
      → env "JWT_SECRET" ≡ some jwt_secret
      → dsn ≢ ""
      → jwt_secret ≢ ""
      → load_env parse_duration env ≡ inr (config_of parse_duration env dsn jwt_secret)
  load_env-some env dsn jwt_secret d s nd ns =
      ap (with_dsn parse_duration env) (require_env-some "POSTGRES_DSN" dsn env d nd)
      ∙ ap (with_jwt_secret parse_duration env dsn)
          (require_env-some "JWT_SECRET" jwt_secret env s ns)

  -- If the environment of the process has a POSTGRES_DSN and a JWT_SECRET that are not empty, Load
  -- succeeds whatever the `.env` file holds and however its other settings are malformed. The
  -- configuration holds the environment's two values, and NewIssuer does not panic on it.
  pub load-real_env :
      (file : Option String) (env : Env) (dsn jwt_secret : String) (access_ttl refresh_ttl : ℕ)
      → env "POSTGRES_DSN" ≡ some dsn
      → env "JWT_SECRET" ≡ some jwt_secret
      → dsn ≢ ""
      → jwt_secret ≢ ""
      → (c : Config) × ((load parse_duration file env).1 ≡ inr c)
        × (c.postgres.dsn ≡ dsn)
        × (c.auth.jwt_secret ≡ jwt_secret)
        × (new_issuer c.auth.jwt_secret access_ttl refresh_ttl
            ≡ some (record {
              secret = jwt_secret;
              access_ttl = access_ttl;
              refresh_ttl = refresh_ttl;
            }))
  unfolding load
  load-real_env file env dsn jwt_secret access_ttl refresh_ttl d s nd ns =
      let env1 = load_dot_env file env in
      (
        config_of parse_duration env1 dsn jwt_secret,
        load_env-some env1 dsn jwt_secret (load_dot_env-keeps "POSTGRES_DSN" dsn file env d)
            (load_dot_env-keeps "JWT_SECRET" jwt_secret file env s) nd ns,
        refl,
        refl,
        new_issuer-some jwt_secret access_ttl refresh_ttl ns,
      )

  secret-with_jwt_secret :
      (env : Env) (dsn : String) (read : String ⊎ String) (cfg : Config)
      → ((v : String) → read ≡ inr v → v ≢ "")
      → with_jwt_secret parse_duration env dsn read ≡ inr cfg
      → cfg.auth.jwt_secret ≢ ""
  secret-with_jwt_secret env dsn (inl missing) cfg n h = cc
  secret-with_jwt_secret env dsn (inr v) cfg n h =
      let same : config_of parse_duration env dsn v ≡ cfg = cc in
      subst (λ c. c.auth.jwt_secret ≢ "") same (n v refl)

  secret-with_dsn :
      (env : Env) (read : String ⊎ String) (cfg : Config)
      → with_dsn parse_duration env read ≡ inr cfg
      → cfg.auth.jwt_secret ≢ ""
  secret-with_dsn env (inl missing) cfg h = cc
  secret-with_dsn env (inr dsn) cfg h =
      secret-with_jwt_secret env dsn (require_env "JWT_SECRET" env) cfg
        (require_env-inr "JWT_SECRET" env) h

  pub load-secret :
      (file : Option String) (env : Env) (cfg : Config)
      → (load parse_duration file env).1 ≡ inr cfg
      → cfg.auth.jwt_secret ≢ ""
  unfolding load
  load-secret file env cfg h = secret-with_dsn (load_dot_env file env) _ cfg h
