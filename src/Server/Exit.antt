-- ===== src/Server/Exit.antt =====
-- main of cmd/server/main.go: when the process exits with 0.
use chain_pulse.Prelude.{
  String, Bool, true, false, ◌≡◌, ◌≢◌, ◌↔◌, refl, sym, Option, none, some, ◌⊎◌, inl, inr, ne_false,
  subst,
}
use chain_pulse.Config.{Config, load}
use chain_pulse.Config.DotEnv.{Env}
use chain_pulse.Config.Loading.{load-secret}
use chain_pulse.Policy.{FloatOps}
use chain_pulse.Server.{
  Platform, PoolConfig, Wake, server_failed, signalled, Result, panicked, exit_code, issuer_panics,
  pool_checked, pool_created, pool_parsed, after_shutdown, wait, serve_until_stopped, with_pool,
  with_config, run, tuned,
}

-- The pool opens and answers.
abbrev pub PoolReady : Platform → String → Type 0
PoolReady p dsn =
    (parsed : PoolConfig) × (p.parse_config dsn ≡ some parsed)
    × (p.new_with_config (tuned parsed) ≡ true)
    × (p.ping_pool (tuned parsed) ≡ true)

-- A signal comes before an error of the server, and the shutdown ends in time.
abbrev pub StopsCleanly : Platform → Config → Type 0
StopsCleanly p cfg = (p.wake ≡ signalled) × (p.shutdown cfg.server.shutdown_timeout ≡ true)

-- The same of a parsed DSN.
abbrev Ready : Platform → Config → PoolConfig → Type 0
Ready p cfg c =
    (p.new_with_config (tuned c) ≡ true) × (p.ping_pool (tuned c) ≡ true) × StopsCleanly p cfg

some-injective : {a b : PoolConfig} → some a ≡ some b → a ≡ b
some-injective e = cc

module _ {F : Type 0} (p : Platform) (floats : FloatOps F) (cfg : Config) where
  -- The code that run's result gives, with what makes it 0.
  abbrev Decided : Result → Type 0 → Type 0
  Decided r P = ((exit_code r ≡ 0) ↔ P) × (r ≢ panicked)

  shutdown-Decided : (ended : Bool) → Decided (after_shutdown p floats ended).1 (ended ≡ true)
  shutdown-Decided true = ((λ h. refl, λ h. refl), λ e. cc)
  shutdown-Decided false = ((λ h. cc, λ h. cc), λ e. cc)

  wait-Decided :
      (wake : Wake)
      → Decided
          (wait p floats cfg wake).1
          ((wake ≡ signalled) × (p.shutdown cfg.server.shutdown_timeout ≡ true))
  wait-Decided server_failed = ((λ h. cc, λ h. cc), λ e. cc)
  wait-Decided signalled =
      let ((to, from), no_panic) = shutdown-Decided (p.shutdown cfg.server.shutdown_timeout) in
      ((λ h. (refl, to h), λ h. from h.1), no_panic)

  serve-Decided :
      issuer_panics cfg ≡ false
      → Decided (serve_until_stopped p floats cfg (issuer_panics cfg)).1 (StopsCleanly p cfg)
  serve-Decided quiet = rw quiet (wait-Decided p.wake)

  checked-Decided :
      (pool : PoolConfig) (answers : Bool)
      → issuer_panics cfg ≡ false
      → Decided
          (with_pool p floats cfg (pool_checked p pool answers)).1
          ((answers ≡ true) × StopsCleanly p cfg)
  checked-Decided pool true quiet =
      let ((to, from), no_panic) = serve-Decided quiet in
      ((λ h. (refl, to h), λ h. from h.1), no_panic)
  checked-Decided pool false quiet = ((λ h. cc, λ h. cc), λ e. cc)

  created-Decided :
      (pool : PoolConfig) (opened : Bool)
      → issuer_panics cfg ≡ false
      → Decided
          (with_pool p floats cfg (pool_created p pool opened)).1
          ((opened ≡ true) × (p.ping_pool pool ≡ true) × StopsCleanly p cfg)
  created-Decided pool true quiet =
      let ((to, from), no_panic) = checked-Decided pool (p.ping_pool pool) quiet in
      (
        (
          λ h. let (answers, stops) = to h in (refl, answers, stops),
          λ (e, answers, stops). from (answers, stops),
        ),
        no_panic,
      )
  created-Decided pool false quiet = ((λ h. cc, λ h. cc), λ e. cc)

  parsed-Decided :
      (parsed : Option PoolConfig)
      → issuer_panics cfg ≡ false
      → Decided (with_pool p floats cfg (pool_parsed p parsed)).1 (
          (c : PoolConfig) × (parsed ≡ some c)
          × (p.new_with_config (tuned c) ≡ true)
          × (p.ping_pool (tuned c) ≡ true)
          × StopsCleanly p cfg)
  parsed-Decided none quiet = ((λ h. cc, λ h. cc), λ e. cc)
  parsed-Decided (some c) quiet =
      let ((to, from), no_panic) = created-Decided (tuned c) (p.new_with_config (tuned c)) quiet in
      (
        (
          λ h. let (opens, answers, stops) = to h in (c, refl, opens, answers, stops),
          λ (c1, e, opens, answers, stops).
              from (subst (Ready p cfg) (sym (some-injective e)) (opens, answers, stops)),
        ),
        no_panic,
      )

inr-injective : {a b : Config} → Path (String ⊎ Config) (inr a) (inr b) → a ≡ b
inr-injective e = cc

-- What is known of the configuration that was read, of the one that run has.
abbrev Known : Platform → Config → Type 0
Known p cfg =
    (c : PoolConfig) × (p.parse_config cfg.postgres.dsn ≡ some c)
    × (p.new_with_config (tuned c) ≡ true)
    × (p.ping_pool (tuned c) ≡ true)
    × StopsCleanly p cfg

known :
    (p : Platform) (cfg cfg1 : Config)
    → Path (String ⊎ Config) (inr cfg) (inr cfg1)
    → PoolReady p cfg1.postgres.dsn
    → StopsCleanly p cfg1
    → Known p cfg
known p cfg cfg1 e (c, parses, opens, answers) stops =
    subst (Known p) (sym (inr-injective e)) (c, parses, opens, answers, stops)

with_config-Decided :
    {F : Type 0} (p : Platform) (floats : FloatOps F) (read : String ⊎ Config)
    → ((cfg : Config) → read ≡ inr cfg → cfg.auth.jwt_secret ≢ "")
    → ((exit_code (with_config p floats read).1 ≡ 0)
        ↔ ((cfg : Config) × (read ≡ inr cfg) × PoolReady p cfg.postgres.dsn × StopsCleanly p cfg))
      × ((with_config p floats read).1 ≢ panicked)
with_config-Decided p floats (inl missing) secret = ((λ h. cc, λ (cfg, e, r, s). cc), λ e. cc)
with_config-Decided p floats (inr cfg) secret =
    let ((to, from), no_panic) =
      parsed-Decided p floats cfg (p.parse_config cfg.postgres.dsn) (ne_false (secret cfg refl)) in
    (
      (
        λ h.
            let (c, parses, opens, answers, stops) = to h in
            (cfg, refl, (c, parses, opens, answers), stops),
        λ (cfg1, e, ready, stops). from (known p cfg cfg1 e ready stops),
      ),
      no_panic,
    )

-- main exits with 0 exactly if Load succeeds, the pool opens and answers, a signal comes before an
-- error of the server, and the shutdown ends in time, whether Redis is reachable or not; and it never
-- ends by the panic of NewIssuer.
pub main-Decided :
    {F : Type 0} (p : Platform) (floats : FloatOps F) (file : Option String) (env : Env)
    → ((exit_code (run p floats file env).1 ≡ 0) ↔ (
        (cfg : Config) × ((load p.parse_duration file env).1 ≡ inr cfg)
        × PoolReady p cfg.postgres.dsn
        × StopsCleanly p cfg))
      × ((run p floats file env).1 ≢ panicked)
unfolding run
main-Decided p floats file env =
    with_config-Decided p floats (load p.parse_duration file env).1
      (λ cfg h. load-secret p.parse_duration file env cfg h)
