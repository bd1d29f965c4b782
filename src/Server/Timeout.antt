-- ===== src/Server/Timeout.antt =====
-- The conversion of POLICY_EVAL_TIMEOUT_MS in run of cmd/server/main.go, and what the policy
-- engine does with the result.
use Prim.Native.Char.{Char}
use Prim.Native.String.{String, ◌∷◌}
use chain_pulse.Prelude.{
  ℕ, zero, suc, refl, List, pos_part, ◌*◌, ◌-◌, ◌≤◌, ◌<◌, Bool, true, false, ◌&&◌, ◌≡◌, sym, ap,
  ◌∙◌, arith, Option, some, none, ◌⊎◌, inl, inr, leb, ltb, ℤ, pos, neg, scale, wrap64, two_pow_63,
  two_pow_64, if◌then◌else◌, Bool-cases,
}
use native.Mathlib.Nat.{mod-eq_of_lt}
use chain_pulse.Config.{
  Config, require_env, with_jwt_secret, with_dsn, config_of, load, get_int_or_default, or_default,
}
use chain_pulse.Config.DotEnv.{Env, load_dot_env}
use chain_pulse.Config.Int.{is_sign, all_digits, place_value, bare, get_int_or_default-signed}
use chain_pulse.Policy.{Rule, Race, result_ready, Input, new_engine, evaluate}
use chain_pulse.Server.{millisecond, eval_timeout_of}

wrap64-small : (n : ℕ) → n < two_pow_63 → wrap64 (pos n) ≡ pos n
unfolding wrap64
wrap64-small n h =
    let low : n < two_pow_64 = omega (arith, h) in rw (mod-eq_of_lt low) (ground (arith, h))

wrap64-high : (n : ℕ) → two_pow_63 ≤ n → n < two_pow_64 → wrap64 (pos n) ≡ neg (two_pow_64 - n)
unfolding wrap64
wrap64-high n h l = rw (mod-eq_of_lt l) (ground (arith, h))

scaled :
    (n : ℕ)
    → n < 18446744073710
    → wrap64 (scale millisecond (pos n))
      ≡ (if leb n 9223372036854 then pos (millisecond * n) else neg (two_pow_64 - millisecond * n))
scaled n l = elim (Bool-cases (leb n 9223372036854)) [
  | inl small ↦ rw small (wrap64-small (millisecond * n) (ground arith))
  | inr big ↦ rw big (wrap64-high (millisecond * n) (ground arith) (ground arith))
]

pos_part-neg : (n : ℕ) → pos_part (neg n) ≡ 0
pos_part-neg zero = refl
pos_part-neg (suc n) = refl

-- Without a positive timeout no deadline passes.
evaluate-untimed :
    {F : Type 0} (rules : List (Rule F)) (timeout : ℤ) (race : Race) (inp : Input F)
    → pos_part timeout ≡ 0
    → evaluate (new_engine rules timeout) race inp
      ≡ evaluate (new_engine rules timeout) result_ready inp
unfolding evaluate new_engine
evaluate-untimed rules timeout race inp h = rw h refl

in_range :
    (digits : Bool) (n : ℕ)
    → digits ≡ true
    → n < two_pow_63
    → (if digits && ltb n two_pow_63 then some (pos n) else none) ≡ some (pos n)
in_range digits n d l = rw d (ground (arith, l))

module _ (parse_duration : String → Option ℤ) where
  abbrev read_ms : Env → ℤ
  read_ms env = get_int_or_default "POLICY_EVAL_TIMEOUT_MS" (pos 5) env

  ms-with_jwt_secret :
      (env : Env) (dsn : String) (read : String ⊎ String) (cfg : Config)
      → with_jwt_secret parse_duration env dsn read ≡ inr cfg
      → read_ms env ≡ cfg.policy.eval_timeout_ms
  ms-with_jwt_secret env dsn (inl missing) cfg h = cc
  ms-with_jwt_secret env dsn (inr v) cfg h =
      let same : config_of parse_duration env dsn v ≡ cfg = cc in
      ap (λ c. c.policy.eval_timeout_ms) same

  ms-with_dsn :
      (env : Env) (read : String ⊎ String) (cfg : Config)
      → with_dsn parse_duration env read ≡ inr cfg
      → read_ms env ≡ cfg.policy.eval_timeout_ms
  ms-with_dsn env (inl missing) cfg h = cc
  ms-with_dsn env (inr dsn) cfg h = ms-with_jwt_secret env dsn (require_env "JWT_SECRET" env) cfg h

  read_ms-digits :
      (env : Env) (c : Char) (s : String)
      → env "POLICY_EVAL_TIMEOUT_MS" ≡ some (c ∷ s)
      → is_sign c ≡ false
      → all_digits (c ∷ s) ≡ true
      → place_value (c ∷ s) < two_pow_63
      → read_ms env ≡ pos (place_value (c ∷ s))
  read_ms-digits env c s e sign digits small =
      (get_int_or_default-signed "POLICY_EVAL_TIMEOUT_MS" (pos 5) env bare c s sign e
        (omega arith)).0
      ∙ ap (or_default (pos 5)) (in_range (all_digits (c ∷ s)) (place_value (c ∷ s)) digits small)

  eval_timeout_of-value :
      (file : Option String) (env : Env) (cfg : Config) (c : Char) (s : String)
      → (load parse_duration file env).1 ≡ inr cfg
      → (load parse_duration file env).0 "POLICY_EVAL_TIMEOUT_MS" ≡ some (c ∷ s)
      → is_sign c ≡ false
      → all_digits (c ∷ s) ≡ true
      → place_value (c ∷ s) < 18446744073710
      → eval_timeout_of cfg ≡ (
          if leb (place_value (c ∷ s)) 9223372036854
          then pos (millisecond * place_value (c ∷ s))
          else neg (two_pow_64 - millisecond * place_value (c ∷ s)))
  unfolding load eval_timeout_of
  eval_timeout_of-value file env cfg c s h e sign digits small =
      let env1 = load_dot_env file env in
      ap (λ z. wrap64 (scale millisecond z))
        (sym (ms-with_dsn env1 (require_env "POSTGRES_DSN" env1) cfg h)
          ∙ read_ms-digits env1 c s e sign digits (omega (arith, small)))
      ∙ scaled (place_value (c ∷ s)) small

  -- If Load succeeds where POLICY_EVAL_TIMEOUT_MS is a text of decimal digits for a number of
  -- milliseconds below 18446744073710, the engine's timeout is that many milliseconds up to
  -- 9223372036854, and from there on it has wrapped to a negative duration. The engine with that
  -- timeout, whatever its rules are, then answers every request as if the result were always ready:
  -- no deadline can pass.
  pub eval_timeout_of-load :
      {F : Type 0} (file : Option String) (env : Env) (cfg : Config) (c : Char) (s : String)
      (rules : List (Rule F)) (race : Race) (inp : Input F)
      → (load parse_duration file env).1 ≡ inr cfg
      → (load parse_duration file env).0 "POLICY_EVAL_TIMEOUT_MS" ≡ some (c ∷ s)
      → is_sign c ≡ false
      → all_digits (c ∷ s) ≡ true
      → place_value (c ∷ s) < 18446744073710
      → (eval_timeout_of cfg ≡ (
          if leb (place_value (c ∷ s)) 9223372036854
          then pos (millisecond * place_value (c ∷ s))
          else neg (two_pow_64 - millisecond * place_value (c ∷ s))))
        × (evaluate (new_engine rules (eval_timeout_of cfg)) race inp
            ≡ evaluate
                (new_engine rules (eval_timeout_of cfg))
                (if leb (place_value (c ∷ s)) 9223372036854 then race else result_ready)
                inp)
  eval_timeout_of-load file env cfg c s rules race inp h e sign digits small =
      let value = eval_timeout_of-value file env cfg c s h e sign digits small in
      (
        value,
        elim (Bool-cases (leb (place_value (c ∷ s)) 9223372036854)) [
          | inl fits ↦ rw fits refl
          | inr wraps ↦ rw wraps (
              evaluate-untimed rules (eval_timeout_of cfg) race inp
                (ap pos_part (rw wraps at value) ∙ pos_part-neg _))
        ],
      )
