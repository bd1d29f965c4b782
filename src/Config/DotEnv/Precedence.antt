-- ===== src/Config/DotEnv/Precedence.antt =====
-- Which variables loadDotEnv of shared/config/config.go leaves alone.
use mathlib.Core.List.{List}
use chain_pulse.Prelude.{
  String, ◌≡◌, arith, Option, none, some, Option-cases, Bool-cases, inl, inr, eq_of_true, ◌==◌,
}
use chain_pulse.Config.DotEnv.{
  Env, setenv, set_absent, apply_line, apply_lines, load_dot_env, read_line, scan, split_lines,
}

module _ (k v : String) where
  set_absent-keeps :
      (key value : String) (env : Env)
      → env k ≡ some v
      → set_absent key value (env key) env k ≡ some v
  unfolding setenv
  set_absent-keeps key value env h = elim (Option-cases (env key)) [
    | inl absent ↦ elim (Bool-cases (k == key)) [
      | inl same ↦ absurd (ground (arith, rw (eq_of_true same) at h))
      | inr other ↦ rw (absent, other) (ground arith)
    ]
    | inr (old, e) ↦ rw e h
  ]

  apply_line-keeps :
      (pair : Option (String × String)) (env : Env)
      → env k ≡ some v
      → apply_line pair env k ≡ some v
  apply_line-keeps none env h = h
  apply_line-keeps (some (key, value)) env h = set_absent-keeps key value env h

  apply_lines-keeps :
      (ls : List String) (env : Env) → env k ≡ some v → apply_lines ls env k ≡ some v
  unfolding apply_lines
  apply_lines-keeps List.[] env h = h
  apply_lines-keeps (List.◌∷◌ l ls) env h =
      apply_lines-keeps ls _ (apply_line-keeps (read_line l) env h)

  -- A variable that the environment has, even an empty one, keeps its value, whatever the file says.
  pub load_dot_env-keeps :
      (file : Option String) (env : Env) → env k ≡ some v → load_dot_env file env k ≡ some v
  unfolding load_dot_env
  load_dot_env-keeps none env h = h
  load_dot_env-keeps (some file) env h = apply_lines-keeps (scan (split_lines file)) env h
