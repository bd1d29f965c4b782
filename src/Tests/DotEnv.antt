-- ===== src/Tests/DotEnv.antt =====
-- TestLoadDotEnv of shared/config/config_test.go.
use chain_pulse.Prelude.{
  String, ◌==◌, ◌≡◌, refl, none, some, if◌then◌else◌, trim_left, trim_right, trim_space,
}
use chain_pulse.Config.DotEnv.{
  Env, split_lines, drop_cr, scan, cut, holds, cut_blank, read_value, read_line, setenv,
  apply_lines, load_dot_env,
}

abbrev contents : String
contents =
    "LOG_LEVEL=debug          # inline comment must be stripped\n# a full-line comment\n\nREDIS_PASSWORD=\"p@ss#word\"  # quoted value keeps its hash\nPREEXISTING=from_file\n"

abbrev before : Env
before key = if key == "PREEXISTING" then some "from_env" else none

-- The inline comment is stripped, the quoted hash is kept, and the environment wins.
settings :
    (load_dot_env (some contents) before "LOG_LEVEL" ≡ some "debug")
    × (load_dot_env (some contents) before "REDIS_PASSWORD" ≡ some "p@ss#word")
    × (load_dot_env (some contents) before "PREEXISTING" ≡ some "from_env")
unfolding load_dot_env split_lines drop_cr scan cut holds cut_blank read_value read_line setenv
    apply_lines trim_left trim_right trim_space
settings = (refl, refl, refl)
