-- ===== src/Logger.antt =====
-- shared/logger/logger.go, with what the source uses of log/slog: levels, the attributes of a logger,
-- and that a logger drops what stands below its level.
use chain_pulse.Prelude.{
  String, Bool, true, false, ◌||◌, ◌==◌, ◌≡◌, refl, List, [], ◌∷◌, ◌++◌, if◌then◌else◌,
}

pub data Level : Type 0 where
  level_debug level_info level_warn level_error : Level

-- ParseLevel
unfoldable pub parse_level : String → Level
parse_level s =
    if s == "debug" || s == "DEBUG"
    then level_debug
    else if s == "warn" || s == "WARN" || s == "warning"
    then level_warn
    else if s == "error" || s == "ERROR"
    then level_error
    else level_info

-- A logger with its handler's level; the attributes come on every line.
pub record Logger : Type 0 where
  pub level : Level
  pub attributes : List (String × String)

-- New
abbrev pub new_logger : Level → Logger
new_logger level = record { level = level; attributes = [] }

-- slog.Default(), which nothing in the source replaces.
abbrev pub default_logger : Logger
default_logger = new_logger level_info

-- With
abbrev pub with_attributes : List (String × String) → Logger → Logger
with_attributes more l = record l { attributes = l.attributes ++ more }

-- Whether Info writes anything.
abbrev pub writes_info : Level → Bool
writes_info level_debug = true
writes_info level_info = true
writes_info level_warn = false
writes_info level_error = false

-- Info, onto the lines of the log, newest first.
abbrev pub info {ℓ} : {A : Type ℓ} → Logger → A → List A → List A
info l line lines = if writes_info l.level then line ∷ lines else lines

pub info_written {ℓ} :
    {A : Type ℓ} (l : Logger) (line : A) (lines : List A)
    → writes_info l.level ≡ true
    → info l line lines ≡ line ∷ lines
info_written l line lines h = rw h refl

pub info_dropped {ℓ} :
    {A : Type ℓ} (l : Logger) (line : A) (lines : List A)
    → writes_info l.level ≡ false
    → info l line lines ≡ lines
info_dropped l line lines h = rw h refl
