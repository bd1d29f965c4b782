-- ===== src/Config/DotEnv.antt =====
-- loadDotEnv of shared/config/config.go, with what it uses of bufio, strings and os. A file is the
-- text that it holds.
pub mod Precedence
pub mod Format
mod Characters
mod Keys
pub mod RoundTrip
use Prim.Native.Char.{Char, code}
use Prim.Native.String.{String, [], ◌∷◌, len}
use chain_pulse.Prelude.{
  ℕ, Bool, true, false, not, ◌&&◌, ◌||◌, ◌==◌, Option, none, some, ltb, leb, nat_eq, trim_space,
  if◌then◌else◌,
}
use mathlib.Core.List
use mathlib.Core.List.{List}

-- The environment of the process.
abbrev pub Env : Type 0
Env = String → Option String

-- A line in front of the others, with one more character.
abbrev pub push : Char → List String → List String
push c List.[] = List.◌∷◌ (c ∷ []) List.[]
push c (List.◌∷◌ l ls) = List.◌∷◌ (c ∷ l) ls

-- The lines of a text: no line follows a newline at its end.
unfoldable pub split_lines : String → List String
split_lines [] = List.[]
split_lines (c ∷ s) =
    let rest = split_lines s in if nat_eq (code c) 10 then List.◌∷◌ [] rest else push c rest

-- Without one carriage return at the end.
unfoldable pub drop_cr : String → String
drop_cr [] = []
drop_cr (c ∷ s) = if nat_eq (code c) 13 && s == [] then [] else c ∷ drop_cr s

abbrev pub max_scan_token_size : ℕ
max_scan_token_size = 65536

-- bufio.Scanner with ScanLines: the lines up to the first that does not fit into the buffer, where
-- the scan ends.
unfoldable pub scan : List String → List String
unfolding drop_cr
scan List.[] = List.[]
scan (List.◌∷◌ l ls) =
    let rest = scan ls in
    if ltb (len l) max_scan_token_size then List.◌∷◌ (drop_cr l) rest else List.[]

-- strings.Cut and strings.IndexByte at a character of ASCII: what is before it, and after it.
unfoldable pub cut : ℕ → String → Option (String × String)
cut b [] = none
cut b (c ∷ s) =
    let rest = cut b s in
    if nat_eq (code c) b
    then some ([], s)
    else (elim rest [ none ↦ none | some (before, after) ↦ some (c ∷ before, after) ])

unfoldable pub holds : ℕ → String → Bool
holds b [] = false
holds b (c ∷ s) = nat_eq (code c) b || holds b s

-- Unquoted value: what is before the first space or tab, if a `#` stands somewhere behind that.
unfoldable pub cut_blank : String → Option (String × String)
cut_blank [] = none
cut_blank (c ∷ s) =
    let rest = cut_blank s in
    if nat_eq (code c) 32 || nat_eq (code c) 9
    then some ([], c ∷ s)
    else (elim rest [ none ↦ none | some (before, from) ↦ some (c ∷ before, from) ])

abbrev pub strip_from : String → Option (String × String) → String
strip_from value none = value
strip_from value (some (before, from)) = if holds 35 from then trim_space before else value

abbrev pub strip_comment : String → String
strip_comment value = strip_from value (cut_blank value)

-- Up to the closing quote, or all of it.
abbrev pub up_to : String → Option (String × String) → String
up_to rest none = rest
up_to rest (some (before, after)) = before

unfoldable pub read_value : String → String
unfolding cut holds cut_blank trim_space
read_value [] = strip_comment []
read_value (c ∷ s) =
    if nat_eq (code c) 34 || nat_eq (code c) 39
    then up_to s (cut (code c) s)
    else strip_comment (c ∷ s)

abbrev pub is_comment : String → Bool
is_comment [] = true
is_comment (c ∷ s) = nat_eq (code c) 35

abbrev pub read_pair : Option (String × String) → Option (String × String)
read_pair none = none
read_pair (some (key, value)) = some (trim_space key, read_value (trim_space value))

-- One line: blank lines, comments and lines without `=` give nothing.
unfoldable pub read_line : String → Option (String × String)
unfolding cut read_value trim_space
read_line text =
    let line = trim_space text in if is_comment line then none else read_pair (cut 61 line)

-- os.Setenv: it refuses an empty key, a key with `=` and a NUL anywhere; the error is dropped.
unfoldable pub setenv : String → String → Env → Env
unfolding holds
setenv key value env j =
    if key == [] || holds 61 key || holds 0 key || holds 0 value
    then env j
    else if j == key
    then some value
    else env j

abbrev pub set_absent : String → String → Option String → Env → Env
set_absent key value (some old) env = env
set_absent key value none env = setenv key value env

abbrev pub apply_line : Option (String × String) → Env → Env
apply_line none env = env
apply_line (some (key, value)) env = set_absent key value (env key) env

unfoldable pub apply_lines : List String → Env → Env
unfolding read_line setenv
apply_lines List.[] env = env
apply_lines (List.◌∷◌ l ls) env = apply_lines ls (apply_line (read_line l) env)

-- loadDotEnv; a file that cannot be opened is `none`.
unfoldable pub load_dot_env : Option String → Env → Env
unfolding split_lines scan apply_lines
load_dot_env none env = env
load_dot_env (some file) env = apply_lines (scan (split_lines file)) env
