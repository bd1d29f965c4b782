-- ===== src/Config/DotEnv/Format.antt =====
-- Files of lines `KEY="value"` as loadDotEnv of shared/config/config.go reads them, and what they mean.
use Prim.Native.Char.{Char, code}
use Prim.Native.String.{String, [], ◌∷◌, ◌++◌, len}
use mathlib.Core.List.{List}
use chain_pulse.Prelude.{
  ◌+◌, ◌<◌, Bool, true, not, ◌&&◌, ◌==◌, ◌≡◌, ◌≢◌, Option, none, some, nat_eq, is_space,
  if◌then◌else◌,
}
use chain_pulse.Config.DotEnv.{max_scan_token_size}

-- The characters of a key: no white space, `=`, `#` or NUL.
abbrev pub is_key_char : Char → Bool
is_key_char c =
    not (is_space c)
    && not (nat_eq (code c) 61)
    && not (nat_eq (code c) 35)
    && not (nat_eq (code c) 0)

-- Those of a quoted value: no newline, double quote or NUL.
abbrev pub is_value_char : Char → Bool
is_value_char c = not (nat_eq (code c) 10) && not (nat_eq (code c) 34) && not (nat_eq (code c) 0)

abbrev pub all_of : (Char → Bool) → String → Bool
all_of p [] = true
all_of p (c ∷ s) = p c && all_of p s

-- KEY="value", which the format can express in one line.
pub record IsEntry (key value : String) : Type 0 where
  pub key_ne_nil : key ≢ []
  pub key_chars : all_of is_key_char key ≡ true
  pub value_chars : all_of is_value_char value ≡ true
  pub fits : len key + len value + 3 < max_scan_token_size

abbrev pub quote : Char
quote = "\""

abbrev pub equals : Char
equals = "="

abbrev pub newline : Char
newline = "\n"

abbrev pub print_line : String → String → String
print_line key value = key ++ (equals ∷ quote ∷ (value ++ (quote ∷ [])))

unfoldable pub print : List (String × String) → String
print List.[] = []
print (List.◌∷◌ (key, value) es) = print_line key value ++ (newline ∷ print es)

-- What the entries say of a variable: the first one that names it counts.
abbrev pub lookup : String → List (String × String) → Option String
lookup j List.[] = none
lookup j (List.◌∷◌ (key, value) es) = if j == key then some value else lookup j es

abbrev pub or_else : Option String → Option String → Option String
or_else none b = b
or_else (some a) b = some a

abbrev pub AllEntries : List (String × String) → Type 0
AllEntries List.[] = Unit
AllEntries (List.◌∷◌ (key, value) es) = IsEntry key value × AllEntries es
