-- ===== src/Config/DotEnv/RoundTrip.antt =====
-- loadDotEnv of shared/config/config.go reads a printed file back.
use Prim.Native.String.len
use Prim.Native.String.{String, [], ◌∷◌, ◌++◌, len}
use text.Mathlib.TextLemmas.{cons-append, append_assoc}
use text.Mathlib.TextPositions.{len-append}
use mathlib.Core.List.{List}
use chain_pulse.Prelude.{
  ◌+◌, true, false, ◌==◌, ◌≡◌, refl, sym, ap, ◌∙◌, arith, Option, none, some, Option-cases,
  Bool-cases, inl, inr, ltb, eq_of_true, trim_right, trim_space, if◌then◌else◌, ne_false,
}
use chain_pulse.Config.DotEnv.{
  Env, split_lines, drop_cr, max_scan_token_size, scan, holds, read_value, up_to, read_line, setenv,
  set_absent, apply_line, apply_lines, load_dot_env,
}
use chain_pulse.Config.DotEnv.Format.{
  is_key_char, is_value_char, IsEntry, quote, equals, newline, print_line, print, lookup, or_else,
  AllEntries,
}
use chain_pulse.Config.DotEnv.Characters.{
  holds-false, cut-append, split_lines-append, drop_cr-quoted, trim_right-quoted, holds-append,
}
use chain_pulse.Config.DotEnv.Keys.{
  trim_left-key, trim_space-key, trim_space-quoted, no_comment, cut-key,
}

print_line-quoted :
    (key value : String) → print_line key value ≡ (key ++ (equals ∷ quote ∷ value)) ++ (quote ∷ [])
print_line-quoted key value =
    rw
      (
        append_assoc key (equals ∷ quote ∷ value) (quote ∷ []),
        cons-append equals (quote ∷ value) (quote ∷ []),
        cons-append quote value (quote ∷ []),
      )
      refl

or_else-none : (a : Option String) → or_else a none ≡ a
or_else-none none = refl
or_else-none (some a) = refl

or_else_assoc : (a b c : Option String) → or_else (or_else a b) c ≡ or_else a (or_else b c)
or_else_assoc none b c = refl
or_else_assoc (some a) b c = refl

module _ {key value : String} (ok : IsEntry key value) where
  line-trimmed : trim_space (print_line key value) ≡ print_line key value
  unfolding trim_space
  line-trimmed =
      ap trim_right (trim_left-key key _ (ok.key_ne_nil) (ok.key_chars))
      ∙ ap trim_right (print_line-quoted key value)
      ∙ trim_right-quoted (key ++ (equals ∷ quote ∷ value))
      ∙ sym (print_line-quoted key value)

  read_value-quoted : read_value (quote ∷ (value ++ (quote ∷ []))) ≡ value
  unfolding read_value
  read_value-quoted = ap (up_to (value ++ (quote ∷ []))) (
      cut-append 34 value quote []
        (holds-false 34 is_value_char value (λ c h. ground arith) (ok.value_chars)) refl)

  read_line-print_line : read_line (print_line key value) ≡ some (key, value)
  unfolding read_line
  read_line-print_line =
      rw
        (
          line-trimmed,
          no_comment key _ (ok.key_ne_nil) (ok.key_chars),
          cut-key key (quote ∷ (value ++ (quote ∷ []))) (ok.key_chars),
          trim_space-key key (ok.key_ne_nil) (ok.key_chars),
        )
        (ap (λ v. some (key, read_value v)) (trim_space-quoted value)
          ∙ ap (λ v. some (key, v)) read_value-quoted)

  one_line : holds 10 (print_line key value) ≡ false
  unfolding holds
  one_line =
      rw
        (
          holds-append 10 key (equals ∷ quote ∷ (value ++ (quote ∷ []))),
          holds-false 10 is_key_char key (λ c h. ground arith) (ok.key_chars),
          holds-append 10 value (quote ∷ []),
          holds-false 10 is_value_char value (λ c h. ground arith) (ok.value_chars),
        )
        refl

  len-print_line : len (print_line key value) ≡ len key + len value + 3
  len-print_line = omega (
    arith,
    len-append key (equals ∷ quote ∷ (value ++ (quote ∷ []))),
    len.cons equals (quote ∷ (value ++ (quote ∷ []))),
    len.cons quote (value ++ (quote ∷ [])),
    len-append value (quote ∷ []),
  )

  scan-print_line :
      (rest : String)
      → scan (split_lines (print_line key value ++ (newline ∷ rest)))
        ≡ List.◌∷◌ (print_line key value) (scan (split_lines rest))
  unfolding scan
  scan-print_line rest =
      let short : ltb (len (print_line key value)) max_scan_token_size ≡ true =
        ground (arith, len-print_line, ok.fits) in
      rw (split_lines-append (print_line key value) rest one_line, short)
        (ap (λ l. List.◌∷◌ l (scan (split_lines rest)))
          (ap drop_cr (print_line-quoted key value)
            ∙ drop_cr-quoted (key ++ (equals ∷ quote ∷ value))
            ∙ sym (print_line-quoted key value)))

  valid_key : holds 61 key ≡ false
  valid_key = holds-false 61 is_key_char key (λ c h. ground arith) (ok.key_chars)

  set_absent-print :
      (env : Env) (j : String)
      → set_absent key value (env key) env j
        ≡ or_else (env j) (if j == key then some value else none)
  unfolding setenv
  set_absent-print env j =
      let key_nul : holds 0 key ≡ false =
        holds-false 0 is_key_char key (λ c h. ground arith) (ok.key_chars) in
      let value_nul : holds 0 value ≡ false =
        holds-false 0 is_value_char value (λ c h. ground arith) (ok.value_chars) in
      let key_set : (key == []) ≡ false = ne_false (ok.key_ne_nil) in
      elim (Option-cases (env key)) [
        | inl absent ↦ elim (Bool-cases (j == key)) [
          | inl same ↦
              rw
                (
                  absent,
                  key_set,
                  valid_key,
                  key_nul,
                  value_nul,
                  same,
                  ap env (eq_of_true same) ∙ absent,
                )
                refl
          | inr other ↦
              rw (absent, key_set, valid_key, key_nul, value_nul, other)
                (sym (or_else-none (env j)))
        ]
        | inr (old, e) ↦ elim (Bool-cases (j == key)) [
          | inl same ↦ rw (e, same, ap env (eq_of_true same) ∙ e) refl
          | inr other ↦ rw (e, other) (sym (or_else-none (env j)))
        ]
      ]

lookup-cons :
    (j key value : String) (es : List (String × String))
    → lookup j (List.◌∷◌ (key, value) es)
      ≡ or_else (if j == key then some value else none) (lookup j es)
lookup-cons j key value es = ground arith

apply_lines-print :
    (es : List (String × String)) (env : Env) (j : String)
    → AllEntries es
    → apply_lines (scan (split_lines (print es))) env j ≡ or_else (env j) (lookup j es)
unfolding apply_lines split_lines scan print
apply_lines-print List.[] env j ok = sym (or_else-none (env j))
apply_lines-print (List.◌∷◌ (key, value) es) env j (ok, oks) =
    let rest = scan (split_lines (print es)) in
    (ap (λ ls. apply_lines ls env j) (scan-print_line ok (print es))
      ∙ ap (λ o. apply_lines rest (apply_line o env) j) (read_line-print_line ok)
      ∙ apply_lines-print es (set_absent key value (env key) env) j oks
      ∙ ap (λ o. or_else o (lookup j es)) (set_absent-print ok env j)
      ∙ or_else_assoc (env j) _ (lookup j es)
      ∙ ap (or_else (env j)) (sym (lookup-cons j key value es)))

-- A file of lines `KEY="value"`, its keys free of white space, `=`, `#` and NUL, its values free of
-- newlines, double quotes and NUL, each line shorter than the scanner's buffer, gives every variable
-- that the environment lacks the value of the first line that names it, whatever else the value
-- holds (`#`, blanks, `=`), and changes no other variable.
pub load_dot_env-print :
    (es : List (String × String)) (env : Env) (j : String)
    → AllEntries es
    → load_dot_env (some (print es)) env j ≡ or_else (env j) (lookup j es)
unfolding load_dot_env
load_dot_env-print es env j ok = apply_lines-print es env j ok
