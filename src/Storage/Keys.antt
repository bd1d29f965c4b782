-- ===== src/Storage/Keys.antt =====
-- Redis.Key of shared/storage/redis.go: when two tenants' keys stay apart.
use Prim.Native.String.{String, ◌++◌}
use text.Mathlib.TextLemmas.{append_cancel_left}
use chain_pulse.Prelude.{◌≡◌, refl, sym, ◌∙◌, ap, Lacks, split_at, separator-append}
use chain_pulse.Storage.{key}

-- The text does not hold the character that separates the parts of a key.
abbrev pub NoColon : String → Type 0
NoColon = Lacks b':'

-- Tenants whose identifiers hold no colon never share a key, whatever the suffixes are.
pub key_injective :
    (a b x y : String) → NoColon a → NoColon b → key a x ≡ key b y → (a ≡ b) × (x ≡ y)
unfolding key
key_injective a b x y p q e = split_at ":" a b x y p q (
    ap (◌++◌ a) (sym (separator-append ":" x))
    ∙ append_cancel_left "tenant:" _ _ e
    ∙ ap (◌++◌ b) (separator-append ":" y))

-- With a colon in an identifier two tenants can meet in one key.
pub key_collision : key "a" "b:c" ≡ key "a:b" "c"
unfolding key
key_collision = refl
