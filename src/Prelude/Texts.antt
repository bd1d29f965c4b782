-- ===== src/Prelude/Texts.antt =====
-- Comparisons of native texts as equations.
use Prim.Native.String.{String}
use mathlib.Core.Path.{◌≡◌}
use mathlib.Core.Logic.{◌≢◌, ◌⊎◌}
use mathlib.Core.Bool.{Bool, true, false, ◌||◌}
use native.Mathlib.Omega.{arith}
use text.Mathlib.Text.{◌==◌}
use text.Mathlib.TextEquality.{eq_iff}

pub eq_true : {s t : String} → s ≡ t → (s == t) ≡ true
eq_true {s} {t} e = (eq_iff s t).1 e

pub ne_false : {s t : String} → s ≢ t → (s == t) ≡ false
ne_false {s} {t} n = ground (arith, eq_iff s t)

pub eq_of_true : {s t : String} → (s == t) ≡ true → s ≡ t
eq_of_true {s} {t} h = (eq_iff s t).0 h

pub ne_of_false : {s t : String} → (s == t) ≡ false → s ≢ t
ne_of_false {s} {t} h = ground (arith, eq_iff s t)

-- A disjunction of tests that holds, as a disjunction.
pub or_split : (a b : Bool) → (a || b) ≡ true → (a ≡ true) ⊎ (b ≡ true)
or_split a b h = ground arith
