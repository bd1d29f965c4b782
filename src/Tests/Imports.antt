-- ===== src/Tests/Imports.antt =====
-- Repositories that archlint passes and refuses.
use text.Mathlib.Text.{starts_with}
use text.Mathlib.TextBridge.{IsPrefix}
use text.Mathlib.TextEquality.{starts_with_iff}
use chain_pulse.Prelude.{◌≡◌, ◌↔◌, refl, subst, inl, inr, false, some, String, List, [], ◌∷◌, All}
use chain_pulse.ArchLint.{LoadedPackage, Loader, main}
use chain_pulse.ArchLint.Forbidden.{order, inventory, shipment, IsTellable}
use chain_pulse.ArchLint.Clean.{Respects, IsClear, RangeLaws, main-Respects}

abbrev packages : List LoadedPackage
packages =
    record {
      pkg_path = "github.com/nickemma/chainpulse/internal/order";
      imports = "fmt" ∷ "github.com/nickemma/chainpulse/internal/inventory/api" ∷ [];
    }
    ∷ []

abbrev loader : Loader
loader = record { load = λ root. some packages; range = λ keys. keys }

abbrev loader-RangeLaws : RangeLaws loader
loader-RangeLaws = record { all_range = λ P keys. (λ h. h, λ h. h) }

refused :
    (main loader "archlint error" []).lines
    ≡ "❌ github.com/nickemma/chainpulse/internal/order imports forbidden package github.com/nickemma/chainpulse/internal/inventory/api"
      ∷ []
unfolding main
refused = refl

begins_otherwise : (p s : String) → starts_with s p ≡ false → IsPrefix p s → ⊥
begins_otherwise p s no_prefix is_prefix = let yes_prefix = (starts_with_iff s p).1 is_prefix in cc

order-IsTellable : IsTellable "github.com/nickemma/chainpulse/internal/order"
order-IsTellable order h = inl refl
order-IsTellable inventory h = absurd (begins_otherwise _ _ refl h)
order-IsTellable shipment h = absurd (begins_otherwise _ _ refl h)

inventory_api-IsTellable : IsTellable "github.com/nickemma/chainpulse/internal/inventory/api"
inventory_api-IsTellable order h = absurd (begins_otherwise _ _ refl h)
inventory_api-IsTellable inventory h = inr ("api", refl)
inventory_api-IsTellable shipment h = absurd (begins_otherwise _ _ refl h)

fmt-IsTellable : IsTellable "fmt"
fmt-IsTellable order h = absurd (begins_otherwise _ _ refl h)
fmt-IsTellable inventory h = absurd (begins_otherwise _ _ refl h)
fmt-IsTellable shipment h = absurd (begins_otherwise _ _ refl h)

packages-IsClear : All IsClear packages
packages-IsClear = ((order-IsTellable, (fmt-IsTellable, (inventory_api-IsTellable, tt))), tt)

main-Respects_example :
    ((main loader "archlint error" []).code ≡ 0)
    ↔ ((ps : List LoadedPackage) × (some packages ≡ some ps) × All Respects ps)
main-Respects_example =
    main-Respects loader loader-RangeLaws "archlint error" []
      (λ ps e. let same : packages ≡ ps = cc in subst (All IsClear) same packages-IsClear)
