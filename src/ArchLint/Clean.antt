-- ===== src/ArchLint/Clean.antt =====
-- main of tools/archlint/main.go: which repositories it passes.
use mathlib.Core.Option
use chain_pulse.Prelude.{
  String, ◌≡◌, ◌↔◌, refl, arith, Option, none, some, List, [], ◌∷◌, ◌++◌, All, Bool-cases, inl, inr,
}
use chain_pulse.ArchLint.{
  Violation, LoadedPackage, Loader, is_forbidden, check_imports, check_packages, scan_packages,
  report, root_of, main,
}
use chain_pulse.ArchLint.Forbidden.{
  Crosses, SeemsToCross, IsTellable, SeemsToCross-Crosses, is_forbidden-SeemsToCross,
}

-- No import of the package goes from one module to another by how the paths begin.
abbrev pub SeemsToRespect : LoadedPackage → Type 0
SeemsToRespect p = All (λ imp. ¬ SeemsToCross p.pkg_path imp) p.imports

-- No import of the package crosses a boundary.
abbrev pub Respects : LoadedPackage → Type 0
Respects p = All (λ imp. ¬ Crosses p.pkg_path imp) p.imports

-- Of its path and of those that it imports, what begins like a module's belongs to the module.
abbrev pub IsClear : LoadedPackage → Type 0
IsClear p = IsTellable p.pkg_path × All IsTellable p.imports

imports_iff :
    (name : String) (imps : List String)
    → IsTellable name
    → All IsTellable imps
    → All (λ imp. ¬ SeemsToCross name imp) imps ↔ All (λ imp. ¬ Crosses name imp) imps
imports_iff name [] a h = (λ x. tt, λ x. tt)
imports_iff name (imp ∷ imps) a (b, h) =
    let here = SeemsToCross-Crosses name imp a b in
    let later = imports_iff name imps a h in
    (λ (x, xs). (λ c. x (here.1 c), later.0 xs), λ (x, xs). (λ c. x (here.0 c), later.1 xs))

respect_iff : (ps : List LoadedPackage) → All IsClear ps → All SeemsToRespect ps ↔ All Respects ps
respect_iff [] h = (λ x. tt, λ x. tt)
respect_iff (p ∷ ps) ((a, b), h) =
    let here = imports_iff p.pkg_path p.imports a b in
    let later = respect_iff ps h in
    (λ (x, xs). (here.0 x, later.0 xs), λ (x, xs). (here.1 x, later.1 xs))

-- A range over a map meets every key.
pub record RangeLaws (loader : Loader) : Type 1 where
  pub all_range :
      (P : String → Type 0) (keys : List String) → All P (loader.range keys) ↔ All P keys

append_nil_iff : (xs ys : List Violation) → (xs ++ ys ≡ []) ↔ (xs ≡ []) × (ys ≡ [])
append_nil_iff [] ys = (λ h. (refl, h), λ h. h.1)
append_nil_iff (x ∷ xs) ys = (λ h. cc, λ h. cc)

check_imports_iff :
    (name : String) (imps : List String)
    → (check_imports name imps ≡ []) ↔ All (λ imp. ¬ SeemsToCross name imp) imps
unfolding check_imports
check_imports_iff name [] = (λ h. tt, λ h. refl)
check_imports_iff name (imp ∷ imps) = elim (Bool-cases (is_forbidden name imp)) [
  | inl bad ↦ (
    λ h. absurd (ground (arith, h, bad)),
    λ all. absurd (all.0 ((is_forbidden-SeemsToCross name imp).0 bad)),
  )
  | inr good ↦ rw good (
    λ h. (
      λ c. ground (arith, (is_forbidden-SeemsToCross name imp).1 c),
      (check_imports_iff name imps).0 h,
    ),
    λ all. (check_imports_iff name imps).1 all.1,
  )
]

report-code :
    (error_line : String) (vs : List Violation)
    → ((report error_line (some vs)).code ≡ 0) ↔ (vs ≡ [])
report-code error_line [] = (λ h. refl, λ h. refl)
report-code error_line (v ∷ vs) = (λ h. cc, λ h. cc)

module _ (loader : Loader) (laws : RangeLaws loader) where
  check_packages_iff :
      (ps : List LoadedPackage)
      → (check_packages (scan_packages loader ps) ≡ []) ↔ All SeemsToRespect ps
  unfolding check_packages
  check_packages_iff [] = (λ h. tt, λ h. refl)
  check_packages_iff (p ∷ ps) = (
    λ h.
        let (here, later) = (append_nil_iff _ _).0 h in
        (
          (laws.all_range _ p.imports).0 ((check_imports_iff p.pkg_path _).0 here),
          (check_packages_iff ps).0 later,
        ),
    λ all. (append_nil_iff _ _).1 (
      (check_imports_iff p.pkg_path _).1 ((laws.all_range _ p.imports).1 all.0),
      (check_packages_iff ps).1 all.1,
    ),
  )

  outcome-SeemsToRespect :
      (error_line : String) (o : Option (List LoadedPackage))
      → ((report error_line (Option.map check_packages (Option.map (scan_packages loader) o))).code
          ≡ 0)
        ↔ ((ps : List LoadedPackage) × (o ≡ some ps) × All SeemsToRespect ps)
  outcome-SeemsToRespect error_line none = (λ h. cc, λ (ps, e, all). cc)
  outcome-SeemsToRespect error_line (some ps) = (
    λ h. (ps, refl, (check_packages_iff ps).0 ((report-code error_line _).0 h)),
    λ (qs, e, all).
        let same : ps ≡ qs = cc in
        (report-code error_line _).1 ((check_packages_iff ps).1 (rw same all)),
  )

  main-SeemsToRespect :
      (error_line : String) (args : List String)
      → ((main loader error_line args).code ≡ 0) ↔ (
          (ps : List LoadedPackage) × (loader.load (root_of args) ≡ some ps)
          × All SeemsToRespect ps)
  unfolding main
  main-SeemsToRespect error_line args =
      outcome-SeemsToRespect error_line (loader.load (root_of args))

  -- Where no package below the directory or imported there has a path that only begins like that of
  -- internal/order, internal/inventory or internal/shipment, as internal/orderbook would, the
  -- process exits with 0 exactly if the packages could be loaded and no import of any of them goes
  -- from one of these modules, the package itself or one below it, to another one, in whatever
  -- order the imports of a package come.
  pub main-Respects :
      (error_line : String) (args : List String)
      → ((ps : List LoadedPackage) → loader.load (root_of args) ≡ some ps → All IsClear ps)
      → ((main loader error_line args).code ≡ 0)
        ↔ ((ps : List LoadedPackage) × (loader.load (root_of args) ≡ some ps) × All Respects ps)
  main-Respects error_line args clear =
      let seems = main-SeemsToRespect error_line args in
      (
        λ h. let (ps, e, all) = seems.0 h in (ps, e, (respect_iff ps (clear ps e)).0 all),
        λ (ps, e, all). seems.1 (ps, e, (respect_iff ps (clear ps e)).1 all),
      )
