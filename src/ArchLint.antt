-- ===== src/ArchLint.antt =====
-- tools/archlint/main.go: which imports between the modules are forbidden. golang.org/x/tools/go/packages
-- is a parameter: what it loads, and the order in which a range over the map of imports goes.
pub mod Forbidden
pub mod Clean
use Prim.Native.String.{String, len, slice}
use Prim.Native.String.{◌++◌ as ◌⧺◌}
use mathlib.Core.Option
use chain_pulse.Prelude.{
  ℕ, Bool, true, false, ◌&&◌, ◌==◌, Option, none, some, leb, List, [], ◌∷◌, ◌++◌, map, any,
  if◌then◌else◌,
}

pub record Violation : Type 0 where
  pub from : String
  pub to : String
  pub msg : String

pub record Rule : Type 0 where
  pub module_path : String
  pub allow : List String
  pub deny : List String

pub record Package : Type 0 where
  pub name : String
  pub imports : List String

abbrev pub rules : List Rule
rules =
    record {
      module_path = "internal/order";
      allow = [];
      deny = "internal/inventory" ∷ "internal/shipment" ∷ [];
    }
    ∷ record {
      module_path = "internal/inventory";
      allow = [];
      deny = "internal/order" ∷ "internal/shipment" ∷ [];
    }
    ∷ record {
      module_path = "internal/shipment";
      allow = [];
      deny = "internal/order" ∷ "internal/inventory" ∷ [];
    }
    ∷ []

abbrev pub module_root : String
module_root = "github.com/nickemma/chainpulse"

-- Positions are bytes.
unfoldable pub has_prefix : String → String → Bool
has_prefix s prefix = leb (len prefix) (len s) && slice s 0 (len prefix) == prefix

-- moduleRoot + "/" + module
abbrev pub in_module : String → String
in_module path = module_root ⧺ ("/" ⧺ path)

-- The loop over the rules, with the one over a rule's denied modules.
unfoldable pub denied : String → String → List Rule → Bool
unfolding has_prefix
denied from_pkg to_import rs =
    any
      (λ r.
        has_prefix from_pkg (in_module r.module_path)
        && any (λ d. has_prefix to_import (in_module d)) r.deny)
      rs

unfoldable pub is_forbidden : String → String → Bool
unfolding denied has_prefix
is_forbidden from_pkg to_import =
    let is_denied = denied from_pkg to_import rules in
    if has_prefix to_import module_root then is_denied else false

-- The inner loop of checkPackages.
unfoldable pub check_imports : String → List String → List Violation
unfolding is_forbidden
check_imports name [] = []
check_imports name (imp ∷ imps) =
    let rest = check_imports name imps in
    if is_forbidden name imp then record { from = name; to = imp; msg = "" } ∷ rest else rest

unfoldable pub check_packages : List Package → List Violation
unfolding check_imports
check_packages [] = []
check_packages (pkg ∷ pkgs) = check_imports pkg.name pkg.imports ++ check_packages pkgs

-- String of a violation.
abbrev pub violation_text : Violation → String
violation_text v = "❌ " ⧺ (v.from ⧺ (" imports forbidden package " ⧺ v.to))

-- A package as it is loaded: its path, and the keys of its map of imports.
pub record LoadedPackage : Type 0 where
  pub pkg_path : String
  pub imports : List String

pub record Loader : Type 0 where
  -- packages.Load(…, "./...") below a directory
  pub load : String → Option (List LoadedPackage)
  -- The order of a range over a map with these keys.
  pub range : List String → List String

-- What the process prints, and its exit code.
pub record Exit : Type 0 where
  pub lines : List String
  pub code : ℕ

-- The argument, if there is one, is the directory.
abbrev pub root_of : List String → String
root_of [] = "."
root_of (root ∷ args) = root

-- What main does with the result of Run; the text of an error is a parameter.
abbrev pub report : String → Option (List Violation) → Exit
report error_line none = record { lines = error_line ∷ []; code = 1 }
report error_line (some []) = record { lines = "architecture clean" ∷ []; code = 0 }
report error_line (some (v ∷ vs)) = record { lines = map violation_text (v ∷ vs); code = 1 }

module _ (loader : Loader) where
  abbrev pub extract_imports : LoadedPackage → List String
  extract_imports p = loader.range p.imports

  abbrev pub scan_packages : List LoadedPackage → List Package
  scan_packages [] = []
  scan_packages (p ∷ ps) =
      record { name = p.pkg_path; imports = extract_imports p } ∷ scan_packages ps

  abbrev pub scan : String → Option (List Package)
  scan root = Option.map scan_packages (loader.load root)

  abbrev pub run : String → Option (List Violation)
  run root = Option.map check_packages (scan root)

  unfoldable pub main : String → List String → Exit
  unfolding check_packages
  main error_line args = report error_line (run (root_of args))
