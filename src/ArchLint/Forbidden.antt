-- ===== src/ArchLint/Forbidden.antt =====
-- isForbidden of tools/archlint/main.go, against the boundaries that its rules draw.
use Prim.Native.String.{String, len}
use Prim.Native.String.{◌++◌ as ◌⧺◌}
use text.Mathlib.Text.{starts_with}
use text.Mathlib.TextBridge.{IsPrefix}
use text.Mathlib.TextEquality.{starts_with_iff}
use text.Mathlib.TextPositions.{len-append}
use text.Mathlib.TextLemmas.{append_assoc, append-nil}
use chain_pulse.Prelude.{
  ◌≤◌, Bool, true, false, ◌&&◌, ◌||◌, ◌≡◌, ◌≢◌, ◌↔◌, ◌⊎◌, refl, sym, ap, ◌∙◌, arith, inl, inr,
}
use chain_pulse.ArchLint.{rules, module_root, has_prefix, in_module, denied, is_forbidden}

-- The business modules, and where they stand in the repository.
pub data BusinessModule : Type 0 where
  order inventory shipment : BusinessModule

abbrev pub path_of : BusinessModule → String
path_of order = "internal/order"
path_of inventory = "internal/inventory"
path_of shipment = "internal/shipment"

-- A package of the module: the module's own, or one below it.
abbrev pub Inside : String → BusinessModule → Type 0
Inside path m = (path ≡ in_module (path_of m)) ⊎ IsPrefix (in_module (path_of m) ⧺ "/") path

-- A package of one business module imports a package of another one.
abbrev pub Crosses : String → String → Type 0
Crosses from to = (m n : BusinessModule) × (m ≢ n) × Inside from m × Inside to n

-- The same, told by how the paths begin.
abbrev pub SeemsToCross : String → String → Type 0
SeemsToCross from to =
    (m n : BusinessModule) × (m ≢ n)
    × IsPrefix (in_module (path_of m)) from
    × IsPrefix (in_module (path_of n)) to

has_prefix_iff : (s p : String) → (has_prefix s p ≡ true) ↔ IsPrefix p s
unfolding has_prefix
has_prefix_iff s p = (
  λ h. (starts_with_iff s p).0 (ground arith),
  λ q.
      let shorter : len p ≤ len s = omega (arith, len-append p q.0, ap len q.1) in
      let starts : starts_with s p ≡ true = (starts_with_iff s p).1 q in
      ground (arith, shorter, starts),
)

-- What a rule with two denied modules, or the rules behind it, say.
deny_cases :
    (f a b rest : Bool)
    → (f && (a || (b || false)) || rest) ≡ true
    → (f ≡ true) × (a ≡ true) ⊎ (f ≡ true) × (b ≡ true) ⊎ (rest ≡ true)
deny_cases f a b rest h = ground arith

module _ (from to : String) where
  abbrev is_from : BusinessModule → Bool
  is_from m = has_prefix from (in_module (path_of m))

  abbrev is_to : BusinessModule → Bool
  is_to m = has_prefix to (in_module (path_of m))

  crossing :
      (m n : BusinessModule) → m ≢ n → is_from m ≡ true → is_to n ≡ true → SeemsToCross from to
  crossing m n d f t = (m, n, d, (has_prefix_iff from _).0 f, (has_prefix_iff to _).0 t)

  denied-SeemsToCross : denied from to rules ≡ true → SeemsToCross from to
  unfolding denied
  denied-SeemsToCross h = elim (deny_cases (is_from order) (is_to inventory) (is_to shipment) _ h) [
    | inl (f, t) ↦ crossing order inventory (λ e. cc) f t
    | inr (inl (f, t)) ↦ crossing order shipment (λ e. cc) f t
    | inr (inr h1) ↦ elim (deny_cases (is_from inventory) (is_to order) (is_to shipment) _ h1) [
      | inl (f, t) ↦ crossing inventory order (λ e. cc) f t
      | inr (inl (f, t)) ↦ crossing inventory shipment (λ e. cc) f t
      | inr (inr h2) ↦ elim (deny_cases (is_from shipment) (is_to order) (is_to inventory) _ h2) [
        | inl (f, t) ↦ crossing shipment order (λ e. cc) f t
        | inr (inl (f, t)) ↦ crossing shipment inventory (λ e. cc) f t
        | inr (inr h3) ↦ cc
      ]
    ]
  ]

  denied_of :
      (m n : BusinessModule)
      → m ≢ n
      → is_from m ≡ true
      → is_to n ≡ true
      → denied from to rules ≡ true
  unfolding denied
  denied_of order order d f t = absurd (d refl)
  denied_of order inventory d f t = ground arith
  denied_of order shipment d f t = ground arith
  denied_of inventory order d f t = ground arith
  denied_of inventory inventory d f t = absurd (d refl)
  denied_of inventory shipment d f t = ground arith
  denied_of shipment order d f t = ground arith
  denied_of shipment inventory d f t = ground arith
  denied_of shipment shipment d f t = absurd (d refl)

  in_root : (n : BusinessModule) → is_to n ≡ true → has_prefix to module_root ≡ true
  in_root n t =
      let q = (has_prefix_iff to (in_module (path_of n))).0 t in
      (has_prefix_iff to module_root).1
        (("/" ⧺ path_of n) ⧺ q.0, sym (append_assoc module_root ("/" ⧺ path_of n) q.0) ∙ q.1)

  pub is_forbidden-SeemsToCross : (is_forbidden from to ≡ true) ↔ SeemsToCross from to
  unfolding is_forbidden
  is_forbidden-SeemsToCross = (
    λ h. denied-SeemsToCross (ground arith),
    λ c.
        let (m, n, d, f, t) = c in
        let is_from_m = (has_prefix_iff from _).1 f in
        let is_to_n = (has_prefix_iff to _).1 t in
        rw (in_root n is_to_n) (denied_of m n d is_from_m is_to_n),
  )

-- A path that begins like a business module's is one of its packages.
abbrev pub IsTellable : String → Type 0
IsTellable path = (m : BusinessModule) → IsPrefix (in_module (path_of m)) path → Inside path m

Inside-IsPrefix :
    (path : String) (m : BusinessModule) → Inside path m → IsPrefix (in_module (path_of m)) path
Inside-IsPrefix path m (inl e) = ("", append-nil (in_module (path_of m)) ∙ sym e)
Inside-IsPrefix path m (inr (rest, e)) =
    ("/" ⧺ rest, sym (append_assoc (in_module (path_of m)) "/" rest) ∙ e)

pub SeemsToCross-Crosses :
    (from to : String) → IsTellable from → IsTellable to → SeemsToCross from to ↔ Crosses from to
SeemsToCross-Crosses from to a b = (
  λ (m, n, d, f, t). (m, n, d, a m f, b n t),
  λ (m, n, d, f, t). (m, n, d, Inside-IsPrefix from m f, Inside-IsPrefix to n t),
)
