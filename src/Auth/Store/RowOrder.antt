-- ===== src/Auth/Store/RowOrder.antt =====
-- The order in which internal/auth/apikey_postgres.go's table gives its rows, which SQL leaves open
-- where a statement has no ORDER BY.
use mathlib.Core.Logic.{∥∥₁_elim}
use mathlib.Core.List.{Perm, Permᴰ}
use mathlib.Core.Option
use std.HLevel.{hedberg}
use native.Mathlib.Decide.{ℕ_discrete}
use chain_pulse.Prelude.{
  ℕ, ◌≤◌, String, Bool, false, ◌==◌, ◌≡◌, ◌≢◌, refl, sym, ap, ◌∙◌, subst, eq_iff, true, arith, List,
  [], ◌∷◌, Option, none, All, All-mono, length, select, Bool-cases, inl, inr, eq_of_true,
  ne_of_false, ne_false,
}
use chain_pulse.Auth.Rows.{Row, Table, find, has_id, has_hash}
use chain_pulse.Auth.Store.Changes.{Call}
use chain_pulse.Auth.Store.Tenants.{HasUniqueIds}
use chain_pulse.Auth.Store.Registry.{Entry, registry_run}
use chain_pulse.Auth.Store.View.{entry_of, view, registry_ext}
use chain_pulse.Auth.Store.Refinement.{store_run, store_run-registry_run}

-- No two rows share a hash: UNIQUE (key_hash).
abbrev pub HasUniqueHashes : Table → Type 0
HasUniqueHashes [] = Unit
HasUniqueHashes (r ∷ t) = All (λ q. q.key_hash ≢ r.key_hash) t × HasUniqueHashes t

-- How many rows pass.
abbrev many : (Row → Bool) → Table → ℕ
many p t = length (select p t)

many-permᴰ : (p : Row → Bool) {t u : Table} → Permᴰ t u → many p t ≡ many p u
many-permᴰ p Permᴰ.nil = refl
many-permᴰ p (Permᴰ.cons {l₁ = t} {l₂ = u} e d) = rw e (ground (arith, many-permᴰ p d))
many-permᴰ p (Permᴰ.swap e f) = rw (e, f) (ground arith)
many-permᴰ p (Permᴰ.trans d e) = many-permᴰ p d ∙ many-permᴰ p e

find_missing : (p : Row → Bool) (t : Table) → many p t ≡ 0 → find p t ≡ none
unfolding find
find_missing p [] h = refl
find_missing p (r ∷ t) h = elim (Bool-cases (p r)) [
  | inl e ↦ ground (arith, e)
  | inr e ↦ rw e (find_missing p t (ground (arith, e)))
]

-- A row that is the only one to pass is found wherever it stands.
find-permᴰ : (p : Row → Bool) {t u : Table} → Permᴰ t u → many p t ≤ 1 → find p t ≡ find p u
unfolding find
find-permᴰ p Permᴰ.nil h = refl
find-permᴰ p (Permᴰ.cons {a} {b} {l₁ = t} {l₂ = u} e d) h = rw (← e) (elim (Bool-cases (p a)) [
  | inl yes_a ↦ rw yes_a refl
  | inr no_a ↦ rw no_a (find-permᴰ p d (ground (arith, no_a)))
])
find-permᴰ p (Permᴰ.swap {a} {b} {l} e f) h =
    rw (← e, ← f)
      (elim (Bool-cases (p a)) [
        | inl yes_a ↦ elim (Bool-cases (p b)) [
          | inl yes_b ↦ absurd (ground (arith, h, yes_a, yes_b))
          | inr no_b ↦ rw (yes_a, no_b) refl
        ]
        | inr no_a ↦ rw no_a refl
      ])
find-permᴰ p (Permᴰ.trans d e) h = find-permᴰ p d h ∙ find-permᴰ p e (rw (← many-permᴰ p d) h)

many_others : (p : Row → Bool) (t : Table) → All (λ q. p q ≡ false) t → many p t ≡ 0
many_others p [] h = refl
many_others p (q ∷ t) (e, h) = rw e (many_others p t h)

unique_id : (id : String) (t : Table) → HasUniqueIds t → many (has_id id) t ≤ 1
unique_id id [] u = omega arith
unique_id id (r ∷ t) (h, u) = elim (Bool-cases (has_id id r)) [
  | inl e ↦
      let none_left =
        many_others (has_id id) t
          (All-mono _ _ t (λ q n. ne_false (λ m. n (m ∙ sym (eq_of_true e)))) h) in
      rw e (omega (arith, none_left))
  | inr e ↦ rw e (unique_id id t u)
]

unique_hash : (h : String) (t : Table) → HasUniqueHashes t → many (has_hash h) t ≤ 1
unique_hash k [] u = omega arith
unique_hash k (r ∷ t) (h, u) = elim (Bool-cases (has_hash k r)) [
  | inl e ↦
      let none_left =
        many_others (has_hash k) t
          (All-mono _ _ t (λ q n. ne_false (λ m. n (m ∙ sym (eq_of_true e)))) h) in
      rw e (omega (arith, none_left))
  | inr e ↦ rw e (unique_hash k t u)
]

none_pass : (p : Row → Bool) (t : Table) → many p t ≡ 0 → All (λ q. p q ≡ false) t
none_pass p [] h = tt
none_pass p (q ∷ t) h = elim (Bool-cases (p q)) [
  | inl e ↦ absurd (ground (arith, e))
  | inr e ↦ (e, none_pass p t (ground (arith, e)))
]

own_id : (r : Row) → has_id r.id r ≡ true
own_id r = (eq_iff r.id r.id).1 refl

ids_unique : (t : Table) → ((id : String) → many (has_id id) t ≤ 1) → HasUniqueIds t
ids_unique [] h = tt
ids_unique (r ∷ t) h = (
  All-mono _ _ t (λ q n. ne_of_false n)
      (none_pass (has_id r.id) t (let own = h r.id in ground (arith, own_id r))),
  ids_unique t (λ id.
      let own = h id in
      elim (Bool-cases (has_id id r)) [ inl e ↦ ground (arith, e) | inr e ↦ ground (arith, e) ]),
)

String-discrete : Discrete String
String-discrete s t = elim (Bool-cases (s == t)) [
  | inl e ↦ yes (eq_of_true e)
  | inr e ↦ no (ne_of_false e)
]

String-set : IsSet String
String-set = hedberg String-discrete

Entry-set : IsSet (Option Entry)
Entry-set = hlevel (String-set, hedberg ℕ_discrete)

view-perm : (t u : Table) → Perm t u → HasUniqueIds t → HasUniqueHashes t → view t ≡ view u
view-perm t u h ids hashes =
    registry_ext _ _
      (λ id.
        ∥∥₁_elim h (Entry-set _ _)
          (λ d. ap (Option.map entry_of) (find-permᴰ (has_id id) d (unique_id id t ids))))
      (λ k.
        ∥∥₁_elim h (Entry-set _ _)
          (λ d. ap (Option.map entry_of) (find-permᴰ (has_hash k) d (unique_hash k t hashes))))

perm-HasUniqueIds : (t u : Table) → Perm t u → HasUniqueIds t → HasUniqueIds u
perm-HasUniqueIds t u h ids = ids_unique u (λ id.
    let same : many (has_id id) t ≡ many (has_id id) u =
      ∥∥₁_elim h (hedberg ℕ_discrete _ _) (many-permᴰ (has_id id)) in
    subst (λ n. n ≤ 1) same (unique_id id t ids))

-- Two tables that hold the same rows in another order, with unique ids and hashes, give the same
-- answers over any history of Create, Rotate, Revoke and Resolve with any failures of the
-- statements: no answer hangs on the order in which the database finds the rows.
pub store_run-perm :
    (hash_api_key : String → String) (calls : List (ℕ × Call)) (t u : Table)
    → Perm t u
    → HasUniqueIds t
    → HasUniqueHashes t
    → store_run hash_api_key calls t ≡ store_run hash_api_key calls u
store_run-perm hash_api_key calls t u h ids hashes =
    store_run-registry_run hash_api_key calls t ids
    ∙ ap (registry_run hash_api_key calls) (view-perm t u h ids hashes)
    ∙ sym (store_run-registry_run hash_api_key calls u (perm-HasUniqueIds t u h ids))
