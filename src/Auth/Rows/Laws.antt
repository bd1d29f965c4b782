-- ===== src/Auth/Rows/Laws.antt =====
-- Laws of the SQL statements over the table of internal/auth/apikey_postgres.go.
use chain_pulse.Prelude.{
  String, Bool, true, false, ◌||◌, ◌==◌, eq_iff, ◌≡◌, inl, inr, refl, arith, [], ◌∷◌, some,
  Bool-cases, eq_true, any, if◌then◌else◌,
}
use mathlib.Core.Option
use chain_pulse.Auth.Rows.{Row, Table, find, update_where, insert, has_hash}

absurd_test : {b : Bool} → b ≡ true → b ≡ false → ⊥
absurd_test h k = cc

pub find_passes : (p : Row → Bool) (t : Table) {r : Row} → find p t ≡ some r → p r ≡ true
unfolding find
find_passes p [] h = cc
find_passes p (q ∷ t) {r} h = elim (Bool-cases (p q)) [
  | inl e ↦ ground arith
  | inr e ↦ find_passes p t (ground arith)
]

-- A row that went in stands in front of the others.
pub insert_lem : (r : Row) (t t' : Table) → insert r t ≡ some t' → t' ≡ r ∷ t
unfolding insert
insert_lem r t t' h = ground arith

pub find-insert_self :
    (h : String) (r : Row) (t t' : Table)
    → insert r t ≡ some t'
    → r.key_hash ≡ h
    → find (has_hash h) t' ≡ some r
unfolding find
find-insert_self h r t t' i e = rw (insert_lem r t t' i, eq_true e) refl

any_of_find :
    (p q : Row → Bool) (t : Table) {r : Row}
    → find p t ≡ some r
    → ((x : Row) → p x ≡ true → q x ≡ true)
    → any q t ≡ true
unfolding find
any_of_find p q [] h i = cc
any_of_find p q (x ∷ t) {r} h i = elim (Bool-cases (p x)) [
  | inl e ↦ rw (i x e) refl
  | inr e ↦ ground (arith, any_of_find p q t {r = r} (ground arith) i)
]

pub insert-fresh :
    (r : Row) (t t' : Table)
    → insert r t ≡ some t'
    → any (λ q. q.id == r.id || q.key_hash == r.key_hash) t ≡ false
unfolding insert
insert-fresh r t t' h = ground arith

-- A new row has a hash of its own, so it hides no row from a lookup.
pub find-insert :
    (h : String) (r x : Row) (t t' : Table)
    → find (has_hash h) t ≡ some x
    → insert r t ≡ some t'
    → find (has_hash h) t' ≡ some x
unfolding find
find-insert h r x t t' f i = elim (Bool-cases (r.key_hash == h)) [
  | inl same ↦ absurd (
      absurd_test
        (any_of_find (has_hash h) (λ q. q.id == r.id || q.key_hash == r.key_hash) t f
          (λ q e.
            ground (arith, eq_iff q.key_hash h, eq_iff r.key_hash h, eq_iff q.key_hash r.key_hash)))
        (insert-fresh r t t' i))
  | inr other ↦ rw (insert_lem r t t' i, other) f
]

-- An update that keeps the hashes moves the found row to its new value.
pub find-update_where :
    (h : String) (p : Row → Bool) (f : Row → Row) (t : Table)
    → ((x : Row) → (f x).key_hash ≡ x.key_hash)
    → find (has_hash h) (update_where p f t)
      ≡ Option.map (λ x. if p x then f x else x) (find (has_hash h) t)
unfolding find update_where
find-update_where h p f [] keep = refl
find-update_where h p f (x ∷ t) keep =
    let same : has_hash h (if p x then f x else x) ≡ has_hash h x = elim (Bool-cases (p x)) [
      | inl e ↦ rw (e, keep x) refl
      | inr e ↦ rw e refl
    ] in
    rw same (elim (Bool-cases (x.key_hash == h)) [
      | inl e ↦ rw e refl
      | inr e ↦ rw e (find-update_where h p f t keep)
    ])
