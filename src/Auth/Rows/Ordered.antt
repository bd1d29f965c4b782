-- ===== src/Auth/Rows/Ordered.antt =====
-- ORDER BY created_at DESC over the rows of internal/auth/apikey_postgres.go.
use mathlib.Core.List.{Perm}
use mathlib.Core.List.Perm
use chain_pulse.Prelude.{
  ℕ, ◌≤◌, ◌<◌, ◌≡◌, refl, arith, List, [], ◌∷◌, ltb, Bool-cases, inl, inr, ltb→lt, ltb→le, le→ltb,
  All,
}
use chain_pulse.Auth.Rows.{Row, insert_by_time, order_by_time}

abbrev pub NewestFirst : List Row → Type 0
NewestFirst [] = Unit
NewestFirst (r ∷ rs) = All (λ q. q.created_at ≤ r.created_at) rs × NewestFirst rs

insert_by_time-perm : (r : Row) (rs : List Row) → Perm (insert_by_time r rs) (r ∷ rs)
unfolding insert_by_time
insert_by_time-perm r [] = Perm.rfl
insert_by_time-perm r (q ∷ qs) = elim (Bool-cases (ltb r.created_at q.created_at)) [
  | inl e ↦ rw e (Perm.trans (Perm.cons q (insert_by_time-perm r qs)) (Perm.swap r q qs))
  | inr e ↦ rw e Perm.rfl
]

pub order_by_time-perm : (rs : List Row) → Perm (order_by_time rs) rs
unfolding order_by_time
order_by_time-perm [] = Perm.rfl
order_by_time-perm (r ∷ rs) =
    Perm.trans (insert_by_time-perm r (order_by_time rs)) (Perm.cons r (order_by_time-perm rs))

-- What holds of the row and of the others holds of them all.
All-insert_by_time :
    (P : Row → Type 0) (r : Row) (rs : List Row) → P r → All P rs → All P (insert_by_time r rs)
unfolding insert_by_time
All-insert_by_time P r [] p ps = (p, tt)
All-insert_by_time P r (q ∷ qs) p (here, later) =
    elim (Bool-cases (ltb r.created_at q.created_at)) [
      | inl e ↦ rw e (here, All-insert_by_time P r qs p later)
      | inr e ↦ rw e (p, (here, later))
    ]

All-order_by_time : (P : Row → Type 0) (rs : List Row) → All P rs → All P (order_by_time rs)
unfolding order_by_time
All-order_by_time P [] h = tt
All-order_by_time P (r ∷ rs) (here, later) =
    All-insert_by_time P r (order_by_time rs) here (All-order_by_time P rs later)

All-older :
    {m n : ℕ} (rs : List Row)
    → m ≤ n
    → All (λ q. q.created_at ≤ m) rs
    → All (λ q. q.created_at ≤ n) rs
All-older [] h _ = tt
All-older (q ∷ qs) h (p, ps) = (omega arith, All-older qs h ps)

insert_by_time-NewestFirst :
    (r : Row) (rs : List Row) → NewestFirst rs → NewestFirst (insert_by_time r rs)
unfolding insert_by_time
insert_by_time-NewestFirst r [] h = (tt, tt)
insert_by_time-NewestFirst r (q ∷ qs) (below, h) =
    elim (Bool-cases (ltb r.created_at q.created_at)) [
      | inl e ↦
          let lt = ltb→lt r.created_at q.created_at e in
          rw e (
            All-insert_by_time (λ x. x.created_at ≤ q.created_at) r qs (omega arith) below,
            insert_by_time-NewestFirst r qs h,
          )
      | inr e ↦
          let le = ltb→le r.created_at q.created_at e in
          rw e ((le, All-older qs le below), (below, h))
    ]

pub order_by_time-NewestFirst : (rs : List Row) → NewestFirst (order_by_time rs)
unfolding order_by_time
order_by_time-NewestFirst [] = tt
order_by_time-NewestFirst (r ∷ rs) =
    insert_by_time-NewestFirst r (order_by_time rs) (order_by_time-NewestFirst rs)

insert_by_time-newest :
    (r : Row) (rs : List Row)
    → All (λ q. q.created_at < r.created_at) rs
    → insert_by_time r rs ≡ r ∷ rs
unfolding insert_by_time
insert_by_time-newest r [] h = refl
insert_by_time-newest r (q ∷ qs) (lt, h) = rw (le→ltb r.created_at q.created_at (omega arith)) refl

-- A row that is newer than all others comes first.
pub order_by_time-newest :
    (r : Row) (rs : List Row)
    → All (λ q. q.created_at < r.created_at) rs
    → order_by_time (r ∷ rs) ≡ r ∷ order_by_time rs
unfolding order_by_time
order_by_time-newest r rs h =
    insert_by_time-newest r (order_by_time rs)
      (All-order_by_time (λ q. q.created_at < r.created_at) rs h)
