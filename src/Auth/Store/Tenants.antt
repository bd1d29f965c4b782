-- ===== src/Auth/Store/Tenants.antt =====
-- Tenant scoping in internal/auth/apikey_postgres.go: what a call made for one tenant does to the
-- rows of another, and what List shows.
use chain_pulse.Prelude.{
  ℕ, String, Bool, true, false, ◌&&◌, ◌||◌, ◌==◌, eq_iff, ◌≡◌, ◌≢◌, refl, sym, ◌∙◌, arith, List, [],
  ◌∷◌, Option, none, some, Bool-cases, inl, inr, eq_of_true, ne_false, any, All, All-pure, All-mono,
  select,
}
use chain_pulse.Auth.Rows.{Row, Table, find, update_where, insert, has_id, has_owner, revoke_row}
use chain_pulse.Storage.{Fault, not_executed, reply_lost}
use chain_pulse.Auth.Store.{revocable, revoke}
use chain_pulse.Auth.Rows.Laws.{insert_lem, insert-fresh, find_passes}
use chain_pulse.Auth.Store.Cases.{create_cases, rotate_cases}
use chain_pulse.Auth.Store.Changes.{
  Call, resolves, creates, rotates, revokes, step, run, Keeps, Changes, unchanged, updates, inserts,
  step-Changes,
}

-- No two rows share an id: the PRIMARY KEY.
abbrev pub HasUniqueIds : Table → Type 0
HasUniqueIds [] = Unit
HasUniqueIds (r ∷ t) = All (λ q. q.id ≢ r.id) t × HasUniqueIds t

module _ (p : Row → Bool) (f : Row → Row) (k : Keeps f) where
  All-update_where :
      (id : String) (t : Table) → All (λ q. q.id ≢ id) t → All (λ q. q.id ≢ id) (update_where p f t)
  unfolding update_where
  All-update_where id [] h = tt
  All-update_where id (q ∷ t) (n, h) = (
    elim (Bool-cases (p q)) [ inl e ↦ rw (e, k.ids q) n | inr e ↦ rw e n ],
    All-update_where id t h,
  )

  update_where-HasUniqueIds : (t : Table) → HasUniqueIds t → HasUniqueIds (update_where p f t)
  unfolding update_where
  update_where-HasUniqueIds [] h = tt
  update_where-HasUniqueIds (q ∷ t) (h, u) = (
    elim (Bool-cases (p q)) [
      | inl e ↦ rw (e, k.ids q) (All-update_where q.id t h)
      | inr e ↦ rw e (All-update_where q.id t h)
    ],
    update_where-HasUniqueIds t u,
  )

fresh_ids :
    (r : Row) (t : Table)
    → any (λ q. q.id == r.id || q.key_hash == r.key_hash) t ≡ false
    → All (λ q. q.id ≢ r.id) t
fresh_ids r [] h = tt
fresh_ids r (q ∷ t) h = (ground (arith, eq_iff q.id r.id), fresh_ids r t (ground arith))

pub Changes-HasUniqueIds : {t u : Table} → Changes t u → HasUniqueIds t → HasUniqueIds u
Changes-HasUniqueIds unchanged h = h
Changes-HasUniqueIds (updates {u} p f k c e) h =
    rw e (update_where-HasUniqueIds p f k u (Changes-HasUniqueIds c h))
Changes-HasUniqueIds (inserts {u} {v} r c i) h =
    rw (insert_lem r u v i) (fresh_ids r u (insert-fresh r u v i), Changes-HasUniqueIds c h)

-- From a table of unique ids, every history of calls, with any failures, keeps the ids unique.
pub run-HasUniqueIds :
    (hash_api_key : String → String) (calls : List (ℕ × Call)) (t : Table)
    → HasUniqueIds t
    → HasUniqueIds (run hash_api_key calls t)
unfolding run
run-HasUniqueIds hash_api_key [] t h = h
run-HasUniqueIds hash_api_key ((now, c) ∷ cs) t h =
    run-HasUniqueIds hash_api_key cs _ (Changes-HasUniqueIds (step-Changes hash_api_key now t c) h)

-- The rows of a tenant.
abbrev pub rows_of : String → Table → Table
rows_of tenant_id t = select (has_owner tenant_id) t

pub rows_of-update_where :
    (other : String) (p : Row → Bool) (f : Row → Row) (t : Table)
    → ((x : Row) → (f x).tenant_id ≡ x.tenant_id)
    → All (λ x. p x ≡ true → x.tenant_id ≢ other) t
    → rows_of other (update_where p f t) ≡ rows_of other t
unfolding update_where
rows_of-update_where other p f [] k h = refl
rows_of-update_where other p f (x ∷ t) k (here, later) = elim (Bool-cases (p x)) [
  | inl e ↦ rw (e, k x, ne_false (here e)) (rows_of-update_where other p f t k later)
  | inr e ↦ rw (e, rows_of-update_where other p f t k later) refl
]

pub All_found :
    (P : Row → Type 0) (p : Row → Bool) (t : Table) {r : Row} → All P t → find p t ≡ some r → P r
unfolding find
All_found P p [] h e = cc
All_found P p (x ∷ t) {r} (here, later) e = elim (Bool-cases (p x)) [
  | inl m ↦ let same : x ≡ r = ground arith in rw (← same) here
  | inr m ↦ All_found P p t later (ground arith)
]

-- With unique ids, the row that a tenant's call finds by id is the only one of that id.
module _ (tenant_id id : String) where
  abbrev pub wanted : Row → Bool
  wanted r = has_id id r && has_owner tenant_id r

  pub same_id : (old x : Row) → wanted old ≡ true → has_id id x ≡ true → old.id ≡ x.id
  same_id old x w i = ground (arith, eq_iff old.id id, eq_iff x.id id)

  pub other_ids :
      (x : Row) (t : Table)
      → x.id ≡ id
      → All (λ q. q.id ≢ x.id) t
      → All (λ q. has_id id q ≡ true → q.tenant_id ≡ tenant_id) t
  other_ids x [] e h = tt
  other_ids x (q ∷ t) e (n, h) = (λ m. absurd (n (eq_of_true m ∙ sym e)), other_ids x t e h)

  pub owner_of_id :
      (t : Table) {old : Row}
      → HasUniqueIds t
      → find wanted t ≡ some old
      → All (λ x. has_id id x ≡ true → x.tenant_id ≡ tenant_id) t
  unfolding find
  owner_of_id [] u f = tt
  owner_of_id (x ∷ t) {old} (h, u) f = elim (Bool-cases (wanted x)) [
    | inl m ↦ (
      λ i. ground (arith, eq_iff x.tenant_id tenant_id),
      other_ids x t (ground (arith, eq_iff x.id id)) h,
    )
    | inr m ↦
        let found : find wanted t ≡ some old = ground arith in
        (
          λ i. absurd (
              All_found (λ q. q.id ≢ x.id) wanted t h found
                (same_id old x (find_passes wanted t found) i)),
          owner_of_id t u found,
        )
  ]

module _ (other : String) where
  -- A row of another tenant in front is not counted.
  rows_of-insert :
      (r : Row) (u v : Table)
      → insert r u ≡ some v
      → r.tenant_id ≢ other
      → rows_of other v ≡ rows_of other u
  rows_of-insert r u v i n = rw (insert_lem r u v i, ne_false n) refl

  revocable_owner :
      (owner id : String) (x : Row)
      → owner ≢ other
      → revocable owner id x ≡ true
      → x.tenant_id ≢ other
  revocable_owner owner id x n m e =
      let own : x.tenant_id ≡ owner = ground (arith, eq_iff x.tenant_id owner) in n (sym own ∙ e)

  revoke-rows_of :
      (fault : Option Fault) (now : ℕ) (owner id : String) (t : Table)
      → owner ≢ other
      → rows_of other (revoke fault now owner id t).0 ≡ rows_of other t
  unfolding revoke
  revoke-rows_of (some not_executed) now owner id t n = refl
  revoke-rows_of (some reply_lost) now owner id t n =
      rows_of-update_where other (revocable owner id) (revoke_row now) t (λ x. refl)
        (All-pure _ t (λ x. revocable_owner owner id x n))
  revoke-rows_of none now owner id t n =
      rows_of-update_where other (revocable owner id) (revoke_row now) t (λ x. refl)
        (All-pure _ t (λ x. revocable_owner owner id x n))

-- The calls that are made for a tenant.
abbrev pub IsCallOf : String → Call → Type 0
IsCallOf tenant_id (resolves fault stamp_fault presented) = ⊥
IsCallOf tenant_id (creates fault entropy id spec) = spec.tenant_id ≡ tenant_id
IsCallOf tenant_id (rotates ev owner id) = owner ≡ tenant_id
IsCallOf tenant_id (revokes fault owner id) = owner ≡ tenant_id

module _ (hash_api_key : String → String) (now : ℕ) (t : Table) (other : String) where
  -- Create, Rotate and Revoke for one tenant leave the rows of every other tenant as they were,
  -- whatever ids they are given and whatever fails, as long as the ids are unique.
  pub calls_of_other_tenant :
      (tenant_id : String) (c : Call)
      → HasUniqueIds t
      → IsCallOf tenant_id c
      → tenant_id ≢ other
      → rows_of other (step hash_api_key now c t) ≡ rows_of other t
  unfolding step
  calls_of_other_tenant tenant_id (resolves fault stamp_fault presented) u o n = elim o [ ]
  calls_of_other_tenant tenant_id (creates fault entropy id spec) u o n =
      create_cases hash_api_key now t (λ v. rows_of other v ≡ rows_of other t) spec id refl
        (λ g t' i. rows_of-insert other _ t t' i (rw o n)) fault entropy
  calls_of_other_tenant tenant_id (rotates ev owner id) u o n =
      rotate_cases hash_api_key now t (λ v. rows_of other v ≡ rows_of other t) ev owner id refl
        λ old g t' f l i.
          rows_of-insert other _ _ t' i (rw o n)
          ∙ rows_of-update_where other (has_id id) (revoke_row now) t (λ x. refl)
              (All-mono _ _ t (λ x h m e. n (sym o ∙ sym (h m) ∙ e)) (owner_of_id owner id t u f))
  calls_of_other_tenant tenant_id (revokes fault owner id) u o n =
      revoke-rows_of other fault now owner id t (rw o n)
