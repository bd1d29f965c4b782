-- ===== src/Auth/Store/View.antt =====
-- The registry that a table of internal/auth/apikey_postgres.go stands for, and what the SQL
-- statements do to it.
use mathlib.Core.Path.{ap₂, fun_ext}
use mathlib.Core.Option
use chain_pulse.Prelude.{
  ℕ, String, Bool, true, false, ◌||◌, ◌==◌, ◌≡◌, refl, sym, ap, ◌∙◌, arith, [], ◌∷◌, Option, none,
  some, All, All-pure, any, if◌then◌else◌, Bool-cases, inl, inr,
}
use chain_pulse.Auth.Rows.{
  Row, Table, deref, is_some, find, update_where, insert, has_hash, has_id, stamp_used,
}
use chain_pulse.Auth.Rows.Laws.{insert_lem}
use chain_pulse.Auth.Store.Registry.{Entry, Registry, put, map_entries, is_taken}

abbrev pub entry_of : Row → Entry
entry_of r = record {
  id = r.id;
  tenant_id = r.tenant_id;
  role = r.role;
  region = deref r.region;
  supplier_id = deref r.supplier_id;
  expires_at = r.expires_at;
  revoked = is_some r.revoked_at;
}

abbrev pub view : Table → Registry
view t = record {
  by_id = λ id. Option.map entry_of (find (has_id id) t);
  by_hash = λ h. Option.map entry_of (find (has_hash h) t);
}

pub registry_ext :
    (a b : Registry)
    → ((id : String) → a.by_id id ≡ b.by_id id)
    → ((h : String) → a.by_hash h ≡ b.by_hash h)
    → a ≡ b
registry_ext a b p q = ap₂ (λ x y. record { by_id = x; by_hash = y }) (fun_ext p) (fun_ext q)

map_if :
    (b : Bool) (r : Row) (o : Option Row)
    → Option.map entry_of (if b then some r else o)
      ≡ (if b then some (entry_of r) else Option.map entry_of o)
map_if true r o = refl
map_if false r o = refl

pub view-insert :
    (r : Row) (t t' : Table) → insert r t ≡ some t' → view t' ≡ put r.key_hash (entry_of r) (view t)
unfolding find
view-insert r t t' i =
    rw (insert_lem r t t' i)
      (registry_ext _ _ (λ id. map_if (r.id == id) r _) (λ h. map_if (r.key_hash == h) r _))

is_some-find : (p : Row → Bool) (t : Table) → is_some (Option.map entry_of (find p t)) ≡ any p t
unfolding find
is_some-find p [] = refl
is_some-find p (r ∷ t) = elim (Bool-cases (p r)) [
  | inl e ↦ rw e refl
  | inr e ↦ rw e (is_some-find p t)
]

any-or : (p q : Row → Bool) (t : Table) → any (λ r. p r || q r) t ≡ (any p t || any q t)
any-or p q [] = refl
any-or p q (r ∷ t) = ground (arith, any-or p q t)

-- Whether the constraints refuse a row is a matter of the registry.
pub is_taken-any :
    (id h : String) (t : Table)
    → any (λ q. q.id == id || q.key_hash == h) t ≡ is_taken id h (view t)
is_taken-any id h t =
    any-or (has_id id) (has_hash h) t
    ∙ ap₂ ◌||◌ (sym (is_some-find (has_id id) t)) (sym (is_some-find (has_hash h) t))

module _ (p : Row → Bool) (f : Row → Row) (g : Entry → Entry) where
  abbrev changed : Row → Row
  changed x = if p x then f x else x

  find-changed :
      (q : Row → Bool) (t : Table)
      → ((x : Row) → q (changed x) ≡ q x)
      → All (λ x. entry_of (changed x) ≡ g (entry_of x)) t
      → Option.map entry_of (find q (update_where p f t))
        ≡ Option.map g (Option.map entry_of (find q t))
  unfolding find update_where
  find-changed q [] keep same = refl
  find-changed q (x ∷ t) keep (here, later) = rw (keep x) (elim (Bool-cases (q x)) [
    | inl e ↦ rw e (ap some here)
    | inr e ↦ rw e (find-changed q t keep later)
  ])

  -- An update that keeps the ids and the hashes changes the entries one by one.
  pub view-update_where :
      (t : Table)
      → ((x : Row) → (f x).id ≡ x.id)
      → ((x : Row) → (f x).key_hash ≡ x.key_hash)
      → All (λ x. entry_of (changed x) ≡ g (entry_of x)) t
      → view (update_where p f t) ≡ map_entries g (view t)
  view-update_where t ids hashes same =
      registry_ext _ _ (λ id. find-changed (has_id id) t (λ x. kept_id id x) same)
        (λ h. find-changed (has_hash h) t (λ x. kept_hash h x) same)
    where
      kept_id : (id : String) (x : Row) → has_id id (changed x) ≡ has_id id x
      kept_id id x = elim (Bool-cases (p x)) [
        | inl e ↦ rw e (ap (λ s. s == id) (ids x))
        | inr e ↦ rw e refl
      ]

      kept_hash : (h : String) (x : Row) → has_hash h (changed x) ≡ has_hash h x
      kept_hash h x = elim (Bool-cases (p x)) [
        | inl e ↦ rw e (ap (λ s. s == h) (hashes x))
        | inr e ↦ rw e refl
      ]

map_same : (o : Option Entry) → Option.map (λ e. e) o ≡ o
map_same none = refl
map_same (some e) = refl

-- The last-used stamp is none of the registry's business.
pub view-stamped :
    (p : Row → Bool) (now : ℕ) (t : Table) → view (update_where p (stamp_used now) t) ≡ view t
view-stamped p now t =
    view-update_where p (stamp_used now) (λ e. e) t (λ x. refl) (λ x. refl)
      (All-pure _ t (λ x. stamped x))
    ∙ registry_ext _ _ (λ id. map_same _) (λ h. map_same _)
  where
    stamped : (x : Row) → entry_of (if p x then stamp_used now x else x) ≡ entry_of x
    stamped x = elim (Bool-cases (p x)) [ inl e ↦ rw e refl | inr e ↦ rw e refl ]
