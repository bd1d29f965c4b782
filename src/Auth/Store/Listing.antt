-- ===== src/Auth/Store/Listing.antt =====
-- What List of internal/auth/apikey_postgres.go shows.
use mathlib.Core.List.{Perm}
use mathlib.Core.Option
use chain_pulse.Prelude.{
  ℕ, String, ◌≡◌, refl, sym, ap, ◌∙◌, ◌<◌, List, [], ◌∷◌, Option, none, some, map, All, eq_refl,
  Bool-cases, inl, inr,
}
use chain_pulse.Auth.Errors.{ok}
use chain_pulse.Auth.ApiKey.{ApiKey, CreateApiKeySpec, Generated}
use chain_pulse.Auth.Rows.{Row, Table, timestamptz, has_owner, insert, order_by_time}
use chain_pulse.Auth.Rows.Laws.{insert_lem}
use chain_pulse.Auth.Rows.Ordered.{
  NewestFirst, order_by_time-perm, order_by_time-NewestFirst, order_by_time-newest,
}
use chain_pulse.Auth.Store.{api_key_of, row_of, created, create, list}
use chain_pulse.Auth.Store.Lookup.{create-Created, deref-nullify}
use chain_pulse.Auth.Store.Tenants.{rows_of}

-- The keys shown are those of the tenant's rows, each as often as in the table, newest first.
pub record IsListing (tenant_id : String) (t : Table) (keys : List ApiKey) : Type 0 where
  pub rows : List Row
  pub shown : keys ≡ map api_key_of rows
  pub same_rows : Perm rows (rows_of tenant_id t)
  pub newest_first : NewestFirst rows

-- While the query succeeds, List shows the metadata of exactly the tenant's rows, each as often as
-- it stands in the table, and none is newer than one before it.
pub list-IsListing :
    (tenant_id : String) (t : Table)
    → (keys : List ApiKey) × (list none tenant_id t ≡ ok keys) × IsListing tenant_id t keys
unfolding list
list-IsListing tenant_id t = (
  _,
  refl,
  record {
    rows = order_by_time (rows_of tenant_id t);
    shown = refl;
    same_rows = order_by_time-perm (rows_of tenant_id t);
    newest_first = order_by_time-NewestFirst (rows_of tenant_id t);
  },
)

-- The metadata of a key with the expiry that the column keeps.
abbrev pub cut : ApiKey → ApiKey
cut k = record k { expires_at = Option.map timestamptz k.expires_at }

All-select :
    (P : Row → Type 0) (tenant_id : String) (t : Table) → All P t → All P (rows_of tenant_id t)
All-select P tenant_id [] h = tt
All-select P tenant_id (r ∷ t) (here, later) = elim (Bool-cases (has_owner tenant_id r)) [
  | inl e ↦ rw e (here, All-select P tenant_id t later)
  | inr e ↦ rw e (All-select P tenant_id t later)
]

module _ (hash_api_key : String → String) (now : ℕ) (id : String) (spec : CreateApiKeySpec)
    (t t' : Table) (k : ApiKey) (plaintext : String) where
  api_key_of-row_of :
      (g : Generated)
      → api_key_of (row_of hash_api_key spec g id now) ≡ cut (created hash_api_key spec g id now)
  api_key_of-row_of g = rw (deref-nullify spec.region, deref-nullify spec.supplier_id) refl

  list-inserted :
      (g : Generated)
      → insert (row_of hash_api_key spec g id now) t ≡ some t'
      → All (λ r. r.created_at < now) t
      → list none spec.tenant_id t'
        ≡ ok (
            cut (created hash_api_key spec g id now)
            ∷ map api_key_of (order_by_time (rows_of spec.tenant_id t)))
  unfolding list
  list-inserted g i older =
      rw
        (
          insert_lem _ t t' i,
          eq_refl spec.tenant_id,
          order_by_time-newest (row_of hash_api_key spec g id now) (rows_of spec.tenant_id t)
              (All-select (λ r. r.created_at < now) spec.tenant_id t older),
          api_key_of-row_of g,
        )
        refl

  -- List shows a key that Create returned, with the metadata that Create gave but for the expiry,
  -- which the column cuts to microseconds, in front of what it showed before, if all rows of the
  -- table are older.
  pub create-list :
      (entropy : Option (List ℕ))
      → create hash_api_key none now entropy id spec t ≡ (t', ok (k, plaintext))
      → All (λ r. r.created_at < now) t
      → (keys : List ApiKey) × (list none spec.tenant_id t ≡ ok keys)
        × (list none spec.tenant_id t' ≡ ok (cut k ∷ keys))
  unfolding list
  create-list entropy h older =
      let c = create-Created hash_api_key now id spec t t' k plaintext entropy h in
      let keys : List ApiKey = map api_key_of (order_by_time (rows_of spec.tenant_id t)) in
      (
        keys,
        refl,
        list-inserted c.generated c.inserted older ∙ ap (λ x. ok (cut x ∷ keys)) (sym c.returned),
      )
