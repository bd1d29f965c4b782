-- ===== src/Auth/Store/Lookup.antt =====
-- Resolve of internal/auth/apikey_postgres.go: which keys it accepts, and that a created key is one.
use mathlib.Core.Option
use chain_pulse.Prelude.{
  ℕ, String, true, false, eq_iff, ◌≡◌, ◌↔◌, refl, sym, ap, ◌∙◌, arith, List, Option, none, some,
  Option-cases, inl, inr, if◌then◌else◌, eq_true, eq_of_true,
}
use chain_pulse.Identity.{Identity, valid}
use chain_pulse.Storage.{Fault}
use chain_pulse.Auth.Errors.{Result, ok, err, key_expired}
use chain_pulse.Auth.ApiKey.{ApiKey, CreateApiKeySpec, Generated, generate_api_key}
use chain_pulse.Auth.Rows.{
  Row, Table, nullify, deref, find, insert, has_hash, timestamptz, is_expired, identity_of,
}
use chain_pulse.Auth.Rows.Laws.{find_passes, find-insert_self}
use chain_pulse.Auth.Store.{check_row, resolve, create, create_generated, row_of, created}

-- The row is not revoked, not expired at this time, and has a known role.
pub record IsLive (now : ℕ) (r : Row) : Type 0 where
  pub not_revoked : r.revoked_at ≡ none
  pub not_expired : is_expired now r.expires_at ≡ false
  pub role_known : valid r.role ≡ true

-- The second comparison of the hashes never fails: the row was found by its hash.
check_row_lem :
    (now : ℕ) (h : String) (r : Row)
    → r.key_hash ≡ h
    → (id : Identity) → (check_row now h r ≡ ok id) ↔ (IsLive now r × (id ≡ identity_of r))
unfolding check_row
check_row_lem now h r e id = ground (arith, eq_iff h r.key_hash)

-- While the lookup itself succeeds, a presented key is accepted exactly when the table has a row
-- under its hash that is not revoked, not expired at that time, and has a known role; the identity
-- is then the row's, whatever becomes of the last-used stamp.
pub resolve-ok_iff :
    (hash_api_key : String → String) (stamp_fault : Option Fault) (now : ℕ) (presented : String)
    (t : Table) (id : Identity)
    → ((resolve hash_api_key none stamp_fault now presented t).1 ≡ ok id) ↔ (
        (r : Row) × (find (has_hash (hash_api_key presented)) t ≡ some r)
        × IsLive now r
        × (id ≡ identity_of r))
unfolding resolve
resolve-ok_iff hash_api_key stamp_fault now presented t id =
    let h : String = hash_api_key presented in
    (
      λ accepted. elim (Option-cases (find (has_hash h) t)) [
        | inl missing ↦ absurd (ground (arith, rw missing at accepted))
        | inr (r, found) ↦
            let checks =
              (check_row_lem now h r (eq_of_true (find_passes (has_hash h) t found)) id).0 in
            let (live, same) = checks (rw found at accepted) in (r, found, live, same)
      ],
      λ (r, found, live, same). rw found (
          (check_row_lem now h r (eq_of_true (find_passes (has_hash h) t found)) id).1
            (live, same)),
    )

pub deref-nullify : (s : String) → deref (nullify s) ≡ s
unfolding deref nullify
deref-nullify s = ground (arith, eq_iff s "")

-- What a successful Create did.
pub record Created (hash_api_key : String → String) (now : ℕ) (id : String)
    (spec : CreateApiKeySpec) (t t' : Table) (k : ApiKey) (plaintext : String) : Type 0 where
  pub generated : Generated
  pub role_valid : valid spec.role ≡ true
  pub hash_of : generated.hash ≡ hash_api_key plaintext
  pub inserted : insert (row_of hash_api_key spec generated id now) t ≡ some t'
  pub returned : k ≡ created hash_api_key spec generated id now

pub generate-hash :
    (hash_api_key : String → String) (entropy : Option (List ℕ)) (g : Generated)
    → generate_api_key hash_api_key entropy ≡ ok g
    → g.hash ≡ hash_api_key g.plaintext
unfolding generate_api_key
generate-hash hash_api_key none g h = cc
generate-hash hash_api_key (some buf) g h = ground arith

module _ (hash_api_key : String → String) (now : ℕ) (id : String) (spec : CreateApiKeySpec)
    (t t' : Table) (k : ApiKey) (plaintext : String) where
  create_generated_ok :
      (made : Result Generated)
      → create_generated hash_api_key none now id spec t made ≡ (t', ok (k, plaintext))
      → (g : Generated) × (made ≡ ok g)
        × (insert (row_of hash_api_key spec g id now) t ≡ some t')
        × (k ≡ created hash_api_key spec g id now)
        × (plaintext ≡ g.plaintext)
  create_generated_ok (err e) h = cc
  create_generated_ok (ok g) h = (g, refl, ground arith, ground arith, ground arith)

  pub create-Created :
      (entropy : Option (List ℕ))
      → create hash_api_key none now entropy id spec t ≡ (t', ok (k, plaintext))
      → Created hash_api_key now id spec t t' k plaintext
  unfolding create
  create-Created entropy h =
      let h' : create_generated hash_api_key none now id spec t
            (generate_api_key hash_api_key entropy)
          ≡ (t', ok (k, plaintext)) =
        ground arith in
      let (g, made, ins, ret, same) =
        create_generated_ok (generate_api_key hash_api_key entropy) h' in
      record {
        generated = g;
        role_valid = ground arith;
        hash_of = generate-hash hash_api_key entropy g made ∙ ap hash_api_key (sym same);
        inserted = ins;
        returned = ret;
      }

  check_created :
      (later : ℕ) (h : String) (g : Generated) (k : ApiKey)
      → valid spec.role ≡ true
      → g.hash ≡ h
      → k ≡ created hash_api_key spec g id now
      → check_row later h (row_of hash_api_key spec g id now) ≡ (
          if is_expired later (Option.map timestamptz spec.expires_at)
          then err key_expired
          else ok (record {
            tenant_id = spec.tenant_id;
            user_id = k.id;
            role = spec.role;
            region = spec.region;
            supplier_id = spec.supplier_id;
          }))
  unfolding check_row
  check_created later h g k v e same =
      rw (eq_true (sym e), v, deref-nullify spec.region, deref-nullify spec.supplier_id, same) refl

  -- A key that Create returned resolves, at any time before its expiry in whole microseconds, to the tenant,
  -- role, region and supplier that it was created for, with the key's id as the user; from its
  -- expiry on it is refused as expired.
  pub create-resolve :
      (entropy : Option (List ℕ)) (stamp_fault : Option Fault) (later : ℕ)
      → create hash_api_key none now entropy id spec t ≡ (t', ok (k, plaintext))
      → (resolve hash_api_key none stamp_fault later plaintext t').1 ≡ (
          if is_expired later (Option.map timestamptz spec.expires_at)
          then err key_expired
          else ok (record {
            tenant_id = spec.tenant_id;
            user_id = k.id;
            role = spec.role;
            region = spec.region;
            supplier_id = spec.supplier_id;
          }))
  unfolding resolve
  create-resolve entropy stamp_fault later h =
      let c = create-Created entropy h in
      let r : Row = row_of hash_api_key spec c.generated id now in
      let found : find (has_hash (hash_api_key plaintext)) t' ≡ some r =
        find-insert_self (hash_api_key plaintext) r t t' c.inserted c.hash_of in
      rw found (
        check_created later (hash_api_key plaintext) c.generated k c.role_valid c.hash_of
          c.returned)
