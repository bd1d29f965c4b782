-- ===== src/Auth/Store/Rotation.antt =====
-- Rotate of internal/auth/apikey_postgres.go.
use mathlib.Core.Option
use chain_pulse.Prelude.{
  ℕ, String, Bool, true, not, ◌&&◌, ◌||◌, ◌≡◌, refl, sym, ap, ◌∙◌, arith, Option, none, some,
  Bool-cases, Option-cases, inl, inr, if◌then◌else◌, eq_true,
}
use chain_pulse.Identity.{valid}
use chain_pulse.Storage.{Fault}
use chain_pulse.Auth.Errors.{Result, ok, err, key_revoked, key_expired, key_not_found}
use chain_pulse.Auth.ApiKey.{ApiKey, Generated, generate_api_key}
use chain_pulse.Auth.Rows.{
  Row, Table, deref, find, update_where, insert, has_hash, has_id, has_owner, revoke_row,
  is_expired,
}
use chain_pulse.Auth.Rows.Laws.{find_passes, find-insert, find-insert_self, find-update_where}
use chain_pulse.Auth.Store.{
  check_row, resolve, api_key_of, RotateEvents, Commit, committed, rolled_back,
  committed_unreported, rotate, rotate_found, rotate_generated, rotate_inserted, rotate_commit,
  replacement,
}
use chain_pulse.Auth.Store.Lookup.{generate-hash}
use chain_pulse.Auth.Store.Lifecycle.{IsRevoked, resolve_revoked}

module _ (hash_api_key : String → String) (ev : RotateEvents) (now : ℕ) (tenant_id id : String)
    (t : Table) where
  abbrev pub wanted : Row → Bool
  wanted r = has_id id r && has_owner tenant_id r

  abbrev pub marked : Table
  marked = update_where (has_id id) (revoke_row now) t

  -- What a successful Rotate did.
  pub record Rotated (t' : Table) (k : ApiKey) (plaintext : String) : Type 0 where
    pub old : Row
    pub found : find wanted t ≡ some old
    pub live : old.revoked_at ≡ none
    pub generated : Generated
    pub hash_of : generated.hash ≡ hash_api_key plaintext
    pub inserted :
        insert (replacement hash_api_key tenant_id old generated ev.new_id now) marked ≡ some t'
    pub returned : k ≡ api_key_of (replacement hash_api_key tenant_id old generated ev.new_id now)

  module _ (t' : Table) (k : ApiKey) (plaintext : String) where
    inserted_ok :
        (r : Row) (p : String) (o : Option Table)
        → rotate_inserted hash_api_key ev r p t o ≡ (t', ok (k, plaintext))
        → (o ≡ some t') × (k ≡ api_key_of r) × (plaintext ≡ p)
    inserted_ok r p none h = cc
    inserted_ok r p (some u) h = elim (Bool-cases ev.insert_fails) [
      | inl e ↦ absurd (ground arith)
      | inr e ↦ go ev.commit (rw e at h)
    ]
      where
        go :
            (c : Commit)
            → rotate_commit hash_api_key c r p t u ≡ (t', ok (k, plaintext))
            → (some u ≡ some t') × (k ≡ api_key_of r) × (plaintext ≡ p)
        go committed e = (ground arith, ground arith, ground arith)
        go rolled_back e = cc
        go committed_unreported e = cc

    generated_ok :
        (old : Row) (made : Result Generated)
        → generate_api_key hash_api_key ev.entropy ≡ made
        → find wanted t ≡ some old
        → old.revoked_at ≡ none
        → rotate_generated hash_api_key ev now tenant_id old t marked made ≡ (t', ok (k, plaintext))
        → Rotated t' k plaintext
    generated_ok old (err e) m f l h = cc
    generated_ok old (ok g) m f l h =
        let (ins, ret, same) = inserted_ok _ g.plaintext _ h in
        record {
          old = old;
          found = f;
          live = l;
          generated = g;
          hash_of = generate-hash hash_api_key ev.entropy g m ∙ ap hash_api_key (sym same);
          inserted = ins;
          returned = ret;
        }

    found_ok :
        (o : Option Row)
        → find wanted t ≡ o
        → rotate_found hash_api_key ev now tenant_id id t o ≡ (t', ok (k, plaintext))
        → Rotated t' k plaintext
    found_ok none f h = cc
    found_ok (some old) f h = elim (Option-cases old.revoked_at) [
      | inl live ↦ elim (Bool-cases ev.update_fails) [
        | inl e ↦ absurd (ground arith)
        | inr e ↦ generated_ok old _ refl f live (ground arith)
      ]
      | inr (since, e) ↦ absurd (ground arith)
    ]

    pub rotate-Rotated :
        rotate hash_api_key ev now tenant_id id t ≡ (t', ok (k, plaintext)) → Rotated t' k plaintext
    unfolding rotate
    rotate-Rotated h = elim (Bool-cases (ev.begin_fails || ev.select_fails)) [
      | inl e ↦ absurd (ground arith)
      | inr e ↦ found_ok _ refl (rw e at h)
    ]

    replaced_old :
        (r : Rotated t' k plaintext) (h : String)
        → find (has_hash h) t ≡ some r.old
        → IsRevoked h t'
    replaced_old r h f =
        let mark = find-update_where h (has_id id) (revoke_row now) t (λ x. refl) in
        let passes : (has_id id r.old && has_owner tenant_id r.old) ≡ true =
          find_passes wanted t r.found in
        let own : has_id id r.old ≡ true = ground arith in
        let after : find (has_hash h) marked ≡ some (revoke_row now r.old) =
          mark
          ∙ ap (Option.map (λ x. if has_id id x then revoke_row now x else x)) f
          ∙ ap (λ b. some (if b then revoke_row now r.old else r.old)) own in
        record {
          row = revoke_row now r.old;
          found = find-insert h _ (revoke_row now r.old) marked t' after r.inserted;
          marked = λ e. cc;
        }

    check_replacement :
        (later : ℕ) (old : Row) (g : Generated)
        → g.hash ≡ hash_api_key plaintext
        → k ≡ api_key_of (replacement hash_api_key tenant_id old g ev.new_id now)
        → check_row later
            (hash_api_key plaintext)
            (replacement hash_api_key tenant_id old g ev.new_id now)
          ≡ (if is_expired later old.expires_at
              then err key_expired
              else if not (valid old.role)
              then err key_not_found
              else ok (record {
                tenant_id = tenant_id;
                user_id = k.id;
                role = old.role;
                region = deref old.region;
                supplier_id = deref old.supplier_id;
              }))
    unfolding check_row
    check_replacement later old g e same = rw (eq_true (sym e), same) refl

    -- After a successful Rotate of a key the old secret is refused as revoked, and the new secret
    -- stands for the same tenant, role, region and supplier under the new key's id, until the expiry
    -- that the old key had, if the role is a known one.
    pub rotate-resolve :
        (stamp_fault : Option Fault) (later : ℕ) (presented : String) (old : Row)
        → rotate hash_api_key ev now tenant_id id t ≡ (t', ok (k, plaintext))
        → find wanted t ≡ some old
        → find (has_hash (hash_api_key presented)) t ≡ some old
        → ((resolve hash_api_key none stamp_fault later presented t').1 ≡ err key_revoked)
          × ((resolve hash_api_key none stamp_fault later plaintext t').1 ≡ (
              if is_expired later old.expires_at
              then err key_expired
              else if not (valid old.role)
              then err key_not_found
              else ok (record {
                tenant_id = tenant_id;
                user_id = k.id;
                role = old.role;
                region = deref old.region;
                supplier_id = deref old.supplier_id;
              })))
    unfolding resolve
    rotate-resolve stamp_fault later presented old h w f =
        let r = rotate-Rotated h in
        let same : old ≡ r.old = cc (sym w ∙ r.found) in
        let new : find (has_hash (hash_api_key plaintext)) t'
            ≡ some (replacement hash_api_key tenant_id r.old r.generated ev.new_id now) =
          find-insert_self (hash_api_key plaintext) _ marked t' r.inserted r.hash_of in
        (
          resolve_revoked hash_api_key stamp_fault later presented t'
              (replaced_old r (hash_api_key presented) (f ∙ ap some same)),
          rw (new, same) (check_replacement later r.old r.generated r.hash_of r.returned),
        )
