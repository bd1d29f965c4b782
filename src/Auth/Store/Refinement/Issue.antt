-- ===== src/Auth/Store/Refinement/Issue.antt =====
-- Create of internal/auth/apikey_postgres.go against the registry.
use chain_pulse.Prelude.{
  ℕ, String, Bool, true, false, not, ◌||◌, ◌==◌, ◌≡◌, refl, ap, ◌∙◌, List, ◌∷◌, Option, none, some,
  if◌then◌else◌, Bool-cases, inl, inr,
}
use chain_pulse.Identity.{valid}
use chain_pulse.Storage.{Fault, not_executed, reply_lost}
use chain_pulse.Auth.Errors.{Result, AuthError, ok, err, internal_error}
use chain_pulse.Auth.ApiKey.{ApiKey, CreateApiKeySpec, Generated, generate_api_key}
use chain_pulse.Auth.Rows.{Row, Table, insert}
use chain_pulse.Auth.Store.{create, create_generated, create_inserted, row_of, created}
use chain_pulse.Auth.Store.Lookup.{deref-nullify}
use chain_pulse.Auth.Store.Registry.{
  Registry, put, is_taken, settled, new_entry, register_generated, register,
}
use chain_pulse.Auth.Store.View.{entry_of, view, view-insert, is_taken-any}

abbrev pub map_ok : {A B : Type 0} → (A → B) → Result A → Result B
map_ok f (ok a) = ok (f a)
map_ok f (err e) = err e

abbrev pub shown : ApiKey × String → String × String
shown (k, plaintext) = (k.id, plaintext)

-- The table shows the registry, and the caller is told the same.
pub record Matches (x : Table × Result (ApiKey × String)) (y : Registry × Result (String × String))
    : Type 0 where
  pub shows : view x.0 ≡ y.0
  pub told : map_ok shown x.1 ≡ y.1

abbrev pub refused : (t : Table) (e : AuthError) → Matches (t, err e) (view t, err e)
refused t e = record { shows = refl; told = refl }

pub if_Matches :
    (b : Bool) {x x' : Table × Result (ApiKey × String)}
    {y y' : Registry × Result (String × String)}
    → (b ≡ true → Matches x y)
    → (b ≡ false → Matches x' y')
    → Matches (if b then x else x') (if b then y else y')
if_Matches true m m' = m refl
if_Matches false m m' = m' refl

pub insert_taken :
    (r : Row) (t : Table) → is_taken r.id r.key_hash (view t) ≡ true → insert r t ≡ none
unfolding insert
insert_taken r t e = rw (is_taken-any r.id r.key_hash t ∙ e) refl

pub insert_free :
    (r : Row) (t : Table) → is_taken r.id r.key_hash (view t) ≡ false → insert r t ≡ some (r ∷ t)
unfolding insert
insert_free r t e = rw (is_taken-any r.id r.key_hash t ∙ e) refl

module _ (hash_api_key : String → String) (fault : Option Fault) (now : ℕ) where
  create_inserted_refused :
      (fault : Option Fault) (k : ApiKey) (plaintext : String) (t : Table)
      → create_inserted hash_api_key fault k plaintext t none ≡ (t, err internal_error)
  create_inserted_refused none k plaintext t = refl
  create_inserted_refused (some not_executed) k plaintext t = refl
  create_inserted_refused (some reply_lost) k plaintext t = refl

  create_inserted_some :
      (fault : Option Fault) (k : ApiKey) (plaintext : String) (t t' : Table) (reg : Registry)
      → view t' ≡ reg
      → Matches
          (create_inserted hash_api_key fault k plaintext t (some t'))
          (settled fault (view t) reg (k.id, plaintext))
  create_inserted_some none k plaintext t t' reg e = record { shows = e; told = refl }
  create_inserted_some (some not_executed) k plaintext t t' reg e = refused t _
  create_inserted_some (some reply_lost) k plaintext t t' reg e = record { shows = e; told = refl }

  new_row_entry :
      (spec : CreateApiKeySpec) (g : Generated) (id : String)
      → entry_of (row_of hash_api_key spec g id now) ≡ new_entry spec id
  new_row_entry spec g id = rw (deref-nullify spec.region, deref-nullify spec.supplier_id) refl

  create_generated-Matches :
      (id : String) (spec : CreateApiKeySpec) (t : Table) (made : Result Generated)
      → Matches
          (create_generated hash_api_key fault now id spec t made)
          (register_generated hash_api_key fault id spec (view t) made)
  create_generated-Matches id spec t (err e) = refused t _
  create_generated-Matches id spec t (ok g) =
      let r : Row = row_of hash_api_key spec g id now in
      elim (Bool-cases (is_taken id g.hash (view t))) [
        | inl e ↦
            rw
              (
                e,
                insert_taken r t e,
                create_inserted_refused fault (created hash_api_key spec g id now) g.plaintext t,
              )
              (refused t _)
        | inr e ↦
            rw (e, insert_free r t e)
              (create_inserted_some fault (created hash_api_key spec g id now) g.plaintext t (r ∷ t)
                _
                (view-insert r t (r ∷ t) (insert_free r t e)
                  ∙ ap (λ x. put g.hash x (view t)) (new_row_entry spec g id)))
      ]

  pub create-Matches :
      (entropy : Option (List ℕ)) (id : String) (spec : CreateApiKeySpec) (t : Table)
      → Matches
          (create hash_api_key fault now entropy id spec t)
          (register hash_api_key fault entropy id spec (view t))
  unfolding create
  create-Matches entropy id spec t =
      if_Matches (spec.tenant_id == "" || not (valid spec.role)) (λ _. refused t _)
        (λ _. create_generated-Matches id spec t (generate_api_key hash_api_key entropy))
