-- ===== src/Auth/Handlers/Answers.antt =====
-- What the API key endpoints of internal/auth/apikey_handler.go tell their callers.
use chain_pulse.Prelude.{
  ℕ, String, Bool, true, false, ◌≡◌, refl, ap, ◌∙◌, arith, List, [], ◌∷◌, map, Option, none, some,
  Bool-cases, inl, inr, if◌then◌else◌, any, select, length, nat_eq, ltb,
}
use chain_pulse.Identity.{Identity}
use chain_pulse.Http.{Context, Part, abort, internal, require_actor_lem}
use chain_pulse.Storage.{Fault}
use chain_pulse.Auth.Errors.{Result, ok, err}
use chain_pulse.Auth.ApiKey.{ApiKey}
use chain_pulse.Auth.Rows.{
  Row, Table, update_where, revoke_row, has_owner, insert_by_time, order_by_time,
}
use chain_pulse.Auth.Store.{list, api_key_of, revoke, revocable}
use chain_pulse.Auth.Handlers.{Codec, list_keys, answer_list, revoke_key, write_store_error}

-- The table with other key hashes.
abbrev pub rehash : (Row → String) → Row → Row
rehash h r = record r { key_hash = h r }

module _ (h : Row → String) where
  select-rehash :
      (tenant_id : String) (t : Table)
      → select (has_owner tenant_id) (map (rehash h) t)
        ≡ map (rehash h) (select (has_owner tenant_id) t)
  select-rehash tenant_id [] = refl
  select-rehash tenant_id (r ∷ t) = elim (Bool-cases (has_owner tenant_id r)) [
    | inl e ↦ rw e (ap (◌∷◌ (rehash h r)) (select-rehash tenant_id t))
    | inr e ↦ rw e (select-rehash tenant_id t)
  ]

  insert_by_time-rehash :
      (r : Row) (t : Table)
      → insert_by_time (rehash h r) (map (rehash h) t) ≡ map (rehash h) (insert_by_time r t)
  unfolding insert_by_time
  insert_by_time-rehash r [] = refl
  insert_by_time-rehash r (q ∷ t) = elim (Bool-cases (ltb r.created_at q.created_at)) [
    | inl e ↦ rw e (ap (◌∷◌ (rehash h q)) (insert_by_time-rehash r t))
    | inr e ↦ rw e refl
  ]

  order_by_time-rehash :
      (t : Table) → order_by_time (map (rehash h) t) ≡ map (rehash h) (order_by_time t)
  unfolding order_by_time
  order_by_time-rehash [] = refl
  order_by_time-rehash (r ∷ t) =
      ap (insert_by_time (rehash h r)) (order_by_time-rehash t)
      ∙ insert_by_time-rehash r (order_by_time t)

  api_key_of-rehash : (t : Table) → map api_key_of (map (rehash h) t) ≡ map api_key_of t
  api_key_of-rehash [] = refl
  api_key_of-rehash (r ∷ t) = ap (◌∷◌ (api_key_of r)) (api_key_of-rehash t)

  list-rehash :
      (fault : Option Fault) (tenant_id : String) (t : Table)
      → list fault tenant_id (map (rehash h) t) ≡ list fault tenant_id t
  unfolding list
  list-rehash (some f) tenant_id t = refl
  list-rehash none tenant_id t =
      ap (λ s. ok (map api_key_of (order_by_time s))) (select-rehash tenant_id t)
      ∙ ap (λ s. ok (map api_key_of s)) (order_by_time-rehash (select (has_owner tenant_id) t))
      ∙ ap ok (api_key_of-rehash (order_by_time (select (has_owner tenant_id) t)))

-- Whether some row passes, by the number of rows that do.
length-select-any :
    (p : Row → Bool) (t : Table)
    → nat_eq (length (select p t)) 0 ≡ (if any p t then false else true)
length-select-any p [] = refl
length-select-any p (r ∷ t) = ground (arith, length-select-any p t)

module _ {W : Type 0} (codec : Codec) (hash_api_key : String → String) (keys : Part W Table) where
  same_response :
      (c : Context) (w v : W) (r : Result (List ApiKey))
      → (answer_list codec hash_api_key keys c v r).response
        ≡ (answer_list codec hash_api_key keys c w r).response
  unfolding internal abort
  same_response c w v (ok ks) = refl
  same_response c w v (err e) = refl

  -- The listing tells nothing of the key hashes: with any other hashes in the table the response to an
  -- authenticated request is the same.
  pub list_keys-rehash :
      (h : Row → String) (fault : Option Fault) (c : Context) (w : W) (actor : Identity)
      → c.identity ≡ some actor
      → (list_keys codec hash_api_key keys fault c
          (keys.put (map (rehash h) (keys.view w)) w)).response
        ≡ (list_keys codec hash_api_key keys fault c w).response
  unfolding list_keys
  list_keys-rehash h fault c w actor i =
      let v : W = keys.put (map (rehash h) (keys.view w)) w in
      rw
        (
          require_actor_lem _ c v actor i,
          require_actor_lem _ c w actor i,
          keys.view-put (map (rehash h) (keys.view w)) w,
          list-rehash h fault actor.tenant_id (keys.view w),
        )
        (same_response c w v (list fault actor.tenant_id (keys.view w)))

  -- While the statement reaches the database, Revoke answers 204 if the actor's tenant has a live key
  -- under the id of the path and 404 otherwise, so also for a key of another tenant and for one that
  -- is revoked already; in both cases the table is the one with that key, if any, marked as revoked.
  pub revoke_key-status :
      (now : ℕ) (c : Context) (w : W) (actor : Identity)
      → c.identity ≡ some actor
      → let o = revoke_key codec hash_api_key keys none now c w in
        (o.response.status
          ≡ (if any (revocable actor.tenant_id c.param_id) (keys.view w) then 204 else 404))
        × (keys.view o.world
            ≡ update_where (revocable actor.tenant_id c.param_id) (revoke_row now) (keys.view w))
  unfolding revoke_key revoke write_store_error abort
  revoke_key-status now c w actor i =
      rw
        (
          require_actor_lem _ c w actor i,
          length-select-any (revocable actor.tenant_id c.param_id) (keys.view w),
        )
        (elim (Bool-cases (any (revocable actor.tenant_id c.param_id) (keys.view w))) [
          | inl e ↦ rw e (refl, keys.view-put _ w)
          | inr e ↦ rw e (refl, keys.view-put _ w)
        ])
