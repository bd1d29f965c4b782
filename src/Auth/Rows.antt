-- ===== src/Auth/Rows.antt =====
-- The table of internal/auth/apikey_postgres.go and db/migrations/00003_create_api_keys.sql: a list
-- of rows, and the SQL statements of the source as functions on it.
pub mod Laws
pub mod Ordered
use chain_pulse.Prelude.{
  ℕ, ◌/◌, ◌*◌, String, Bool, true, false, ◌||◌, ◌==◌, List, [], ◌∷◌, Option, none, some, leb, ltb,
  select, any, if◌then◌else◌,
}
use chain_pulse.Identity.{Identity}
use chain_pulse.Auth.ApiKey.{ApiKey}

-- A row of api_keys. NULL is `none`. The UUID columns, and the parameters that are compared with
-- them, stand as the texts in which the database prints them: Auth/Store/Spelled is about the
-- others. A time is in nanoseconds; `timestamptz` is what a column keeps of one.
pub record Row : Type 0 where
  pub id : String
  pub tenant_id : String
  pub name : String
  pub key_hash : String
  pub key_prefix : String
  pub role : String
  pub region : Option String
  pub supplier_id : Option String
  pub created_at : ℕ
  pub last_used_at : Option ℕ
  pub expires_at : Option ℕ
  pub revoked_at : Option ℕ

-- TIMESTAMPTZ keeps whole microseconds.
abbrev pub timestamptz : ℕ → ℕ
timestamptz t = t / 1000 * 1000

abbrev pub Table : Type 0
Table = List Row

unfoldable pub nullify : String → Option String
nullify s = if s == "" then none else some s

unfoldable pub deref : Option String → String
deref none = ""
deref (some s) = s

abbrev pub is_some {ℓ} : {A : Type ℓ} → Option A → Bool
is_some none = false
is_some (some a) = true

-- SELECT … WHERE, of at most one row
unfoldable pub find : (Row → Bool) → Table → Option Row
find p [] = none
find p (r ∷ rs) = if p r then some r else find p rs

-- UPDATE … SET … WHERE
unfoldable pub update_where : (Row → Bool) → (Row → Row) → Table → Table
update_where p f [] = []
update_where p f (r ∷ rs) = (if p r then f r else r) ∷ update_where p f rs

-- INSERT, under PRIMARY KEY (id) and UNIQUE (key_hash)
unfoldable pub insert : Row → Table → Option Table
insert r t = if any (λ q. q.id == r.id || q.key_hash == r.key_hash) t then none else some (r ∷ t)

abbrev pub has_hash : String → Row → Bool
has_hash h r = r.key_hash == h

abbrev pub has_id : String → Row → Bool
has_id id r = r.id == id

abbrev pub has_owner : String → Row → Bool
has_owner tenant_id r = r.tenant_id == tenant_id

-- expiresAt != nil && !expiresAt.After(now)
abbrev pub is_expired : ℕ → Option ℕ → Bool
is_expired now none = false
is_expired now (some t) = leb t now

abbrev pub stamp_used : ℕ → Row → Row
stamp_used now r = record r { last_used_at = some now }

abbrev pub revoke_row : ℕ → Row → Row
revoke_row now r = record r { revoked_at = some now }

abbrev pub identity_of : Row → Identity
identity_of r = record {
  tenant_id = r.tenant_id;
  user_id = r.id;
  role = r.role;
  region = deref r.region;
  supplier_id = deref r.supplier_id;
}

-- ORDER BY created_at DESC, by insertion; rows of one time keep the table's order.
unfoldable pub insert_by_time : Row → List Row → List Row
insert_by_time r [] = r ∷ []
insert_by_time r (q ∷ qs) =
    if ltb r.created_at q.created_at then q ∷ insert_by_time r qs else r ∷ q ∷ qs

unfoldable pub order_by_time : List Row → List Row
unfolding insert_by_time
order_by_time [] = []
order_by_time (r ∷ rs) = insert_by_time r (order_by_time rs)
