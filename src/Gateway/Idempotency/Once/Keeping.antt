-- ===== src/Gateway/Idempotency/Once/Keeping.antt =====
-- How long a stored response of internal/gateway/middleware/idempotency.go can be read.
use chain_pulse.Prelude.{
  ℕ, ◌+◌, ◌≤◌, ◌<◌, String, true, ◌≡◌, ◌≢◌, refl, arith, inl, inr, Option, none, some, Bool-cases,
}
use chain_pulse.Storage.{RedisServer, StringLaws, Fault, not_executed, reply_lost, redis_set, key}
use chain_pulse.Http.{Response}
use chain_pulse.Gateway.Idempotency.{StoredResponse, JsonCodec, CodecLaws, cacheable}
use chain_pulse.Gateway.Idempotency.Interleaved.{set_marshalled, stored, keep}

module _ {S : Type 0} (r : RedisServer S) (codec : JsonCodec) (tenant_id suffix : String) (ttl : ℕ)
    (strings : StringLaws r) (laws : CodecLaws codec) where
  -- Until this time the key reads as a stored response.
  abbrev pub Kept : ℕ → ℕ → S → Type 0
  Kept deadline now s =
      (t : ℕ)
      → now ≤ t
      → t < deadline
      → (v : String) × (sr : StoredResponse) × (r.get t (key tenant_id suffix) s ≡ some v)
        × (codec.unmarshal v ≡ some sr)

  Kept-set :
      (now deadline : ℕ) (b : String) (sr : StoredResponse) (s : S)
      → deadline ≤ now + ttl
      → codec.unmarshal b ≡ some sr
      → Kept deadline now (r.set now (key tenant_id suffix) b ttl s)
  Kept-set now deadline b sr s h u t le lt =
      (b, sr, strings.get-set_self now t (key tenant_id suffix) b ttl s le (omega arith), u)

  Kept-set_marshalled :
      (fault : Option Fault) (now deadline : ℕ) (p : Response) (s : S) (o : Option String)
      → codec.marshal (stored r codec p) ≡ o
      → deadline ≤ now + ttl
      → Kept deadline now s
      → Kept deadline now (set_marshalled r codec tenant_id suffix ttl fault now o s)
  unfolding redis_set
  Kept-set_marshalled fault now deadline p s none m h k = k
  Kept-set_marshalled none now deadline p s (some b) m h k =
      Kept-set now deadline b _ s h (laws.unmarshal-marshal _ b m)
  Kept-set_marshalled (some not_executed) now deadline p s (some b) m h k = k
  Kept-set_marshalled (some reply_lost) now deadline p s (some b) m h k =
      Kept-set now deadline b _ s h (laws.unmarshal-marshal _ b m)

  pub Kept-keep :
      (fault : Option Fault) (now deadline : ℕ) (p : Response) (s : S)
      → deadline ≤ now + ttl
      → Kept deadline now s
      → Kept deadline now (keep r codec tenant_id suffix ttl fault now p s)
  Kept-keep fault now deadline p s h k = elim (Bool-cases (cacheable p.status)) [
    | inl e ↦ rw e (Kept-set_marshalled fault now deadline p s _ refl h k)
    | inr e ↦ rw e k
  ]

  -- A store that the server runs.
  pub Kept-stored :
      (fault : Option Fault) (now : ℕ) (p : Response) (b : String) (s : S)
      → cacheable p.status ≡ true
      → codec.marshal (stored r codec p) ≡ some b
      → fault ≢ some not_executed
      → Kept (now + ttl) now (keep r codec tenant_id suffix ttl fault now p s)
  unfolding redis_set
  Kept-stored none now p b s c m f =
      rw (c, m) (Kept-set now (now + ttl) b _ s (omega arith) (laws.unmarshal-marshal _ b m))
  Kept-stored (some reply_lost) now p b s c m f =
      rw (c, m) (Kept-set now (now + ttl) b _ s (omega arith) (laws.unmarshal-marshal _ b m))
  Kept-stored (some not_executed) now p b s c m f = absurd (f refl)
