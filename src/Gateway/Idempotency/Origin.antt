-- ===== src/Gateway/Idempotency/Origin.antt =====
-- Where the responses of internal/gateway/middleware/idempotency.go come from when requests with
-- one key overlap.
pub mod Backed
use mathlib.Core.List.{Memᴰ}
use chain_pulse.Prelude.{
  ℕ, ◌+◌, ◌≤◌, String, Bool, true, false, ◌≡◌, ◌⊎◌, refl, sym, subst, ◌∙◌, arith, inl, inr, List,
  ◌∷◌, Option, none, some, ltb, ltb→lt, ltb→le, nat_eq, Bool-cases, Option-cases,
}
use chain_pulse.Storage.{
  RedisServer, StringLaws, Fault, not_executed, reply_lost, redis_get, redis_set, key,
}
use chain_pulse.Http.{Response}
use chain_pulse.Gateway.Idempotency.{
  StoredResponse, JsonCodec, CodecLaws, cacheable, replay_response,
}
use chain_pulse.Gateway.Idempotency.Interleaved.{
  Phase, waiting, admitted, answered, finished, Traffic, moved, after_run, after_lookup,
  set_marshalled, stored, keep, Step, passes, others, looks, runs_handler, stores, Steps, stays,
  and_then,
}
use chain_pulse.Gateway.Idempotency.Origin.Backed.{
  IsBacked, IsAnswer, IsBacked-more, Claims, Claims-more, moved-Claims,
}

module _ {S : Type 0} (r : RedisServer S) (codec : JsonCodec) where
  module _ (tenant_id suffix : String) (ttl : ℕ) (strings : StringLaws r)
      (laws : CodecLaws codec) where
    -- Whatever the key reads as from now on was kept from an execution.
    abbrev Sourced : List (ℕ × Response) → ℕ → S → Type 0
    Sourced runs now s =
        (t : ℕ) (v : String) (sr : StoredResponse)
        → now ≤ t
        → r.get t (key tenant_id suffix) s ≡ some v
        → codec.unmarshal v ≡ some sr
        → IsBacked r codec runs sr

    set-reads :
        (now t : ℕ) (b v : String) (s : S)
        → now ≤ t
        → r.get t (key tenant_id suffix) (r.set now (key tenant_id suffix) b ttl s) ≡ some v
        → v ≡ b
    set-reads now t b v s le read = elim (Bool-cases (ltb t (now + ttl))) [
      | inl early ↦
          let e = strings.get-set_self now t (key tenant_id suffix) b ttl s le (ltb→lt _ _ early) in
          cc
      | inr late ↦
          elim (strings.get-set_late now t (key tenant_id suffix) b ttl s (ltb→le _ _ late)) [
            | inl gone ↦ cc
            | inr e ↦ cc
          ]
    ]

    Sourced-set :
        {runs : List (ℕ × Response)} (now i : ℕ) (p : Response) (b : String) (s : S)
        → cacheable p.status ≡ true
        → codec.marshal (stored r codec p) ≡ some b
        → Memᴰ (i, p) runs
        → Sourced runs now (r.set now (key tenant_id suffix) b ttl s)
    Sourced-set now i p b s c m given t v sr le read decodes =
        let same = set-reads now t b v s le read in
        let own = laws.unmarshal-marshal _ b m in
        record { run = (i, p); is_run = given; is_kept = c; same = cc }

    Sourced-set_marshalled :
        {runs : List (ℕ × Response)} (fault : Option Fault) (now i : ℕ) (p : Response) (s : S)
        (o : Option String)
        → cacheable p.status ≡ true
        → codec.marshal (stored r codec p) ≡ o
        → Memᴰ (i, p) runs
        → Sourced runs now s
        → Sourced runs now (set_marshalled r codec tenant_id suffix ttl fault now o s)
    unfolding redis_set
    Sourced-set_marshalled fault now i p s none c m given old = old
    Sourced-set_marshalled none now i p s (some b) c m given old = Sourced-set now i p b s c m given
    Sourced-set_marshalled (some not_executed) now i p s (some b) c m given old = old
    Sourced-set_marshalled (some reply_lost) now i p s (some b) c m given old =
        Sourced-set now i p b s c m given

    Sourced-keep :
        {runs : List (ℕ × Response)} (fault : Option Fault) (now i : ℕ) (p : Response) (s : S)
        → Memᴰ (i, p) runs
        → Sourced runs now s
        → Sourced runs now (keep r codec tenant_id suffix ttl fault now p s)
    Sourced-keep fault now i p s given old = elim (Bool-cases (cacheable p.status)) [
      | inl e ↦ rw e (Sourced-set_marshalled fault now i p s _ e refl given old)
      | inr e ↦ rw e old
    ]

    Sourced-lookup :
        {runs : List (ℕ × Response)} (fault : Option Fault) (now i : ℕ) (s : S)
        → Sourced runs now s
        → Claims r codec runs i
            (after_lookup r codec tenant_id suffix ttl (redis_get r fault now tenant_id suffix s))
    unfolding redis_get
    Sourced-lookup (some fault) now i s src = tt
    Sourced-lookup none now i s src = elim (Option-cases (r.get now (key tenant_id suffix) s)) [
      | inl missing ↦ rw missing tt
      | inr (v, read) ↦ elim (Option-cases (codec.unmarshal v)) [
        | inl broken ↦ rw (read, broken) tt
        | inr (sr, u) ↦ rw (read, u) (inr (sr, refl, src now v sr (omega arith) read u))
      ]
    ]

    record Sound (σ : Traffic S) : Type 0 where
      readable : Sourced σ.runs σ.clock σ.redis
      claims : (j : ℕ) → Claims r codec σ.runs j (σ.phases j)

    after_run-Claims :
        (runs : List (ℕ × Response)) (i : ℕ) (keeps : Bool) (p : Response)
        → Claims r codec ((i, p) ∷ runs) i (after_run keeps p)
    after_run-Claims runs i true p = Memᴰ.head refl
    after_run-Claims runs i false p = inl (Memᴰ.head refl)

    Step-Sound :
        {faults : Bool} {σ τ : Traffic S}
        → Step r codec tenant_id suffix ttl faults σ τ
        → Sound σ
        → Sound τ
    Step-Sound (passes t le) h = record {
      readable = λ t' v sr le' read u. h.readable t' v sr (omega arith) read u;
      claims = h.claims;
    }
    Step-Sound (others s same) h = record {
      readable = λ t v sr le read u. h.readable t v sr le (sym (same t) ∙ read) u;
      claims = h.claims;
    }
    Step-Sound {σ = σ} (looks i fault e allowed) h = record {
      readable = h.readable;
      claims =
          moved-Claims r codec σ.runs σ.phases i _
            (Sourced-lookup fault σ.clock i σ.redis h.readable) h.claims;
    }
    Step-Sound {σ = σ} (runs_handler i keeps p e) h = record {
      readable = λ t v sr le read u. IsBacked-more r codec (i, p) (h.readable t v sr le read u);
      claims =
          moved-Claims r codec ((i, p) ∷ σ.runs) σ.phases i _ (after_run-Claims σ.runs i keeps p)
            (λ j. Claims-more r codec σ.runs j (i, p) (σ.phases j) (h.claims j));
    }
    Step-Sound {σ = σ} (stores i fault p e) h =
        let given : Memᴰ (i, p) σ.runs = subst (Claims r codec σ.runs i) e (h.claims i) in
        record {
          readable = Sourced-keep fault σ.clock i p σ.redis given h.readable;
          claims = moved-Claims r codec σ.runs σ.phases i (finished p) (inl given) h.claims;
        }

    Steps-Sound :
        {faults : Bool} {σ τ : Traffic S}
        → Steps r codec tenant_id suffix ttl faults σ τ
        → Sound σ
        → Sound τ
    Steps-Sound stays h = h
    Steps-Sound (and_then steps step) h = Step-Sound step (Steps-Sound steps h)

    -- From a key that is absent, and whatever requests with that key, other clients of Redis, its
    -- failures and the clock do and in whatever order: a request that is finished was answered with
    -- what its own handler gave, or with the stored form, marked as a replay, of what a handler
    -- gave that ran under the same key before, with a status between 200 and 499.
    pub finished-IsAnswer :
        (faults : Bool) (σ τ : Traffic S) (j : ℕ) (p : Response)
        → ((i : ℕ) → σ.phases i ≡ waiting)
        → ((t : ℕ) → r.get t (key tenant_id suffix) σ.redis ≡ none)
        → Steps r codec tenant_id suffix ttl faults σ τ
        → τ.phases j ≡ finished p
        → IsAnswer r codec τ.runs j p
    finished-IsAnswer faults σ τ j p fresh absent steps e =
        let start : Sound σ = record {
          readable = λ t v sr le read u. let gone = absent t in cc;
          claims = λ i. subst (Claims r codec σ.runs i) (sym (fresh i)) tt;
        } in
        let sound = Steps-Sound steps start in subst (Claims r codec τ.runs j) e (sound.claims j)
