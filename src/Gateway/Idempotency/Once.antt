-- ===== src/Gateway/Idempotency/Once.antt =====
-- What the lookups and the stores of internal/gateway/middleware/idempotency.go guarantee when
-- requests with one key overlap.
mod Keeping
mod Spared
use mathlib.Core.List.{Memᴰ}
use chain_pulse.Prelude.{
  ℕ, ◌+◌, ◌≤◌, ◌<◌, String, Bool, true, false, not, ◌≡◌, ◌≢◌, ◌⊎◌, refl, sym, ap, subst, ◌∙◌, arith,
  List, [], ◌∷◌, inl, inr, Option, none, some, All, nat_eq, Bool-cases,
}
use chain_pulse.Storage.{
  RedisServer, StringLaws, Fault, not_executed, reply_lost, redis_get, redis_set, key,
}
use chain_pulse.Auth.Rows.{is_some}
use chain_pulse.Http.{Response}
use chain_pulse.Gateway.Idempotency.{
  StoredResponse, JsonCodec, CodecLaws, cacheable, replay_response,
}
use chain_pulse.Gateway.Idempotency.Interleaved.{
  Phase, waiting, admitted, answered, finished, Traffic, moved, after_run, after_lookup,
  set_marshalled, stored, keep, Step, passes, others, looks, runs_handler, stores, Steps, stays,
  and_then,
}
use chain_pulse.Gateway.Idempotency.Origin.{finished-IsAnswer}
use chain_pulse.Gateway.Idempotency.Origin.Backed.{IsBacked, IsAnswer}
use chain_pulse.Gateway.Idempotency.Once.Spared.{
  IsSpared, Guards, waiting_not_answered, others_moved, Steps-Guards,
}
use chain_pulse.Gateway.Idempotency.Once.Keeping.{Kept, Kept-keep, Kept-stored}

not_among :
    (j : ℕ) (p : Response) (runs : List (ℕ × Response))
    → Memᴰ (j, p) runs
    → All (λ run. run.0 ≢ j) runs
    → ⊥
not_among j p [] m h = elim m [ ]
not_among j p (run ∷ runs) (Memᴰ.head e) (n, h) = n (sym (ap (λ x. x.0) e))
not_among j p (run ∷ runs) (Memᴰ.tail m) (n, h) = not_among j p runs m h

module _ {S : Type 0} (r : RedisServer S) (codec : JsonCodec) (tenant_id suffix : String) (ttl : ℕ)
    (strings : StringLaws r) (laws : CodecLaws codec) where
  -- A request that is answered from what was kept, or not yet: it waits, or it is finished with the
  -- replay of the stored form of what a handler gave under the same key, with a status that is
  -- kept; its own handler did not run.
  pub record IsAnsweredOnce (j : ℕ) (σ : Traffic S) : Type 0 where
    pub where_it_is :
        (σ.phases j ≡ waiting)
        ⊎ ((sr : StoredResponse) × (σ.phases j ≡ finished (replay_response sr))
            × IsBacked r codec σ.runs sr)
    pub not_run : All (λ run. run.0 ≢ j) σ.runs

  spared_once :
      (j : ℕ) (τ : Traffic S)
      → ((p : Response) → τ.phases j ≡ finished p → IsAnswer r codec τ.runs j p)
      → IsSpared j τ
      → IsAnsweredOnce j τ
  spared_once j τ source s = record {
    where_it_is = elim s.where_it_is [
      | inl w ↦ inl w
      | inr (sr, f) ↦ elim (source (replay_response sr) f) [
        | inl own ↦ absurd (not_among j _ τ.runs own s.not_run)
        | inr (sr', same, backed) ↦ inr (sr', f ∙ ap finished same, backed)
      ]
    ];
    not_run = s.not_run;
  }

  -- The lookups of a history may as well fail.
  Step-faulty :
      {σ τ : Traffic S}
      → Step r codec tenant_id suffix ttl false σ τ
      → Step r codec tenant_id suffix ttl true σ τ
  Step-faulty (passes t le) = passes t le
  Step-faulty (others s same) = others s same
  Step-faulty (looks i fault e ok) = looks i fault e refl
  Step-faulty (runs_handler i keeps p e) = runs_handler i keeps p e
  Step-faulty (stores i fault p e) = stores i fault p e

  after_history :
      {σ τ υ : Traffic S}
      → Steps r codec tenant_id suffix ttl true σ τ
      → Steps r codec tenant_id suffix ttl false τ υ
      → Steps r codec tenant_id suffix ttl true σ υ
  after_history before stays = before
  after_history before (and_then steps step) =
      and_then (after_history before steps) (Step-faulty step)

  -- From a key that is absent, let requests with that key, other clients of Redis, its failures
  -- and the clock have done whatever they did. Once the response of one request is then stored
  -- under the key, whatever they do after that and in whatever order, until the time to live is
  -- over: a request that had not been looked up before is answered, as long as the lookups reach
  -- Redis, only by the replay of the stored form of what a handler gave that ran under this key,
  -- with a status between 200 and 499, and its own handler never runs.
  pub stored-once :
      (start σ τ : Traffic S) (i j : ℕ) (fault : Option Fault) (p : Response) (b : String)
      → ((n : ℕ) → start.phases n ≡ waiting)
      → ((t : ℕ) → r.get t (key tenant_id suffix) start.redis ≡ none)
      → Steps r codec tenant_id suffix ttl true start σ
      → cacheable p.status ≡ true
      → codec.marshal (stored r codec p) ≡ some b
      → fault ≢ some not_executed
      → σ.phases i ≡ answered p
      → σ.phases j ≡ waiting
      → All (λ run. run.0 ≢ j) σ.runs
      → Steps r codec tenant_id suffix ttl false
          (record σ {
            redis = keep r codec tenant_id suffix ttl fault σ.clock p σ.redis;
            phases = moved i (finished p) σ.phases;
          })
          τ
      → τ.clock < σ.clock + ttl
      → IsAnsweredOnce j τ
  stored-once start σ τ i j fault p b fresh absent history c m f e w not_run steps lt =
      let n : i ≢ j =
        λ same. waiting_not_answered w (subst (λ x. σ.phases x ≡ answered p) same e) in
      let guards =
        Steps-Guards r codec tenant_id suffix ttl strings laws (σ.clock + ttl) j steps lt (record {
          in_time = omega arith;
          kept =
              Kept-stored r codec tenant_id suffix ttl strings laws fault σ.clock p b σ.redis c m f;
          spared = record {
            where_it_is = inl (
                others_moved r codec tenant_id suffix ttl strings laws (σ.clock + ttl) j σ i
                  (finished p) n
                ∙ w);
            not_run = not_run;
          };
        }) in
      spared_once j τ
        (λ q.
          finished-IsAnswer r codec tenant_id suffix ttl strings laws true start τ j q fresh absent
            (after_history (and_then history (stores i fault p e)) steps))
        guards.spared
