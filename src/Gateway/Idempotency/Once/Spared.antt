-- ===== src/Gateway/Idempotency/Once/Spared.antt =====
-- A request that comes after the store of a response, until the time to live is over:
-- internal/gateway/middleware/idempotency.go answers it without its handler.
use chain_pulse.Prelude.{
  ℕ, ◌+◌, ◌≤◌, ◌<◌, String, Bool, true, false, not, ◌≡◌, ◌≢◌, ◌⊎◌, refl, sym, subst, arith, inl,
  inr, Option, none, some, All, nat_eq, Bool-cases,
}
use chain_pulse.Storage.{RedisServer, StringLaws, Fault, redis_get}
use chain_pulse.Auth.Rows.{is_some}
use chain_pulse.Http.{Response}
use chain_pulse.Gateway.Idempotency.{StoredResponse, JsonCodec, CodecLaws, replay_response}
use chain_pulse.Gateway.Idempotency.Interleaved.{
  Phase, waiting, admitted, answered, finished, Traffic, moved, after_run, after_lookup, Step,
  passes, others, looks, runs_handler, stores, Steps, stays, and_then,
}
use chain_pulse.Gateway.Idempotency.Once.Keeping.{Kept, Kept-keep}

-- A request that was not let through: it waits, or a stored response answered it, and its handler
-- did not run.
pub record IsSpared {S : Type 0} (j : ℕ) (σ : Traffic S) : Type 0 where
  pub where_it_is :
      (σ.phases j ≡ waiting)
      ⊎ ((sr : StoredResponse) × (σ.phases j ≡ finished (replay_response sr)))
  pub not_run : All (λ run. run.0 ≢ j) σ.runs

spared_admitted :
    {S : Type 0} {j : ℕ} {σ : Traffic S} {keeps : Bool}
    → IsSpared j σ
    → σ.phases j ≡ admitted keeps
    → ⊥
spared_admitted s e = elim s.where_it_is [ inl w ↦ cc | inr (sr, f) ↦ cc ]

spared_answered :
    {S : Type 0} {j : ℕ} {σ : Traffic S} {p : Response} → IsSpared j σ → σ.phases j ≡ answered p → ⊥
spared_answered s e = elim s.where_it_is [ inl w ↦ cc | inr (sr, f) ↦ cc ]

pub waiting_not_answered : {x : Phase} {p : Response} → x ≡ waiting → x ≡ answered p → ⊥
waiting_not_answered w e = cc

nat_eq_sound : (i j : ℕ) → nat_eq i j ≡ true → i ≡ j
nat_eq_sound i j e = ground arith

module _ {S : Type 0} (r : RedisServer S) (codec : JsonCodec) (tenant_id suffix : String) (ttl : ℕ)
    (strings : StringLaws r) (laws : CodecLaws codec) where
  module _ (deadline j : ℕ) where
    -- Before the deadline the key is kept, and this request spared.
    pub record Guards (σ : Traffic S) : Type 0 where
      pub in_time : deadline ≤ σ.clock + ttl
      pub kept : Kept r codec tenant_id suffix ttl strings laws deadline σ.clock σ.redis
      pub spared : IsSpared j σ

    looks-IsSpared :
        (σ : Traffic S) (i : ℕ) (fault : Option Fault)
        → Guards σ
        → σ.clock < deadline
        → not (is_some fault) ≡ true
        → IsSpared j (record σ {
          phases =
              moved i
                (after_lookup r codec tenant_id suffix ttl
                  (redis_get r fault σ.clock tenant_id suffix σ.redis))
                σ.phases;
        })
    unfolding redis_get
    looks-IsSpared σ i (some fault) g lt e = cc
    looks-IsSpared σ i none g lt e =
        let (v, sr, read, decodes) = g.kept σ.clock (omega arith) lt in
        record {
          where_it_is = elim (Bool-cases (nat_eq j i)) [
            | inl same ↦ inr (sr, rw (same, read, decodes) refl)
            | inr other ↦ rw other g.spared.where_it_is
          ];
          not_run = g.spared.not_run;
        }

    pub others_moved :
        (σ : Traffic S) (i : ℕ) (x : Phase) → i ≢ j → moved i x σ.phases j ≡ σ.phases j
    others_moved σ i x n = elim (Bool-cases (nat_eq j i)) [
      | inl same ↦ absurd (n (sym (nat_eq_sound j i same)))
      | inr other ↦ rw other refl
    ]

    -- A step of another request that moves nothing but that request.
    IsSpared-moved :
        (σ : Traffic S) (i : ℕ) (x : Phase)
        → i ≢ j
        → IsSpared j σ
        → (moved i x σ.phases j ≡ waiting)
          ⊎ ((sr : StoredResponse) × (moved i x σ.phases j ≡ finished (replay_response sr)))
    IsSpared-moved σ i x n g = rw (others_moved σ i x n) g.where_it_is

    Step-Guards :
        {σ τ : Traffic S}
        → Step r codec tenant_id suffix ttl false σ τ
        → τ.clock < deadline
        → Guards σ
        → Guards τ
    Step-Guards (passes t le) lt g = record {
      in_time = omega (arith, g.in_time);
      kept = λ t' le' lt'. g.kept t' (omega arith) lt';
      spared = record { where_it_is = g.spared.where_it_is; not_run = g.spared.not_run };
    }
    Step-Guards (others s same) lt g = record {
      in_time = g.in_time;
      kept = λ t le lt'. rw (same t) (g.kept t le lt');
      spared = record { where_it_is = g.spared.where_it_is; not_run = g.spared.not_run };
    }
    Step-Guards {σ} (looks i fault e ok) lt g = record {
      in_time = g.in_time;
      kept = g.kept;
      spared = looks-IsSpared σ i fault g lt ok;
    }
    Step-Guards {σ} (runs_handler i keeps p e) lt g =
        let n : i ≢ j =
          λ same. spared_admitted g.spared (subst (λ x. σ.phases x ≡ admitted keeps) same e) in
        record {
          in_time = g.in_time;
          kept = g.kept;
          spared = record {
            where_it_is = IsSpared-moved σ i (after_run keeps p) n g.spared;
            not_run = (n, g.spared.not_run);
          };
        }
    Step-Guards {σ} (stores i fault p e) lt g =
        let n : i ≢ j =
          λ same. spared_answered g.spared (subst (λ x. σ.phases x ≡ answered p) same e) in
        record {
          in_time = g.in_time;
          kept =
              Kept-keep r codec tenant_id suffix ttl strings laws fault σ.clock deadline p σ.redis
                g.in_time g.kept;
          spared = record {
            where_it_is = IsSpared-moved σ i (finished p) n g.spared;
            not_run = g.spared.not_run;
          };
        }

    clock-le : {σ τ : Traffic S} → Step r codec tenant_id suffix ttl false σ τ → σ.clock ≤ τ.clock
    clock-le (passes t le) = le
    clock-le (others s same) = omega arith
    clock-le (looks i fault e ok) = omega arith
    clock-le (runs_handler i keeps p e) = omega arith
    clock-le (stores i fault p e) = omega arith

    pub Steps-Guards :
        {σ τ : Traffic S}
        → Steps r codec tenant_id suffix ttl false σ τ
        → τ.clock < deadline
        → Guards σ
        → Guards τ
    Steps-Guards stays lt g = g
    Steps-Guards (and_then steps step) lt g =
        Step-Guards step lt (Steps-Guards steps (omega (arith, clock-le step)) g)
