-- ===== src/Gateway/Idempotency/Origin/Backed.antt =====
-- What the phase of a request promises of where its response comes from.
use mathlib.Core.List.{Memᴰ}
use chain_pulse.Prelude.{ℕ, true, ◌≡◌, ◌⊎◌, subst, arith, inl, inr, List, ◌∷◌, nat_eq, Bool-cases}
use chain_pulse.Storage.{RedisServer}
use chain_pulse.Http.{Response}
use chain_pulse.Gateway.Idempotency.{StoredResponse, JsonCodec, cacheable, replay_response}
use chain_pulse.Gateway.Idempotency.Interleaved.{
  Phase, waiting, admitted, answered, finished, moved, stored,
}

module _ {S : Type 0} (r : RedisServer S) (codec : JsonCodec) where
  -- The stored form of what some execution gave, with a status that is kept.
  pub record IsBacked (runs : List (ℕ × Response)) (sr : StoredResponse) : Type 0 where
    pub run : ℕ × Response
    pub is_run : Memᴰ run runs
    pub is_kept : cacheable run.1.status ≡ true
    pub same : sr ≡ stored r codec run.1

  -- What a request is answered with: what its own handler gave, or a replay.
  abbrev pub IsAnswer : List (ℕ × Response) → ℕ → Response → Type 0
  IsAnswer runs j p =
      Memᴰ (j, p) runs ⊎ ((sr : StoredResponse) × (p ≡ replay_response sr) × IsBacked runs sr)

  pub IsBacked-more :
      {runs : List (ℕ × Response)} {sr : StoredResponse} (run : ℕ × Response)
      → IsBacked runs sr
      → IsBacked (run ∷ runs) sr
  IsBacked-more run b = record {
    run = b.run;
    is_run = Memᴰ.tail b.is_run;
    is_kept = b.is_kept;
    same = b.same;
  }

  IsAnswer-more :
      {runs : List (ℕ × Response)} {j : ℕ} {p : Response} (run : ℕ × Response)
      → IsAnswer runs j p
      → IsAnswer (run ∷ runs) j p
  IsAnswer-more run (inl m) = inl (Memᴰ.tail m)
  IsAnswer-more run (inr (sr, e, b)) = inr (sr, e, IsBacked-more run b)

  -- What a phase promises of the request in it.
  abbrev pub Claims : List (ℕ × Response) → ℕ → Phase → Type 0
  Claims runs j waiting = Unit
  Claims runs j (admitted keeps) = Unit
  Claims runs j (answered p) = Memᴰ (j, p) runs
  Claims runs j (finished p) = IsAnswer runs j p

  pub Claims-more :
      (runs : List (ℕ × Response)) (j : ℕ) (run : ℕ × Response) (x : Phase)
      → Claims runs j x
      → Claims (run ∷ runs) j x
  Claims-more runs j run waiting c = tt
  Claims-more runs j run (admitted keeps) c = tt
  Claims-more runs j run (answered p) c = Memᴰ.tail c
  Claims-more runs j run (finished p) c = IsAnswer-more run c

  pub moved-Claims :
      (runs : List (ℕ × Response)) (phases : ℕ → Phase) (i : ℕ) (x : Phase)
      → Claims runs i x
      → ((j : ℕ) → Claims runs j (phases j))
      → (j : ℕ) → Claims runs j (moved i x phases j)
  moved-Claims runs phases i x c all j = elim (Bool-cases (nat_eq j i)) [
    | inl e ↦ let same : i ≡ j = ground arith in rw e (subst (λ n. Claims runs n x) same c)
    | inr e ↦ rw e (all j)
  ]
