-- ===== src/Gateway/Idempotency/Alone.antt =====
-- The steps of Gateway/Idempotency/Interleaved against Idempotency of
-- internal/gateway/middleware/idempotency.go itself.
use chain_pulse.Prelude.{
  ℕ, ◌≤◌, String, true, false, ◌≡◌, ◌≢◌, refl, sym, subst, ap, ◌∙◌, arith, ◌∷◌, Option, none, some,
  Bool-cases, Option-cases, inl, inr,
}
use chain_pulse.Identity.{Identity}
use chain_pulse.Storage.{RedisServer, cache_miss, unavailable, Reply, ok, err, redis_get}
use chain_pulse.Http.{Response, Context, Handler, Part, Outcome}
use chain_pulse.Gateway.Idempotency.{
  StoredResponse, JsonCodec, IdempotencyEvents, cacheable, replay_response, replay, persist,
  remember, dedup, idempotency_suffix, idempotency,
}
use chain_pulse.Gateway.Idempotency.Replay.{with_key}
use chain_pulse.Gateway.Idempotency.Interleaved.{
  Phase, waiting, admitted, answered, finished, Traffic, moved, after_run, after_lookup,
  set_marshalled, keep, passes, looks, runs_handler, stores, Steps, stays, and_then,
}

-- A handler that gives this response and leaves the state as it is.
abbrev pub giving : {S : Type 0} → Response → Handler S
giving p c s = record { world = s; context = c; response = p }

-- The state of Redis as the whole state.
abbrev pub redis_alone : {S : Type 0} → Part S S
redis_alone = record { view = λ s. s; put = λ s w. s; view-put = λ s w. refl }

moved_self : (i : ℕ) (x : Phase) (phases : ℕ → Phase) → moved i x phases i ≡ x
moved_self i x phases = ground arith

module _ {S : Type 0} (r : RedisServer S) (codec : JsonCodec) (ttl : ℕ) (ev : IdempotencyEvents)
    (p : Response) (c : Context) (actor : Identity) where
  abbrev suffix : String
  suffix = idempotency_suffix c

  persist-set_marshalled :
      (o : Option String) (s : S)
      → (persist r redis_alone codec ttl ev actor.tenant_id suffix (giving p c s) o).world
        ≡ set_marshalled r codec actor.tenant_id suffix ttl ev.set_fault ev.set_time o s
  persist-set_marshalled none s = refl
  persist-set_marshalled (some b) s = refl

  persist_response :
      (o : Option String) (s : S)
      → (persist r redis_alone codec ttl ev actor.tenant_id suffix (giving p c s) o).response ≡ p
  persist_response none s = refl
  persist_response (some b) s = refl

  remember-keep :
      (s : S)
      → ((remember r redis_alone codec ttl ev actor.tenant_id suffix (giving p c s)).world
          ≡ keep r codec actor.tenant_id suffix ttl ev.set_fault ev.set_time p s)
        × ((remember r redis_alone codec ttl ev actor.tenant_id suffix (giving p c s)).response ≡ p)
  unfolding remember
  remember-keep s = elim (Bool-cases (cacheable p.status)) [
    | inl e ↦ rw e (persist-set_marshalled _ s, persist_response _ s)
    | inr e ↦ rw e (refl, refl)
  ]

  -- The three steps of request i on its own: the lookup at its time and with its fault, the handler,
  -- which gives p, if the lookup let it through, and the store at its time and with its fault, if
  -- there is a response to store.
  abbrev look_alone : ℕ → Traffic S → Traffic S
  look_alone i σ = record σ {
    clock = ev.get_time;
    phases =
        moved i
          (after_lookup r codec actor.tenant_id suffix ttl
            (redis_get r ev.get_fault ev.get_time actor.tenant_id suffix σ.redis))
          σ.phases;
  }

  abbrev run_alone : ℕ → Phase → Traffic S → Traffic S
  run_alone i (admitted keeps) σ = record σ {
    phases = moved i (after_run keeps p) σ.phases;
    runs = (i, p) ∷ σ.runs;
  }
  run_alone i waiting σ = σ
  run_alone i (answered q) σ = σ
  run_alone i (finished q) σ = σ

  abbrev store_alone : ℕ → Phase → Traffic S → Traffic S
  store_alone i (answered q) σ = record σ {
    clock = ev.set_time;
    redis = keep r codec actor.tenant_id suffix ttl ev.set_fault ev.set_time q σ.redis;
    phases = moved i (finished q) σ.phases;
  }
  store_alone i waiting σ = σ
  store_alone i (admitted keeps) σ = σ
  store_alone i (finished q) σ = σ

  abbrev then_runs : ℕ → Traffic S → Traffic S
  then_runs i σ = run_alone i (σ.phases i) σ

  abbrev then_stores : ℕ → Traffic S → Traffic S
  then_stores i σ = store_alone i (σ.phases i) σ

  -- The request from beginning to end, with no other one in between.
  unfoldable pub alone : ℕ → Traffic S → Traffic S
  alone i σ = then_stores i (then_runs i (look_alone i σ))

  -- That run is one of the steps, and ends with this outcome.
  pub record Completes (i : ℕ) (σ : Traffic S) (o : Outcome S) : Type 0 where
    pub path : Steps r codec actor.tenant_id suffix ttl true σ (alone i σ)
    pub responded : (alone i σ).phases i ≡ finished o.response
    pub left : (alone i σ).redis ≡ o.world

  -- The same, for whatever state is last.
  record Ends (i : ℕ) (σ final : Traffic S) (o : Outcome S) : Type 0 where
    steps : Steps r codec actor.tenant_id suffix ttl true σ final
    response_is : final.phases i ≡ finished o.response
    redis_is : final.redis ≡ o.world

  module _ (i : ℕ) (σ : Traffic S) (from : σ.clock ≤ ev.get_time)
      (ordered : ev.get_time ≤ ev.set_time) (start : σ.phases i ≡ waiting) where
    abbrev looked : Phase → Traffic S
    looked x = record σ { clock = ev.get_time; phases = moved i x σ.phases }

    abbrev ReachesBy : Phase → Type 0
    ReachesBy x = Steps r codec actor.tenant_id suffix ttl true σ (looked x)

    after_looks : ReachesBy (
        after_lookup r codec actor.tenant_id suffix ttl
          (redis_get r ev.get_fault ev.get_time actor.tenant_id suffix σ.redis))
    after_looks =
        and_then (and_then stays (passes ev.get_time from)) (looks i ev.get_fault start refl)

    abbrev rest : Phase → Traffic S
    rest x = then_stores i (then_runs i (looked x))

    -- The rest of a request from the phase in which its lookup leaves it, and the one in which its
    -- handler does.
    rest_lem :
        (x y : Phase)
        → (run_alone i x (looked x)).phases i ≡ y
        → rest x ≡ store_alone i y (run_alone i x (looked x))
    rest_lem x y e =
        ap (λ z. then_stores i (run_alone i z (looked x))) (moved_self i x σ.phases)
        ∙ ap (λ z. store_alone i z (run_alone i x (looked x))) e

    kept-Ends :
        ReachesBy (admitted true)
        → Ends i σ
            (rest (admitted true))
            (remember r redis_alone codec ttl ev actor.tenant_id suffix (giving p c σ.redis))
    kept-Ends steps =
        let (left, response) = remember-keep σ.redis in
        let kept =
          rest_lem (admitted true) (answered p)
            (moved_self i (answered p) (moved i (admitted true) σ.phases)) in
        subst
          (λ τ.
            Ends i σ τ
              (remember r redis_alone codec ttl ev actor.tenant_id suffix (giving p c σ.redis)))
          (sym kept)
          (record {
            steps =
                and_then
                  (and_then (and_then steps (runs_handler i true p (moved_self i _ σ.phases)))
                    (passes ev.set_time ordered))
                  (stores i ev.set_fault p (moved_self i _ (moved i (admitted true) σ.phases)));
            response_is =
                moved_self i _ (moved i (answered p) (moved i (admitted true) σ.phases))
                ∙ ap finished (sym response);
            redis_is = sym left;
          })

    untracked-Ends :
        ReachesBy (admitted false) → Ends i σ (rest (admitted false)) (giving p c σ.redis)
    untracked-Ends steps =
        let kept =
          rest_lem (admitted false) (finished p)
            (moved_self i (finished p) (moved i (admitted false) σ.phases)) in
        subst (λ τ. Ends i σ τ (giving p c σ.redis)) (sym kept)
          (record {
            steps = and_then steps (runs_handler i false p (moved_self i _ σ.phases));
            response_is = moved_self i _ (moved i (admitted false) σ.phases);
            redis_is = refl;
          })

    replayed-Ends :
        (sr : StoredResponse)
        → ReachesBy (finished (replay_response sr))
        → Ends i σ (rest (finished (replay_response sr))) (replay r redis_alone codec c σ.redis sr)
    replayed-Ends sr steps =
        let x = finished (replay_response sr) in
        let kept = rest_lem x x (moved_self i x σ.phases) in
        subst (λ τ. Ends i σ τ (replay r redis_alone codec c σ.redis sr)) (sym kept)
          (record { steps = steps; response_is = moved_self i _ σ.phases; redis_is = refl })

    dedup-Ends :
        (found : Reply String)
        → ReachesBy (after_lookup r codec actor.tenant_id suffix ttl found)
        → Ends i σ
            (rest (after_lookup r codec actor.tenant_id suffix ttl found))
            (dedup r redis_alone codec ttl ev actor.tenant_id suffix (giving p) c σ.redis found)
    dedup-Ends (ok v) steps = elim (Option-cases (codec.unmarshal v)) [
      | inl u ↦ rw u (kept-Ends (rw u at steps))
      | inr (sr, u) ↦ rw u (replayed-Ends sr (rw u at steps))
    ]
    dedup-Ends (err cache_miss) steps = kept-Ends steps
    dedup-Ends (err unavailable) steps = untracked-Ends steps

    -- What Idempotency does to one request with a key and an actor is what the steps of that request
    -- alone do: from a time not after its lookup on, and the store not before the lookup, with the faults and at the times of the request itself and with no
    -- other request in between, they lead to the response and the state of Redis that the
    -- middleware leaves around a handler that gives this response.
    pub idempotency-Completes :
        c.header "Idempotency-Key" ≢ ""
        → c.identity ≡ some actor
        → Completes i σ (idempotency r redis_alone codec ttl ev (giving p) c σ.redis)
    unfolding alone
    idempotency-Completes n e =
        let ends = dedup-Ends _ after_looks in
        rw (with_key r redis_alone codec ttl ev (giving p) c σ.redis actor n e)
          (record { path = ends.steps; responded = ends.response_is; left = ends.redis_is })
