-- ===== src/Tests/Overlap.antt =====
-- Overlapping requests with one idempotency key.
use chain_pulse.Prelude.{
  String, Bool, true, false, ◌≡◌, refl, arith, [], ◌∷◌, none, length, ne_of_false,
}
use chain_pulse.Storage.{redis_get, redis_set, key}
use chain_pulse.Http.{Response, raw}
use chain_pulse.Gateway.Idempotency.{
  IdempotencyEvents, idempotency, replay_response, stored_response, written, content_type_of,
}
use chain_pulse.Gateway.Idempotency.Interleaved.{
  waiting, admitted, answered, finished, Traffic, moved, after_lookup, stored, keep, passes, looks,
  runs_handler, stores, Steps, stays, and_then,
}
use chain_pulse.Gateway.Idempotency.Once.{IsAnsweredOnce, stored-once}
use chain_pulse.Gateway.Idempotency.Alone.{Completes, giving, redis_alone, idempotency-Completes}
use chain_pulse.Gateway.Idempotency.Origin.{finished-IsAnswer}
use chain_pulse.Gateway.Idempotency.Origin.Backed.{IsAnswer}
use chain_pulse.Tests.Limits.{Store, server, server-StringLaws, empty}
use chain_pulse.Tests.Edge.{codec, codec-CodecLaws, analyst, post_order}

abbrev suffix : String
suffix = "idem:/v1/orders:key-1"

abbrev gives : String → Response
gives text = record { status = 201; body = raw "text/plain" text; headers = [] }

abbrev quiet : Traffic Store
quiet = record { clock = 0; redis = empty; phases = λ i. waiting; runs = [] }

abbrev Route : Bool → Traffic Store → Traffic Store → Type 0
Route = Steps server codec "acme" suffix 100

-- Two requests that look before either stores: both run their handlers.
both_run : (τ : Traffic Store) × Route false quiet τ × (length τ.runs ≡ 2)
unfolding redis_get
both_run = (
  _,
  and_then
      (and_then (and_then (and_then stays (looks 0 none refl refl)) (looks 1 none refl refl))
        (runs_handler 0 true (gives "order 1") refl))
      (runs_handler 1 true (gives "order 2") refl),
  refl,
)

-- Request 0 has run and is about to store.
abbrev before_store : Traffic Store
before_store = record {
  clock = 10;
  redis = empty;
  phases = moved 0 (answered (gives "order 1")) (moved 0 (admitted true) (λ i. waiting));
  runs = (0, gives "order 1") ∷ [];
}

abbrev after_store : Traffic Store
after_store = record before_store {
  redis = keep server codec "acme" suffix 100 none 10 (gives "order 1") empty;
  phases = moved 0 (finished (gives "order 1")) before_store.phases;
}

-- Request 1 looks at 50.
abbrev after_retry : Traffic Store
after_retry = record after_store {
  clock = 50;
  phases =
      moved 1
        (after_lookup server codec "acme" suffix 100
          (redis_get server none 50 "acme" suffix after_store.redis))
        after_store.phases;
}

retries : Route false after_store after_retry
retries = and_then (and_then stays (passes 50 (omega arith))) (looks 1 none refl refl)

runs_first : Route true quiet before_store
unfolding redis_get
runs_first =
    and_then (and_then (and_then stays (passes 10 (omega arith))) (looks 0 none refl refl))
      (runs_handler 0 true (gives "order 1") refl)

stored-once_example :
    IsAnsweredOnce server codec "acme" suffix 100 server-StringLaws codec-CodecLaws 1 after_retry
unfolding stored_response written content_type_of
stored-once_example =
    stored-once server codec "acme" suffix 100 server-StringLaws codec-CodecLaws quiet before_store
      after_retry 0 1 none (gives "order 1") "order 1" (λ i. refl) (λ t. refl) runs_first refl refl
      (λ e. cc) refl refl (λ e. ground arith, tt) retries (omega arith)

arrives : Route false quiet after_store
unfolding redis_get
arrives =
    and_then
      (and_then (and_then (and_then stays (passes 10 (omega arith))) (looks 0 none refl refl))
        (runs_handler 0 true (gives "order 1") refl))
      (stores 0 none (gives "order 1") refl)

finished-IsAnswer_example :
    IsAnswer server codec after_retry.runs 1
      (replay_response (stored server codec (gives "order 1")))
unfolding stored_response written content_type_of redis_get redis_set key
finished-IsAnswer_example =
    finished-IsAnswer server codec "acme" suffix 100 server-StringLaws codec-CodecLaws false quiet
      after_retry 1 (replay_response (stored server codec (gives "order 1"))) (λ i. refl)
      (λ t. refl) (and_then (and_then arrives (passes 50 (omega arith))) (looks 1 none refl refl))
      refl

abbrev events : IdempotencyEvents
events = record { get_time = 10; get_fault = none; set_time = 20; set_fault = none }

idempotency-Completes_example :
    Completes server codec 100 events
      (gives "order 1")
      post_order
      analyst
      0
      quiet
      (idempotency server redis_alone codec 100 events (giving (gives "order 1")) post_order empty)
idempotency-Completes_example =
    idempotency-Completes server codec 100 events (gives "order 1") post_order analyst 0 quiet
      (omega arith) (omega arith) refl (ne_of_false refl) refl
