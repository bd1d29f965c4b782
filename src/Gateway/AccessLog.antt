-- ===== src/Gateway/AccessLog.antt =====
-- internal/gateway/middleware/logging.go. Times are in nanoseconds.
use chain_pulse.Prelude.{ℕ, ◌-◌, ◌/◌, String, Bool, List, Option}
use chain_pulse.Http.{Handler, Outcome}
use chain_pulse.Logger.{info}
use chain_pulse.Scope.{logger_of}

-- One line, with the attributes of the logger that writes it.
pub record AccessLine : Type 0 where
  pub attributes : List (String × String)
  pub method : String
  pub route : String
  pub path : String
  pub status : ℕ
  pub latency_ms : ℕ
  pub policy_decision : Option String
  pub policy_rule : Option String
  pub ratelimit_fallback : Bool

-- The state that the handlers see, and the access log, newest line first.
pub record Observed (W : Type 0) : Type 0 where
  pub inner : W
  pub access : List AccessLine

module _ {W : Type 0} where
  abbrev pub access_line : ℕ → Outcome W → AccessLine
  access_line latency o = record {
    attributes = (logger_of o.context.scope).attributes;
    method = o.context.method;
    route = o.context.full_path;
    path = o.context.path;
    status = o.response.status;
    latency_ms = latency / 1000000;
    policy_decision = o.context.policy_decision;
    policy_rule = o.context.policy_rule;
    ratelimit_fallback = o.context.ratelimit_fallback;
  }

  -- RequestLog, with the time before the rest of the chain and the one after it.
  unfoldable pub request_log : ℕ → ℕ → Handler W → Handler (Observed W)
  request_log start finish next c w =
      let o = next c w.inner in
      record {
        world = record {
          inner = o.world;
          access = info (logger_of o.context.scope) (access_line (finish - start) o) w.access;
        };
        context = o.context;
        response = o.response;
      }

-- What the handlers behind the log left.
abbrev pub seen : {W : Type 0} → Outcome (Observed W) → Outcome W
seen o = record { world = o.world.inner; context = o.context; response = o.response }
