-- ===== src/Tests/Outage.antt =====
-- Two instances behind one Redis that fails half-way.
use chain_pulse.Prelude.{◌≤◌, ◌≡◌, refl, ap, arith, List, [], ◌∷◌, none, some, pos}
use chain_pulse.Identity.{Identity}
use chain_pulse.Http.{Context, require_actor, abort}
use chain_pulse.Storage.{not_executed, reply_lost, key}
use chain_pulse.Gateway.RateLimit.{redis_allow, memory_allow, memory_key, new_memory_limiter}
use chain_pulse.Gateway.RateLimit.Log.{admitted_in}
use chain_pulse.Gateway.Limit.{rate_limit, suffix_of}
use chain_pulse.Gateway.Limit.Instances.{Request, start, arrive, arrive_all, IsOf, most_admitted}
use chain_pulse.Gateway.Limit.Outage.{outage-bounded}
use chain_pulse.Tests.Limits.{server, empty, sorted_sets}
use chain_pulse.Tests.Requests.{get_inventory}

abbrev analyst : Identity
analyst = record { tenant_id = "a"; user_id = "u"; role = "analyst"; region = ""; supplier_id = "" }

abbrev asking : Context
asking = record (get_inventory "") { identity = some analyst; full_path = "/x" }

abbrev requests : List Request
requests =
    record {
      instance_id = 0;
      context = asking;
      now = 10;
      fallback_now = 10;
      member = "m1";
      fault = none;
    }
    ∷ record {
      instance_id = 0;
      context = asking;
      now = 20;
      fallback_now = 25;
      member = "m2";
      fault = some not_executed;
    }
    ∷ record {
      instance_id = 1;
      context = asking;
      now = 30;
      fallback_now = 35;
      member = "m3";
      fault = some reply_lost;
    }
    ∷ record {
      instance_id = 1;
      context = asking;
      now = 40;
      fallback_now = 45;
      member = "m4";
      fault = some not_executed;
    }
    ∷ []

-- The most that two instances can admit under a limit of one.
arrive_all_sample :
    (arrive_all server (pos 1) 100 requests (start empty)).served ≡ 35 ∷ 25 ∷ 10 ∷ []
unfolding arrive_all arrive rate_limit redis_allow memory_allow new_memory_limiter memory_key key
    require_actor abort
arrive_all_sample = refl

is_ours : (q : Request) → q.context ≡ asking → IsOf "a" "ratelimit:/x" q
is_ours q e = record {
  actor = analyst;
  authenticated = ap (λ c. c.identity) e;
  same_tenant = refl;
  same_route = ap suffix_of e;
  unnoted = ap (λ c. c.ratelimit_fallback) e;
}

outage-bounded_example :
    admitted_in 100 50 (arrive_all server (pos 1) 100 requests (start empty)).served
    ≤ most_admitted (pos 1) 2 requests
unfolding arrive rate_limit redis_allow memory_allow new_memory_limiter memory_key key require_actor
    abort sorted_sets
outage-bounded_example =
    outage-bounded server sorted_sets "a" "ratelimit:/x" (pos 1) 100 2 requests empty 50
      ((
        is_ours _ refl,
        omega arith,
        omega arith,
        omega arith,
        (
          is_ours _ refl,
          omega arith,
          omega arith,
          omega arith,
          (
            is_ours _ refl,
            omega arith,
            omega arith,
            omega arith,
            (is_ours _ refl, omega arith, omega arith, omega arith, tt),
          ),
        ),
      ))
      (refl, (refl, (refl, (refl, tt)))) (λ t p. refl)
