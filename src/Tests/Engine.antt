-- ===== src/Tests/Engine.antt =====
-- The policy engine on concrete requests; order values are whole numbers here.
use mathlib.Core.List.Perm
use chain_pulse.Prelude.{
  ℕ, String, true, false, ◌≡◌, refl, inr, List, [], ◌∷◌, none, some, leb, pos,
}
use chain_pulse.Scope.{empty_scope}
use chain_pulse.Identity.{Identity, role_warehouse_manager}
use chain_pulse.Http.{Context, Handler, no_body, reply}
use chain_pulse.Audit.{Record}
use chain_pulse.Policy.{
  FloatOps, Resource, Input, Engine, result_ready, new_engine, evaluate, action_create, action_read,
}
use chain_pulse.Policy.Decisions.{evaluate-allow_iff}
use chain_pulse.Policy.Order.{evaluate-perm}
use chain_pulse.Policy.Rules.{default_rules, allow_admin, allow_wm_orders}
use chain_pulse.Policy.Rules.Matrix.{a_manager_handles_orders, default_rules-Permitted_iff}
use chain_pulse.Policy.Enforce.{ResourceExtractor, enforce}
use chain_pulse.Policy.Enforce.Gate.{Passes, enforce-Passes}

abbrev pub floats : FloatOps ℕ
floats = record { zero_value = 0; at_least_threshold = leb 50000; parse_float = λ s. none }

abbrev manager : Identity
manager = record {
  tenant_id = "acme";
  user_id = "u1";
  role = role_warehouse_manager;
  region = "bc";
  supplier_id = "";
}

abbrev order : ℕ → Resource ℕ
order value = record {
  type = "order";
  id = "o1";
  tenant_id = "acme";
  region = "";
  owner_supplier_id = "";
  value_usd = value;
}

abbrev pub asks : String → ℕ → Input ℕ
asks action value = record { actor = manager; action = action; resource = order value }

abbrev pub engine : Engine ℕ
engine = new_engine (default_rules floats) (pos 1000)

evaluate-allow_iff_example :
    (evaluate
      (new_engine (allow_wm_orders floats ∷ []) (pos 1000))
      result_ready
      (asks action_create 5)).allow
    ≡ true
unfolding new_engine allow_wm_orders
evaluate-allow_iff_example =
    (evaluate-allow_iff (new_engine (allow_wm_orders floats ∷ []) (pos 1000)) result_ready
        (asks action_create 5)).1
      (inr refl, inr refl, refl, refl)

evaluate-perm_example :
    (evaluate
      (new_engine (allow_admin floats ∷ allow_wm_orders floats ∷ []) (pos 0))
      result_ready
      (asks action_read 5)).allow
    ≡ (evaluate
        (new_engine (allow_wm_orders floats ∷ allow_admin floats ∷ []) (pos 0))
        result_ready
        (asks action_read 5)).allow
evaluate-perm_example = evaluate-perm (pos 0) result_ready (asks action_read 5) (Perm.swap _ _ _)

default_rules-Permitted_iff_example :
    (evaluate engine result_ready (asks action_create 60000)).allow ≡ true
unfolding new_engine
default_rules-Permitted_iff_example =
    (default_rules-Permitted_iff floats (pos 1000) result_ready (asks action_create 60000)
        (inr refl) (inr refl)).1
      (a_manager_handles_orders refl refl (inr refl))

abbrev get_order : Context
get_order = record {
  method = "GET";
  full_path = "/v1/orders/:id";
  path = "/v1/orders/:id";
  header = λ name. "";
  query = λ name. "";
  param_id = "o1";
  payload = "";
  identity = some manager;
  request_id = some "r1";
  policy_decision = none;
  policy_rule = none;
  ratelimit_fallback = false;
  scope = empty_scope;
}

-- A handler over the audit trail.
abbrev echo : Handler (List Record)
echo c w = reply w c 200 no_body

abbrev extract : String → ResourceExtractor ℕ
extract tenant_id c actor = record (order 5) { tenant_id = tenant_id }

enforce-Passes_example :
    Passes 0 engine result_ready ◌∷◌ action_read "order"
      (some (extract ""))
      echo
      get_order
      []
      manager
      (enforce 0 engine result_ready ◌∷◌ action_read "order" (some (extract "")) echo get_order [])
enforce-Passes_example =
    enforce-Passes 0 engine result_ready ◌∷◌ action_read "order" (some (extract "")) echo get_order
      [] manager refl
