-- ===== src/Policy.antt =====
-- internal/policy/engine.go: the authorization engine. Order values are `float64` in the source:
-- here they are a type `F` with the operations that the rules use, `FloatOps`.
pub mod Decisions
pub mod Order
pub mod Rules
pub mod Enforce
use chain_pulse.Prelude.{
  String, Bool, true, false, ◌&&◌, not, ◌==◌, List, [], ◌∷◌, Option, ℤ, pos_part, ltb,
  if◌then◌else◌,
}
use chain_pulse.Identity.{Identity}

abbrev pub Action : Type 0
Action = String

abbrev pub action_create : Action
action_create = "create"

abbrev pub action_read : Action
action_read = "read"

abbrev pub action_update : Action
action_update = "update"

abbrev pub action_delete : Action
action_delete = "delete"

abbrev pub action_cancel : Action
action_cancel = "cancel"

-- What the source uses of float64: the zero value, the test against the high-value threshold of
-- 50000, and strconv.ParseFloat, which is `none` on an error.
pub record FloatOps (F : Type 0) : Type 0 where
  pub zero_value : F
  pub at_least_threshold : F → Bool
  pub parse_float : String → Option F

pub record Resource (F : Type 0) : Type 0 where
  pub type : String
  pub id : String
  pub tenant_id : String
  pub region : String
  pub owner_supplier_id : String
  pub value_usd : F

pub record Input (F : Type 0) : Type 0 where
  pub actor : Identity
  pub action : Action
  pub resource : Resource F

pub record Decision : Type 0 where
  pub allow : Bool
  pub rule_matched : String
  pub reason : String

abbrev pub rule_cross_tenant_deny : String
rule_cross_tenant_deny = "cross_tenant_deny"

abbrev pub rule_default_deny : String
rule_default_deny = "default_deny"

abbrev pub rule_eval_timeout : String
rule_eval_timeout = "eval_timeout"

-- The effect is an open string type; the engine looks for these two values only.
abbrev pub effect_allow : String
effect_allow = "allow"

abbrev pub effect_deny : String
effect_deny = "deny"

pub record Rule (F : Type 0) : Type 0 where
  pub id : String
  pub effect : String
  pub reason : String
  pub match : Input F → Bool

-- The timeout is a Go duration in nanoseconds.
pub record Engine (F : Type 0) : Type 0 where
  pub rules : List (Rule F)
  pub eval_timeout : ℤ

-- Which channel the `select` of `Evaluate` takes: the scheduler decides.
pub data Race : Type 0 where
  result_ready deadline_passed : Race

abbrev pub default_deny : Decision
default_deny = record {
  allow = false;
  rule_matched = rule_default_deny;
  reason = "no matching allow rule";
}

abbrev pub cross_tenant_deny : Decision
cross_tenant_deny = record {
  allow = false;
  rule_matched = rule_cross_tenant_deny;
  reason = "resource belongs to a different tenant";
}

abbrev pub timeout_deny : Decision
timeout_deny = record {
  allow = false;
  rule_matched = rule_eval_timeout;
  reason = "policy evaluation exceeded timeout";
}

module _ {F : Type 0} where
  unfoldable pub new_engine : List (Rule F) → ℤ → Engine F
  new_engine rules eval_timeout = record { rules = rules; eval_timeout = eval_timeout }

  -- The second loop of evaluateRules, with the fallback behind it.
  unfoldable pub first_allow : List (Rule F) → Input F → Decision
  first_allow [] inp = default_deny
  first_allow (r ∷ rs) inp =
      if r.effect == effect_allow && r.match inp
      then record { allow = true; rule_matched = r.id; reason = "" }
      else first_allow rs inp

  -- The first loop of evaluateRules: over the rules left, with all rules kept for the second.
  unfoldable pub first_deny : List (Rule F) → List (Rule F) → Input F → Decision
  first_deny [] rules inp = first_allow rules inp
  first_deny (r ∷ rs) rules inp =
      if r.effect == effect_deny && r.match inp
      then record { allow = false; rule_matched = r.id; reason = r.reason }
      else first_deny rs rules inp

  unfoldable pub evaluate_rules : Engine F → Input F → Decision
  evaluate_rules e inp = first_deny e.rules e.rules inp

  -- The guard of the cross-tenant rule.
  unfoldable pub crosses_tenant : Input F → Bool
  crosses_tenant inp =
      not (inp.resource.tenant_id == "") && not (inp.resource.tenant_id == inp.actor.tenant_id)

  unfoldable pub evaluate : Engine F → Race → Input F → Decision
  unfolding crosses_tenant evaluate_rules
  evaluate e race inp =
      if crosses_tenant inp
      then cross_tenant_deny
      else if ltb 0 (pos_part e.eval_timeout)
      then (elim race [ result_ready ↦ evaluate_rules e inp | deadline_passed ↦ timeout_deny ])
      else evaluate_rules e inp
