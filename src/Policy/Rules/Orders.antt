-- ===== src/Policy/Rules/Orders.antt =====
-- Order mutations under the default rules of internal/policy/rules.go.
use chain_pulse.Prelude.{false, ◌≡◌, ◌⊎◌, inl, inr, ◌≢◌, arith, ne_false, ℤ, if◌then◌else◌}
use chain_pulse.Identity.{role_admin}
use chain_pulse.Policy.{
  FloatOps, Input, Race, new_engine, evaluate, evaluate_rules, first_deny, first_allow,
  rule_default_deny, action_update, action_cancel,
}
use chain_pulse.Policy.Decisions.{SameTenant, InTime, evaluate-eq-evaluate_rules}
use chain_pulse.Policy.Rules.{default_rules}

module _ {F : Type 0} where
  -- Under the default rules, in a request about the actor's own tenant that is evaluated in time, a
  -- non-admin who would update or cancel an order is denied whatever the other attributes are,
  -- and only the reason depends on the order's value.
  pub order_mutation_denied :
      (fl : FloatOps F) (timeout : ℤ) (race : Race) (inp : Input F)
      → SameTenant inp
      → InTime (new_engine (default_rules fl) timeout) race
      → inp.resource.type ≡ "order"
      → (inp.action ≡ action_update) ⊎ (inp.action ≡ action_cancel)
      → inp.actor.role ≢ role_admin
      → let d = evaluate (new_engine (default_rules fl) timeout) race inp in
        (d.allow ≡ false)
        × (d.rule_matched ≡ (
            if fl.at_least_threshold inp.resource.value_usd
            then "deny_high_value_order_mutation_non_admin"
            else rule_default_deny))
  unfolding evaluate_rules first_deny first_allow default_rules new_engine
  order_mutation_denied fl timeout race inp s t o (inl a) n =
      rw (evaluate-eq-evaluate_rules (new_engine (default_rules fl) timeout) race inp s t)
        (rw (o, a, ne_false n) (ground arith))
  order_mutation_denied fl timeout race inp s t o (inr a) n =
      rw (evaluate-eq-evaluate_rules (new_engine (default_rules fl) timeout) race inp s t)
        (rw (o, a, ne_false n) (ground arith))
