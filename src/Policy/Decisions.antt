-- ===== src/Policy/Decisions.antt =====
-- What the engine of internal/policy/engine.go decides, for every rule set.
use chain_pulse.Prelude.{
  String, Bool, true, false, ◌&&◌, ◌==◌, eq_iff, List, [], ◌∷◌, ◌≡◌, refl, ◌↔◌, ◌⊎◌, arith,
  pos_part, any,
}
use chain_pulse.Policy.{
  crosses_tenant, cross_tenant_deny, Rule, Input, Engine, Race, result_ready, evaluate,
  evaluate_rules, first_deny, first_allow, effect_allow, effect_deny,
}

module _ {F : Type 0} where
  -- A rule with this effect applies to the input.
  abbrev pub fires : String → Input F → Rule F → Bool
  fires effect inp r = r.effect == effect && r.match inp

  pub first_allow-allow :
      (rs : List (Rule F)) (inp : Input F)
      → (first_allow rs inp).allow ≡ any (fires effect_allow inp) rs
  unfolding first_allow
  first_allow-allow [] inp = refl
  first_allow-allow (r ∷ rs) inp = ground (arith, first_allow-allow rs inp)

  pub first_deny-allow :
      (ds rs : List (Rule F)) (inp : Input F)
      → ((first_deny ds rs inp).allow ≡ true)
        ↔ ((any (fires effect_deny inp) ds ≡ false) × (any (fires effect_allow inp) rs ≡ true))
  unfolding first_deny
  first_deny-allow [] rs inp = ground (arith, first_allow-allow rs inp)
  first_deny-allow (d ∷ ds) rs inp = ground (arith, first_deny-allow ds rs inp)

  -- The resource is not marked as another tenant's.
  abbrev pub SameTenant : Input F → Type 0
  SameTenant inp = (inp.resource.tenant_id ≡ "") ⊎ (inp.resource.tenant_id ≡ inp.actor.tenant_id)

  -- The evaluation came to its end: without a positive timeout it always does.
  abbrev pub InTime : Engine F → Race → Type 0
  InTime e race = (pos_part e.eval_timeout ≡ 0) ⊎ (race ≡ result_ready)

  pub evaluate-eq-cross_tenant_deny :
      (e : Engine F) (race : Race) (inp : Input F)
      → crosses_tenant inp ≡ true
      → evaluate e race inp ≡ cross_tenant_deny
  unfolding evaluate
  evaluate-eq-cross_tenant_deny e race inp h = rw h refl

  pub evaluate-eq-evaluate_rules :
      (e : Engine F) (race : Race) (inp : Input F)
      → SameTenant inp
      → InTime e race
      → evaluate e race inp ≡ evaluate_rules e inp
  unfolding evaluate
  evaluate-eq-evaluate_rules e race inp s t =
      ground
        (arith, eq_iff inp.resource.tenant_id "", eq_iff inp.resource.tenant_id inp.actor.tenant_id)

  -- For every rule set, timeout and schedule, the engine allows a request exactly when the
  -- resource is not another tenant's, the evaluation ended in time, no deny rule matches and some
  -- allow rule matches.
  pub evaluate-allow_iff :
      (e : Engine F) (race : Race) (inp : Input F)
      → ((evaluate e race inp).allow ≡ true) ↔ (
          SameTenant inp
          × InTime e race
          × (any (fires effect_deny inp) e.rules ≡ false)
          × (any (fires effect_allow inp) e.rules ≡ true))
  unfolding evaluate
  evaluate-allow_iff e race inp = ground (
    arith,
    first_deny-allow e.rules e.rules inp,
    eq_iff inp.resource.tenant_id "",
    eq_iff inp.resource.tenant_id inp.actor.tenant_id,
  )
