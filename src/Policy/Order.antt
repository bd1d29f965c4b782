-- ===== src/Policy/Order.antt =====
-- The order of the rules in a set, of which rules.go says that the engine does not depend on it.
use mathlib.Core.Bool.{Bool-set}
use mathlib.Core.Logic.{∥∥₁_elim}
use mathlib.Core.List.{Perm, Permᴰ}
use chain_pulse.Prelude.{Bool, ◌≡◌, refl, List, ◌∙◌, any, arith, ℤ}
use chain_pulse.Policy.{Rule, Input, Race, new_engine, evaluate, effect_allow, effect_deny}
use chain_pulse.Policy.Decisions.{fires, evaluate-allow_iff}

module _ {ℓ} {A : Type ℓ} (p : A → Bool) where
  any-permᴰ : {xs ys : List A} → Permᴰ xs ys → any p xs ≡ any p ys
  any-permᴰ Permᴰ.nil = refl
  any-permᴰ (Permᴰ.cons e d) = rw (e, any-permᴰ d)
  any-permᴰ (Permᴰ.swap {a} {b} {l} e f) = rw (← e, ← f) (ground arith)
  any-permᴰ (Permᴰ.trans d e) = any-permᴰ d ∙ any-permᴰ e

  any-perm : {xs ys : List A} → Perm xs ys → any p xs ≡ any p ys
  any-perm h = ∥∥₁_elim h (Bool-set _ _) any-permᴰ

module _ {F : Type 0} where
  -- Two orders of the same rules allow the same requests, whatever the timeout and the schedule.
  pub evaluate-perm :
      {rs rs' : List (Rule F)} (timeout : ℤ) (race : Race) (inp : Input F)
      → Perm rs rs'
      → (evaluate (new_engine rs timeout) race inp).allow
        ≡ (evaluate (new_engine rs' timeout) race inp).allow
  unfolding new_engine
  evaluate-perm {rs} {rs'} timeout race inp h = ground (
    arith,
    evaluate-allow_iff (new_engine rs timeout) race inp,
    evaluate-allow_iff (new_engine rs' timeout) race inp,
    any-perm (fires effect_deny inp) h,
    any-perm (fires effect_allow inp) h,
  )
