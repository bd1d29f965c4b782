-- ===== src/Http/Keeping.antt =====
-- What a handler keeps of the context and of the state, for the helpers of shared/httpx/errors.go.
use chain_pulse.Prelude.{Bool, true, false, Option, none, some, if◌then◌else◌}
use chain_pulse.Identity.{Identity}
use chain_pulse.Http.{Context, Handler, Outcome, abort, unauthorized, with_actor, require_actor}

module _ {W : Type 0} (Q : Context → W → Type 0) where
  abbrev pub Holds : Outcome W → Type 0
  Holds o = Q o.context o.world

  -- A handler leaves a context and a state with the predicate if it gets such.
  abbrev pub Keeps : Handler W → Type 0
  Keeps h = (c : Context) (w : W) → Q c w → Holds (h c w)

  pub require_actor-Keeps :
      (k : Identity → Handler W) → ((actor : Identity) → Keeps (k actor)) → Keeps (require_actor k)
  unfolding require_actor unauthorized abort
  require_actor-Keeps k keeps c w q = of_actor c.identity
    where
      of_actor : (o : Option Identity) → Holds (with_actor o k c w)
      of_actor none = q
      of_actor (some actor) = keeps actor c w q

  -- Whichever outcome a test chooses.
  pub choose_outcome : (b : Bool) (x y : Outcome W) → Holds x → Holds y → Holds (if b then x else y)
  choose_outcome true x y p q = p
  choose_outcome false x y p q = q
