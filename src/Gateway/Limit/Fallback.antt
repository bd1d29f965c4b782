-- ===== src/Gateway/Limit/Fallback.antt =====
-- Which limiter decides in internal/gateway/middleware/ratelimit.go.
use chain_pulse.Prelude.{Bool, true, false, ◌≡◌, refl, some}
use chain_pulse.Http.{Context, Handler, Outcome, abort, require_actor_lem}
use chain_pulse.Identity.{Identity}
use chain_pulse.Storage.{RedisError, Reply, ok, err}
use chain_pulse.Gateway.Limit.{
  Limiter, or_false, answer_with, noted, after_primary, suffix_of, limit_actor, rate_limit,
}

module _ {W : Type 0} (primary fallback : Limiter W) (next : Handler W) (c : Context) (w : W)
    (actor : Identity) where
  -- The state and the answer of the limiter that decides, and the context that goes on.
  pub data Decides : Context → W → Bool → Type 0 where
    by_primary :
        (w' : W) (allowed : Bool)
        → primary actor.tenant_id (suffix_of c) w ≡ (w', ok allowed)
        → Decides c w' allowed
    by_fallback :
        (w' : W) (e : RedisError)
        → primary actor.tenant_id (suffix_of c) w ≡ (w', err e)
        → Decides
            (noted c)
            (fallback actor.tenant_id (suffix_of c) w').0
            (or_false (fallback actor.tenant_id (suffix_of c) w').1)

  pub data Limited (c' : Context) (w' : W) : Bool → Outcome W → Type 0 where
    admitted : Limited c' w' true (next c' w')
    rejected : {o : Outcome W} → o.response.status ≡ 429 → o.world ≡ w' → Limited c' w' false o

  answer_with-Limited :
      (c' : Context) (w' : W) (allowed : Bool)
      → Limited c' w' allowed (answer_with next c' w' allowed)
  unfolding abort
  answer_with-Limited c' w' true = admitted
  answer_with-Limited c' w' false = rejected refl refl

  after_primary-Limited :
      (answer : W × Reply Bool)
      → primary actor.tenant_id (suffix_of c) w ≡ answer
      → (c' : Context) × (w' : W) × (allowed : Bool) × Decides c' w' allowed
        × Limited c' w' allowed (after_primary fallback next actor.tenant_id (suffix_of c) c answer)
  after_primary-Limited (w', ok allowed) e =
      (c, w', allowed, by_primary w' allowed e, answer_with-Limited c w' allowed)
  after_primary-Limited (w', err x) e =
      (_, _, _, by_fallback w' x e, answer_with-Limited (noted c) _ _)

  -- For an authenticated request the answer of the primary limiter for the actor's tenant and the
  -- route decides; only where that one fails does the fallback decide, which the context then
  -- records. An admitted request goes to the handler, any other gets 429 and nothing else happens.
  pub rate_limit-Limited :
      c.identity ≡ some actor
      → (c' : Context) × (w' : W) × (allowed : Bool) × Decides c' w' allowed
        × Limited c' w' allowed (rate_limit primary fallback next c w)
  unfolding rate_limit
  rate_limit-Limited i =
      rw (require_actor_lem (limit_actor primary fallback next) c w actor i)
        (after_primary-Limited (primary actor.tenant_id (suffix_of c) w) refl)
