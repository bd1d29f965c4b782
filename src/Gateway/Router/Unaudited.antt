-- ===== src/Gateway/Router/Unaudited.antt =====
-- The gate of a stub route of internal/gateway/router.go with a logger that drops INFO.
use chain_pulse.Prelude.{String, ◌⊎◌, inl, inr, refl, suc, false, ◌≡◌, ap, ◌∙◌, some, if◌then◌else◌}
use chain_pulse.Identity.{Identity}
use chain_pulse.Http.{Context, Outcome}
use chain_pulse.Logger.{writes_info, info_dropped, new_logger, parse_level}
use chain_pulse.Audit.{log_write}
use chain_pulse.Policy.{evaluate}
use chain_pulse.Policy.Enforce.Gate.{Passes, let_through, turned_away, enforce-Passes}
use chain_pulse.Gateway.Stub.{query_resource_extractor}
use chain_pulse.Gateway.Deps.{Server, Deps, Arrival}
use chain_pulse.Gateway.Router.{Route, handle, write_audit, gate}
use chain_pulse.Gateway.Router.Gated.{asked}

level_above_info :
    (log_level : String)
    → (log_level ≡ "warn") ⊎ (log_level ≡ "error")
    → writes_info (parse_level log_level) ≡ false
unfolding parse_level
level_above_info log_level (inl e) = rw e refl
level_above_info log_level (inr e) = rw e refl

module _ {F S : Type 0} (d : Deps F S) (a : Arrival) (ρ : Route) where
  Passes-unaudited :
      {c : Context} {w : Server S} {actor : Identity} {o : Outcome (Server S)}
      → writes_info d.logger.level ≡ false
      → Passes d.floats.zero_value d.engine a.race
          (write_audit d.logger a.audit_time)
          ρ.action
          ρ.type
          (some (query_resource_extractor d.floats))
          handle
          c
          w
          actor
          o
      → (o.world.trail ≡ w.trail)
        × (o.world.calls ≡ (
            if (evaluate d.engine a.race (asked d a ρ c actor)).allow
            then suc w.calls
            else w.calls))
  unfolding asked handle log_write
  Passes-unaudited {w = w} quiet (let_through allow says e) = (
    ap (λ o. o.world.trail) e ∙ info_dropped d.logger _ w.trail quiet,
    rw allow (ap (λ o. o.world.calls) e),
  )
  Passes-unaudited {w = w} quiet (turned_away deny says e status) =
      (ap (λ v. v.trail) e ∙ info_dropped d.logger _ w.trail quiet, rw deny (ap (λ v. v.calls) e))

  -- With LOG_LEVEL warn or error, no decision about a request to a stub route leaves an audit record, and
  -- yet the handler runs whenever the engine allows the request.
  pub gate-unaudited :
      (log_level : String) (c : Context) (w : Server S) (actor : Identity)
      → d.logger ≡ new_logger (parse_level log_level)
      → (log_level ≡ "warn") ⊎ (log_level ≡ "error")
      → c.identity ≡ some actor
      → ((gate d a ρ c w).world.trail ≡ w.trail)
        × ((gate d a ρ c w).world.calls ≡ (
            if (evaluate d.engine a.race (asked d a ρ c actor)).allow
            then suc w.calls
            else w.calls))
  gate-unaudited log_level c w actor e l i =
      Passes-unaudited (ap (λ x. writes_info x.level) e ∙ level_above_info log_level l)
        (enforce-Passes _ _ _ _ _ _ _ handle c w actor i)
