-- ===== src/Scope.antt =====
-- The values of a request's context.Context: WithContext and FromContext of shared/logger/logger.go
-- and of shared/identity/identity.go.
use chain_pulse.Prelude.{Option, none, some}
use chain_pulse.Identity.{Identity}
use chain_pulse.Logger.{Logger, default_logger}

-- The values under the two packages' keys.
pub record Scope : Type 0 where
  pub logger : Option Logger
  pub identity : Option Identity

abbrev pub empty_scope : Scope
empty_scope = record { logger = none; identity = none }

abbrev pub with_logger : Logger → Scope → Scope
with_logger l ctx = record ctx { logger = some l }

abbrev pub or_default : Option Logger → Logger
or_default none = default_logger
or_default (some l) = l

abbrev pub logger_of : Scope → Logger
logger_of ctx = or_default ctx.logger

-- WithContext and FromContext of the identity; ErrNoIdentity is `none`.
abbrev pub with_caller : Identity → Scope → Scope
with_caller id ctx = record ctx { identity = some id }

abbrev pub caller_of : Scope → Option Identity
caller_of ctx = ctx.identity
