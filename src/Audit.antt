-- ===== src/Audit.antt =====
-- internal/audit/audit.go: the audit record, and the auditor that writes it to the log.
use chain_pulse.Prelude.{ℕ, String, List, Option, none, some}
use chain_pulse.Logger.{Logger, info}

abbrev pub decision_allow : String
decision_allow = "allow"

abbrev pub decision_deny : String
decision_deny = "deny"

-- The zero time is `none`.
pub record Record : Type 0 where
  pub tenant_id : String
  pub actor_id : String
  pub actor_role : String
  pub action : String
  pub resource_type : String
  pub resource_id : String
  pub policy_decision : String
  pub policy_rule_matched : String
  pub request_id : String
  pub timestamp : Option ℕ

abbrev pub stamped : ℕ → Option ℕ → Option ℕ
stamped now none = some now
stamped now (some t) = some t

-- LogAuditor.Write onto the audit lines of the log, newest first: at INFO. It returns no error.
unfoldable pub log_write : Logger → ℕ → Record → List Record → List Record
log_write log now r lines = info log (record r { timestamp = stamped now r.timestamp }) lines
