-- ===== src/Gateway/Router/Effects.antt =====
-- What a request to an endpoint of internal/gateway/router.go can do to the table of keys and to
-- the audit trail.
use chain_pulse.Prelude.{
  ℕ, Bool, true, false, ◌≡◌, refl, sym, ap, ◌∙◌, List, [], ◌∷◌, ◌++◌, All, if◌then◌else◌,
}
use mathlib.Core.List.{append_assoc}
use chain_pulse.Http.{Context, Handler}
use chain_pulse.Http.Keeping.{Keeps}
use chain_pulse.Logger.{Logger, info, writes_info}
use chain_pulse.Audit.{Record, log_write}
use chain_pulse.Auth.Rows.{Table}
use chain_pulse.Auth.Store.Changes.{Changes, unchanged, updates, inserts}
use chain_pulse.Gateway.AccessLog.{Observed}
use chain_pulse.Gateway.Deps.{Server, Deps, Arrival}
use chain_pulse.Gateway.Router.{observed, new_router, write_audit}
use chain_pulse.Gateway.Router.Chains.{IsKept, of_every_endpoint}

-- A state comes from another by what the endpoints do: the table of keys by the statements of the
-- key store, the audit trail by new lines in front; the rest is free.
pub record Follows {S : Type 0} (w v : Server S) : Type 0 where
  pub keys : Changes w.table v.table
  pub lines : List Record
  pub trail : v.trail ≡ lines ++ w.trail

Changes-trans : {t u v : Table} → Changes t u → Changes u v → Changes t v
Changes-trans c unchanged = c
Changes-trans c (updates p f k d e) = updates p f k (Changes-trans c d) e
Changes-trans c (inserts r d i) = inserts r (Changes-trans c d) i

info_lines :
    (log : Logger) (line : Record) (lines : List Record)
    → (more : List Record) × (info log line lines ≡ more ++ lines)
info_lines log line lines = Bool-info (writes_info log.level)
  where
    Bool-info :
        (b : Bool) → (more : List Record) × ((if b then line ∷ lines else lines) ≡ more ++ lines)
    Bool-info true = (line ∷ [], refl)
    Bool-info false = ([], refl)

-- What follows a state goes on to follow it.
abbrev pub KeepsFollowing : {S : Type 0} → Server S → Handler (Observed (Server S)) → Type 0
KeepsFollowing w h =
    (c : Context) (v : Observed _) → Follows w v.inner → Follows w (h c v).world.inner

module _ {F S : Type 0} (d : Deps F S) (a : Arrival) (w : Server S) where
  with_audit :
      (now : ℕ) (line : Record) (v : Server S)
      → Follows w v
      → Follows w (write_audit d.logger now line v)
  unfolding log_write
  with_audit now line v p =
      let (more, e) = info_lines d.logger _ v.trail in
      record {
        keys = p.keys;
        lines = more ++ p.lines;
        trail = e ∙ ap (λ xs. more ++ xs) p.trail ∙ sym (append_assoc more p.lines w.trail);
      }

  with_table :
      (t : Table) (v : Server S)
      → Changes v.table t
      → Follows w v
      → Follows w (record v { table = t })
  with_table t v c p = record { keys = Changes-trans p.keys c; lines = p.lines; trail = p.trail }

  Follows-IsKept : IsKept d a (λ c v. Follows w v)
  Follows-IsKept = record {
    stable = record { identified = λ c v id p. p; noted_too = λ c v p. p; decided = λ c v e p. p };
    redis_free = λ s c v p. record { keys = p.keys; lines = p.lines; trail = p.trail };
    windows_free = λ l c v p. record { keys = p.keys; lines = p.lines; trail = p.trail };
    calls_free = λ n c v p. record { keys = p.keys; lines = p.lines; trail = p.trail };
    audited = λ line c v p. with_audit a.audit_time line v p;
    stored = λ t c v e p. with_table t v e p;
  }

  observed-KeepsFollowing :
      (next : Handler (Server S))
      → Keeps (λ c v. Follows w v) next
      → KeepsFollowing w (observed d a next)
  unfolding observed
  observed-KeepsFollowing next keeps c v p = keeps _ v.inner p

  -- Every endpoint.
  pub new_router-KeepsFollowing : All (λ e. KeepsFollowing w e.handler) (new_router d a)
  new_router-KeepsFollowing =
      of_every_endpoint d a (λ (i : Unit {0}) c v. Follows w v) (λ i. Follows-IsKept)
        (KeepsFollowing w) (λ next keeps. observed-KeepsFollowing next (keeps tt))
