-- ===== src/Gateway/RateLimit/Tenants.antt =====
-- MemoryLimiter of internal/gateway/middleware/ratelimit.go: the one map that it keeps for all tenants
-- and routes, against a log of its own for each of them.
use Prim.Native.String.{◌++◌}
use chain_pulse.Prelude.{
  ℕ, String, Bool, true, ◌&&◌, ◌==◌, eq_iff, ◌≡◌, refl, sym, ap, ◌∙◌, arith, List, [], ◌∷◌, ℤ, All,
  if◌then◌else◌, Bool-cases, inl, inr, eq_of_true, ne_of_false, Lacks, split_at, separator-append,
}
use mathlib.Core.Path.{ap₂}
use chain_pulse.Gateway.RateLimit.{Windows, write, memory_key, new_memory_limiter}
use chain_pulse.Gateway.RateLimit.Log.{log_step}
use chain_pulse.Gateway.RateLimit.Memory.{
  Hit, memory_run, keyed_run, RisingHits, memory_run-keyed_run,
}

-- A tenant identifier without the character that separates it from the route in the limiter's key.
abbrev pub NoBar : String → Type 0
NoBar = Lacks b'|'

-- For each tenant and each route, when its requests were admitted.
abbrev pub Logs : Type 0
Logs = String → String → List ℕ

abbrev pub no_logs : Logs
no_logs tenant_id suffix = []

abbrev pub noted : String → String → List ℕ → Logs → Logs
noted tenant_id suffix log logs t s = if t == tenant_id && s == suffix then log else logs t s

-- The answers by these logs: each request by the log of its own tenant and route, whole and alone.
unfoldable pub logs_run : ℤ → ℕ → List Hit → Logs → List Bool
logs_run limit window [] logs = []
logs_run limit window (h ∷ hs) logs =
    let (log, answer) = log_step limit window h.now (logs h.tenant_id h.suffix) in
    answer ∷ logs_run limit window hs (noted h.tenant_id h.suffix log logs)

memory_key_injective :
    (a b x y : String) → NoBar a → NoBar b → memory_key a x ≡ memory_key b y → (a ≡ b) × (x ≡ y)
unfolding memory_key
memory_key_injective a b x y p q e =
    split_at "|" a b x y p q
      (ap (◌++◌ a) (sym (separator-append "|" x)) ∙ e ∙ ap (◌++◌ b) (separator-append "|" y))

-- The map holds under the key of a tenant and a route what their own log holds.
abbrev Holds : Windows → Logs → Type 0
Holds l logs = (t s : String) → NoBar t → l (memory_key t s) ≡ logs t s

write-Holds :
    (l : Windows) (logs : Logs) (t s : String) (log : List ℕ)
    → NoBar t
    → Holds l logs
    → Holds (write l (memory_key t s) log) (noted t s log logs)
write-Holds l logs t s log free h u v free' = elim (Bool-cases (memory_key u v == memory_key t s)) [
  | inl same ↦
      let (tenant, route) = memory_key_injective u t v s free' free (eq_of_true same) in
      let t_is : (u == t) ≡ true = (eq_iff u t).1 tenant in
      let s_is : (v == s) ≡ true = (eq_iff v s).1 route in rw (same, t_is, s_is) refl
  | inr other ↦ rw other (elim (Bool-cases (u == t && v == s)) [
    | inl e ↦
        let t_is : u ≡ t = eq_of_true (ground arith) in
        let s_is : v ≡ s = eq_of_true (ground arith) in
        absurd (ne_of_false other (ap₂ memory_key t_is s_is))
    | inr e ↦ rw e (h u v free')
  ])
]

keyed_run-logs_run :
    (limit : ℤ) (window : ℕ) (hits : List Hit) (l : Windows) (logs : Logs)
    → All (λ h. NoBar h.tenant_id) hits
    → Holds l logs
    → keyed_run limit window hits l ≡ logs_run limit window hits logs
unfolding keyed_run logs_run
keyed_run-logs_run limit window [] l logs free holds = refl
keyed_run-logs_run limit window (h ∷ hs) l logs (here, later) holds =
    rw (holds h.tenant_id h.suffix here) (
      ap (◌∷◌ (log_step limit window h.now (logs h.tenant_id h.suffix)).1) (
        keyed_run-logs_run limit window hs _ _ later (
          write-Holds l logs h.tenant_id h.suffix
            (log_step limit window h.now (logs h.tenant_id h.suffix)).0 here holds)))

-- On a clock that does not go back, and for tenants whose identifiers hold no bar, a new limiter
-- answers every request, of any tenants to any routes in any order, as if each tenant had for each
-- route a log of its own with every stamp that was ever admitted there: what the limiter prunes,
-- and the requests of other tenants and to other routes, change no answer.
pub memory_run-logs_run :
    (limit : ℤ) (window : ℕ) (hits : List Hit)
    → RisingHits 0 hits
    → All (λ h. NoBar h.tenant_id) hits
    → memory_run limit window hits new_memory_limiter ≡ logs_run limit window hits no_logs
unfolding new_memory_limiter
memory_run-logs_run limit window hits rising free =
    memory_run-keyed_run limit window hits rising
    ∙ keyed_run-logs_run limit window hits new_memory_limiter no_logs free (λ t s p. refl)
