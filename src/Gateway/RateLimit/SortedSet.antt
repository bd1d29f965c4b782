-- ===== src/Gateway/RateLimit/SortedSet.antt =====
-- The sorted set of the script of internal/gateway/middleware/ratelimit.go against the log of all
-- admitted requests. What is assumed of Redis's commands is `SortedSetLaws`.
use mathlib.Core.Path.{fun_ext}
use chain_pulse.Prelude.{
  ℕ, ◌+◌, ◌≤◌, String, true, false, not, ◌&&◌, ◌≡◌, ◌∙◌, ap, arith, List, [], ◌∷◌, ltb, Bool-cases,
  inl, inr, All,
}
use chain_pulse.Storage.{RedisServer, SortedSetLaws, score_le}
use chain_pulse.Gateway.RateLimit.{in_window, sub_ℕ}
use chain_pulse.Gateway.RateLimit.Log.{count, count-none}

-- The score bound of ZREMRANGEBYSCORE is the complement of the window.
score_le-in_window :
    (window now x : ℕ) → not (score_le x (sub_ℕ now window)) ≡ in_window window now x
score_le-in_window window now x = ground arith

in_window_both :
    (window now t x : ℕ)
    → now ≤ t
    → (in_window window t x && in_window window now x) ≡ in_window window t x
in_window_both window now t x h = ground arith

pub All-le : {m n : ℕ} (xs : List ℕ) → m ≤ n → All (λ x. x ≤ m) xs → All (λ x. x ≤ n) xs
All-le [] h _ = tt
All-le (x ∷ xs) h (p, ps) = (omega arith, All-le xs h ps)

module _ {S : Type 0} (r : RedisServer S) (laws : SortedSetLaws r) (k : String) (window : ℕ) where
  open laws use {tally, has_member}

  -- From this time on, every window over the sorted set counts what the log counts.
  pub record Agrees (last : ℕ) (s : S) (log : List ℕ) : Type 0 where
    pub past : All (λ x. x ≤ last) log
    pub same :
        (t t' : ℕ)
        → last ≤ t
        → t ≤ t'
        → tally t k (in_window window t') s ≡ count (in_window window t') log

  module _ {last : ℕ} {s : S} {log : List ℕ} (now : ℕ) (h : last ≤ now)
      (a : Agrees last s log) where
    abbrev pub pruned : S
    pruned = r.zremrangebyscore now k 0 (sub_ℕ now window) s

    tally-pruned :
        (t t' : ℕ)
        → now ≤ t
        → t ≤ t'
        → tally t k (in_window window t') pruned ≡ count (in_window window t') log
    tally-pruned t t' le le' =
        laws.tally-zremrangebyscore now t k (sub_ℕ now window) (in_window window t') s le
        ∙ ap (λ p. tally t k p s)
            (fun_ext λ x.
              ap (λ b. in_window window t' x && b) (score_le-in_window window now x)
              ∙ in_window_both window now t' x (omega arith))
        ∙ a.same t t' (omega arith) le'

    pub zcard-pruned : r.zcard now k pruned ≡ count (in_window window now) log
    zcard-pruned =
        laws.zcard-tally now k pruned
        ∙ laws.tally-zremrangebyscore now now k (sub_ℕ now window) (λ _. true) s (omega arith)
        ∙ ap (λ p. tally now k p s) (fun_ext (score_le-in_window window now))
        ∙ a.same now now h (omega arith)

    -- The state after an admitted request.
    abbrev pub added : String → S
    added member = r.pexpire now k window (r.zadd now k now member pruned)

    tally-zadded :
        (member : String) (t' : ℕ)
        → has_member now k member pruned ≡ false
        → now ≤ t'
        → tally now k (in_window window t') (r.zadd now k now member pruned)
          ≡ count (in_window window t') (now ∷ log)
    tally-zadded member t' fresh le =
        let e = laws.tally-zadd now k now member (in_window window t') pruned fresh in
        ground (arith, e, tally-pruned now t' (omega arith) le)

    -- From the deadline on no window reaches back to an entry of the log.
    past_window : (t' : ℕ) → now + window ≤ t' → count (in_window window t') (now ∷ log) ≡ 0
    past_window t' le = count-none _ (now ∷ log) (ground arith, All-past log a.past)
      where
        All-past :
            (xs : List ℕ) → All (λ x. x ≤ last) xs → All (λ x. in_window window t' x ≡ false) xs
        All-past [] _ = tt
        All-past (x ∷ xs) (p, ps) = (ground arith, All-past xs ps)

    pub added-Agrees :
        (member : String)
        → has_member now k member pruned ≡ false
        → Agrees now (added member) (now ∷ log)
    added-Agrees member fresh = record {
      past = (omega arith, All-le log h a.past);
      same = λ t t' le le'. elim (Bool-cases (ltb t (now + window))) [
        | inl early ↦
            laws.tally-pexpire_before now t k window (in_window window t') _ le (ground arith)
            ∙ tally-zadded member t' fresh (omega arith)
        | inr late ↦
            let gone =
              laws.tally-pexpire_after now t k window (in_window window t')
                (r.zadd now k now member pruned) (ground arith) in
            let none_left = past_window t' (ground arith) in
            omega (arith, gone, none_left, tally-zadded member t' fresh (omega arith))
      ];
    }

    pub pruned-Agrees : Agrees now pruned log
    pruned-Agrees = record {
      past = All-le log h a.past;
      same = λ t t' le le'. tally-pruned t t' le le';
    }
