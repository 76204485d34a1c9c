-- ===== src/Spf/Walk/Bounds.antt =====
-- The limits of a walk: how far the count goes, when the limit is reported, and how many questions
-- are asked.
use mailkit.Prelude.{◌+◌, ◌≤◌, ◌<◌, List, [], true, false, ◌≡◌, ◌≢◌, ◌↔◌, arith, length}
use mailkit.Text.{Str}
use mailkit.Dnsx.{Resolver, normalize}
use mailkit.Spf.Tree.{Limits, Outcome, PermError, over_limit, usable}
use mailkit.Spf.State.{State, Fetched}
use mailkit.Spf.Walk.{start, evaluate_root, run, evaluate}
use mailkit.Spf.Walk.Machine.{
  moves, Step, over, over_at, empty, cycle, deep, entered, broken, failed, skipped, unasked, voided,
  positive, qualified,
}
use mailkit.Spf.Walk.Steps.{asked_root, run_inv}

module _ (r : Resolver) (lim : Limits) where
  -- What holds of the state at every point of the walk.
  record IsBounded (s : State) : Type 0 where
    within : s.out.terms ≤ lim.max_terms + 1
    reported : lim.max_terms < s.out.terms → s.out.perm_error ≡ PermError.over_term_limit
    clean : lim.max_terms < s.out.terms → s.out.temp_error ≡ []
    stopped : lim.max_terms < s.out.terms → s.halted ≡ true
    meant : s.out.perm_error ≡ PermError.over_term_limit → lim.max_terms < s.out.terms
    inexact_of_halted : s.halted ≡ true → s.out.terms_exact ≡ false
    exact_of_live : s.halted ≡ false → s.out.terms_exact ≡ true
    answered_of_live : s.halted ≡ false → s.out.temp_error ≡ []
    asked : length s.calls ≤ s.out.terms + 1
    asked_over : lim.max_terms < s.out.terms → length s.calls ≤ s.out.terms

  Step-IsBounded : (s t : State) → Step r lim s t → IsBounded s → IsBounded t
  unfolding moves
  Step-IsBounded s _ (over _ domain t live full) h = ground arith
  Step-IsBounded s _ (over_at _ domain target via depth t live d full) h = ground arith
  Step-IsBounded s _ (empty _ parent via live room) h = ground arith
  Step-IsBounded s _ (cycle _ parent target via path depth live d room m p) h = ground arith
  Step-IsBounded s _ (deep _ parent target via depth live d room) h = ground arith
  Step-IsBounded s _ (entered _ parent target via depth raw live d room f) h = ground arith
  Step-IsBounded s _ (broken _ parent target via depth recs outcome live d room f) h = ground arith
  Step-IsBounded s _ (failed _ parent target via depth e live d room f) h = ground arith
  Step-IsBounded s _ (skipped _ domain target via depth live d room) h = ground arith
  Step-IsBounded s _ (unasked _ domain target via depth qtype e live d room f) h = ground arith
  Step-IsBounded s _ (voided _ domain target via depth qtype live d room f) h = ground arith
  Step-IsBounded s _ (positive _ domain target via depth qtype live d room f) h = ground arith
  Step-IsBounded s _ (qualified _ depth t live) h = ground arith

  -- What holds of the state that the evaluation leaves.
  record IsReport (s : State) : Type 0 where
    within : s.out.terms ≤ lim.max_terms + 1
    reported : lim.max_terms < s.out.terms → s.out.perm_error ≡ PermError.over_term_limit
    clean : lim.max_terms < s.out.terms → s.out.temp_error ≡ []
    meant : s.out.perm_error ≡ PermError.over_term_limit → lim.max_terms < s.out.terms
    inexact_over : lim.max_terms < s.out.terms → s.out.terms_exact ≡ false
    inexact_of_error : s.out.temp_error ≢ [] → s.out.terms_exact ≡ false
    asked : length s.calls ≤ lim.max_terms + 1
    live_of_exact : s.out.terms_exact ≡ true → s.halted ≡ false

  IsReport-of_IsBounded : (s : State) → IsBounded s → IsReport s
  IsReport-of_IsBounded s h = record {
    within = h.within;
    reported = h.reported;
    clean = h.clean;
    meant = h.meant;
    inexact_over = λ o. h.inexact_of_halted (h.stopped o);
    inexact_of_error = λ n. ground (arith, n, h.inexact_of_halted, h.answered_of_live);
    asked = ground (arith, h.within, h.asked, h.asked_over);
    live_of_exact = λ x. ground (arith, h.inexact_of_halted);
  }

  run-IsReport : (domain : Str) → IsReport (run r lim domain)
  unfolding moves start evaluate_root
  run-IsReport domain =
      run_inv r lim IsBounded IsReport domain Step-IsBounded IsReport-of_IsBounded
        (λ e h. ground arith) (λ recs o h. IsReport-unusable recs o) (λ raw. ground arith)
    where
      IsReport-unusable :
          (recs : List Str) (o : Outcome)
          → IsReport (
              evaluate_root r lim
                (normalize domain)
                (Fetched.unusable recs o)
                (asked_root r lim (normalize domain)))
      IsReport-unusable recs Outcome.multiple = ground arith
      IsReport-unusable recs _ = ground arith

  IsReport-over_limit :
      (s : State)
      → IsReport s
      → (over_limit s.out lim ≡ true) ↔ (s.out.perm_error ≡ PermError.over_term_limit)
  unfolding over_limit
  IsReport-over_limit s h =
      (λ o. h.reported (ground arith), λ p. ground (arith, h.meant p, h.clean (h.meant p)))

  IsReport-unusable :
      (s : State)
      → IsReport s
      → usable s.out ≡ false
      → (s.out.terms_exact ≡ false)
        × (s.out.perm_error ≢ PermError.over_term_limit)
        × (over_limit s.out lim ≡ false)
  unfolding usable over_limit
  IsReport-unusable s h u =
      (h.inexact_of_error (ground arith), λ p. ground (arith, h.clean (h.meant p)), ground arith)

  -- An exact walk was not halted.
  pub halted_of_exact :
      (domain : Str)
      → (evaluate r lim domain).terms_exact ≡ true
      → (run r lim domain).halted ≡ false
  unfolding evaluate
  halted_of_exact domain = (run-IsReport domain).live_of_exact

  -- The verdict "over the limit" is given exactly when the permanent error is the one of the limit:
  -- a walk that a failed lookup cut short never gives it, and one that passed the limit always
  -- does.
  pub over_limit_iff :
      (domain : Str)
      → (over_limit (evaluate r lim domain) lim ≡ true)
        ↔ ((evaluate r lim domain).perm_error ≡ PermError.over_term_limit)
  unfolding evaluate
  over_limit_iff domain = IsReport-over_limit (run r lim domain) (run-IsReport domain)

  -- A result that is not usable claims no exact count and no broken limit.
  pub evaluate_unknown :
      (domain : Str)
      → usable (evaluate r lim domain) ≡ false
      → ((evaluate r lim domain).terms_exact ≡ false)
        × ((evaluate r lim domain).perm_error ≢ PermError.over_term_limit)
        × (over_limit (evaluate r lim domain) lim ≡ false)
  unfolding evaluate
  evaluate_unknown domain u = IsReport-unusable (run r lim domain) (run-IsReport domain) u

  -- The count never passes the limit by more than one; a count that is called exact is within the
  -- limit; and the walk asks the resolver at most one question more than the limit.
  pub evaluate_bounds :
      (domain : Str)
      → ((evaluate r lim domain).terms ≤ lim.max_terms + 1)
        × ((evaluate r lim domain).terms_exact ≡ true
            → (evaluate r lim domain).terms ≤ lim.max_terms)
        × (length (run r lim domain).calls ≤ lim.max_terms + 1)
  unfolding evaluate
  evaluate_bounds domain =
      let h = run-IsReport domain in (h.within, λ x. ground (arith, h.inexact_over), h.asked)
