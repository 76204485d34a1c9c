-- ===== src/Spf/Walk/Agree.antt =====
-- Two evaluations over resolvers that give the same answers, whatever they were asked before.
use mailkit.Prelude.{
  ℕ, zero, suc, ◌+◌, List, [], ◌∷◌, Bool, true, false, Option, none, some, ◌≡◌, refl, sym, ◌∙◌, ap,
  arith,
}
use mailkit.Text.{Str}
use mailkit.Dnsx.{Resolver, normalize}
use mailkit.Spf.Terms.{Term, parse}
use mailkit.Spf.Tree.{Limits, Outcome, Via, Report}
use mailkit.Spf.State.{State, Fetched, log, halt, fail, node, count_term, value_or_domain, via_for}
use mailkit.Spf.Walk.{
  Follow, records_question, fetch, stop, finish, spend, note_all, walk_terms, walk, start,
  evaluate_root, run, evaluate,
}
use mailkit.Spf.Walk.Machine.{
  moves, Step, over, over_at, empty, cycle, deep, entered, broken, failed, skipped, unasked, voided,
  positive, qualified,
}
use mailkit.Spf.Walk.Steps.{asked_root, run_inv}
use mailkit.Spf.Walk.Alike.{Agrees, blind, IsAlike, terminal-IsAlike, descend-IsAlike}

module _ (r q : Resolver) (lim : Limits) (agrees : Agrees r q) where
  module _ (follow chase : Follow)
      (follows : (domain raw : Str) (path : List Str) (depth : ℕ) (s t : State)
        → IsAlike s t
        → IsAlike (follow domain raw path depth s) (chase domain raw path depth t)) where
    module _ (domain : Str) (path : List Str) (depth : ℕ) where
      spend-IsAlike :
          (t : Term) (s u : State)
          → IsAlike s u
          → IsAlike
              (spend r lim follow domain path depth t s)
              (spend q lim chase domain path depth t u)
      unfolding spend moves blind
      spend-IsAlike t s u h =
          let counted : IsAlike (count_term s) (count_term u) =
            ap (λ (x : State). count_term x) h in
          let terms : s.out.terms ≡ u.out.terms = ap (λ (x : State). x.out.terms) h in
          let included =
            descend-IsAlike r q lim agrees follow chase follows domain t.value Via.include path
              depth (count_term s) (count_term u) counted in
          let ended =
            terminal-IsAlike r q lim agrees domain t depth (count_term s) (count_term u) counted in
          let stopped =
            ap
              (λ (x : State). halt (
                node domain (value_or_domain t domain) (via_for t) (depth + 1) [] Outcome.limit
                  (stop r lim domain t x)))
              counted in
          ground (arith, terms, included, ended, stopped)

      finish-IsAlike :
          (o : Option Term) (s u : State)
          → IsAlike s u
          → IsAlike
              (finish r lim follow domain path depth o s)
              (finish q lim chase domain path depth o u)
      unfolding finish moves blind
      finish-IsAlike none s u h = h
      finish-IsAlike (some t) s u h =
          let counted : IsAlike (count_term s) (count_term u) =
            ap (λ (x : State). count_term x) h in
          let terms : s.out.terms ≡ u.out.terms = ap (λ (x : State). x.out.terms) h in
          let halted : s.halted ≡ u.halted = ap (λ (x : State). x.halted) h in
          let below =
            descend-IsAlike r q lim agrees follow chase follows domain t.value Via.redirect path
              depth (count_term s) (count_term u) counted in
          let stopped = ap (λ (x : State). halt (stop r lim domain t x)) counted in
          ground (arith, terms, halted, below, stopped, h)

      walk_terms-IsAlike :
          (ts : List Term) (o : Option Term) (s u : State)
          → IsAlike s u
          → IsAlike
              (walk_terms r lim follow domain path depth ts o s)
              (walk_terms q lim chase domain path depth ts o u)
      unfolding walk_terms note_all
      walk_terms-IsAlike [] o s u h = finish-IsAlike o s u h
      walk_terms-IsAlike (t ∷ ts) o s u h =
          let halted : s.halted ≡ u.halted = unfold blind in ap (λ (x : State). x.halted) h in
          let next = walk_terms-IsAlike ts o s u h in
          let redirected = walk_terms-IsAlike ts (some t) s u h in
          let spent =
            walk_terms-IsAlike ts o (spend r lim follow domain path depth t s)
              (spend q lim chase domain path depth t u) (spend-IsAlike t s u h) in
          let ended : IsAlike (note_all r lim depth t s) (note_all q lim depth t u) =
            unfold blind note_all in
            ground (
              arith,
              h,
              ap (λ (x : State). record x { out = record (x.out) { all = t.qualifier } }) h,
            ) in
          ground (arith, halted, next, redirected, spent, ended, h)

  walk-IsAlike :
      (fuel : ℕ) (domain raw : Str) (path : List Str) (depth : ℕ) (s t : State)
      → IsAlike s t
      → IsAlike (walk r lim fuel domain raw path depth s) (walk q lim fuel domain raw path depth t)
  unfolding walk
  walk-IsAlike zero domain raw path depth s t h = h
  walk-IsAlike (suc fuel) domain raw path depth s t h =
      let halted : s.halted ≡ t.halted = unfold blind in ap (λ (x : State). x.halted) h in
      let rest =
        walk_terms-IsAlike (walk r lim fuel) (walk q lim fuel) (walk-IsAlike fuel) domain path depth
          (parse raw) none s t h in
      ground (arith, halted, rest, h)

  root-IsAlike :
      (domain : Str) (f : Fetched) (s t : State)
      → IsAlike s t
      → IsAlike (evaluate_root r lim domain f s) (evaluate_root q lim domain f t)
  unfolding evaluate_root moves blind
  root-IsAlike domain (Fetched.failed e) s t h = ap (λ (x : State). fail e x) h
  root-IsAlike domain (Fetched.unusable recs Outcome.multiple) s t h =
      ap (λ (x : State). evaluate_root q lim domain (Fetched.unusable recs Outcome.multiple) x) h
  root-IsAlike domain (Fetched.unusable recs o) s t h =
      ap (λ (x : State). node [] domain Via.root 0 [] o x) h
  root-IsAlike domain (Fetched.usable raw) s t h =
      let step : State → State = λ x.
        node [] domain Via.root 0 raw Outcome.ok
          (record x { out = record (x.out) { records = raw ∷ []; raw = raw; found = true } }) in
      walk-IsAlike (suc lim.max_depth) domain raw (domain ∷ []) 0 (step s) (step t) (ap step h)

  run-IsAlike : (domain : Str) → IsAlike (run r lim domain) (run q lim domain)
  unfolding run start blind log
  run-IsAlike domain =
      let d : Str = normalize domain in
      rw (sym (agrees.fetches [] [] d)) (
        root-IsAlike d (fetch r [] d) (log (records_question r d) (start r lim d))
          (log (records_question q d) (start q lim d)) refl)

-- Whether a resolver reports response codes.
unfoldable pub is_tracing : Resolver → Bool
is_tracing r = elim r.query [ none ↦ false | some q ↦ true ]

module _ (r : Resolver) (lim : Limits) where
  IsMarked : State → Type 0
  IsMarked s = s.out.void_exact ≡ is_tracing r

  Step-IsMarked : (s t : State) → Step r lim s t → IsMarked s → IsMarked t
  unfolding moves IsMarked
  Step-IsMarked s _ (over _ domain t live full) h = h
  Step-IsMarked s _ (over_at _ domain target via depth t live d full) h = h
  Step-IsMarked s _ (empty _ parent via live room) h = h
  Step-IsMarked s _ (cycle _ parent target via path depth live d room m p) h = ground arith
  Step-IsMarked s _ (deep _ parent target via depth live d room) h = ground arith
  Step-IsMarked s _ (entered _ parent target via depth raw live d room f) h = ground arith
  Step-IsMarked s _ (broken _ parent target via depth recs outcome live d room f) h = ground arith
  Step-IsMarked s _ (failed _ parent target via depth e live d room f) h = ground arith
  Step-IsMarked s _ (skipped _ domain target via depth live d room) h = h
  Step-IsMarked s _ (unasked _ domain target via depth qtype e live d room f) h = h
  Step-IsMarked s _ (voided _ domain target via depth qtype live d room f) h = ground arith
  Step-IsMarked s _ (positive _ domain target via depth qtype live d room f) h = h
  Step-IsMarked s _ (qualified _ depth t live) h = ground arith

  run-IsMarked : (domain : Str) → IsMarked (run r lim domain)
  unfolding moves start evaluate_root IsMarked is_tracing
  run-IsMarked domain =
      run_inv r lim IsMarked IsMarked domain Step-IsMarked (λ s h. h) (λ e h. refl)
        (λ recs o h. marked recs o) (λ raw. refl)
    where
      marked :
          (recs : List Str) (o : Outcome)
          → IsMarked (
              evaluate_root r lim
                (normalize domain)
                (Fetched.unusable recs o)
                (asked_root r lim (normalize domain)))
      marked recs Outcome.multiple = refl
      marked recs _ = refl

-- A report says that its void lookups are exact for a resolver that reports response codes only.
pub evaluate-is_tracing :
    (r : Resolver) (lim : Limits) (domain : Str) → (evaluate r lim domain).void_exact ≡ is_tracing r
unfolding evaluate IsMarked
evaluate-is_tracing r lim domain = run-IsMarked r lim domain

-- Two resolvers that give the evaluator the same answers, whatever each was asked before, lead to
-- the same report of a domain but for whether the void lookups are exact, which says whether the
-- resolver reports response codes.
pub evaluate_agree :
    (r q : Resolver) (lim : Limits) (domain : Str)
    → Agrees r q
    → evaluate r lim domain ≡ record (evaluate q lim domain) { void_exact = is_tracing r }
unfolding evaluate IsMarked
evaluate_agree r q lim domain agrees =
    let out : Report = (run r lim domain).out in
    let marked : out ≡ record out { void_exact = is_tracing r } =
      ap (λ b. record out { void_exact = b }) (run-IsMarked r lim domain) in
    marked
    ∙ unfold blind in
      ap (λ (x : State). record (x.out) { void_exact = is_tracing r })
        (run-IsAlike r q lim agrees domain)
