-- ===== src/Spf/Walk/Steps.antt =====
-- The code of the walk makes no moves but those of the machine, with any fuel.
use mailkit.Prelude.{
  ℕ, zero, suc, ◌+◌, ◌≤◌, List, [], ◌∷◌, ◌++◌, Bool, true, false, Option, none, some, ◌≡◌, refl,
  arith, Bool-cases, inl, inr, ltb,
}
use mailkit.Text.{Str, mem_str}
use mailkit.Dnsx.{Error, Result, Resolver, normalize}
use mailkit.Spf.Terms.{Term, parse}
use mailkit.Spf.Tree.{Limits, Outcome, Via}
use mailkit.Spf.State.{
  State, Fetched, log, halt, fail, inexact, node, count_term, note_include, note_cycle,
  value_or_domain, via_for,
}
use mailkit.Spf.Walk.{
  Follow, records_question, fetch, void_question, void, answered, qtype_for, resolve, terminal,
  enter, descend_to, descend, finish, spend, walk_terms, walk, start, evaluate_root, run,
}
use mailkit.Spf.Walk.Route.{IsRoute, is_jump, root}
use mailkit.Spf.Walk.Growth.{Steps-IsRoute, entered-IsRoute}
use mailkit.Spf.Walk.Machine.{
  Step, Steps, here, next, over, over_at, empty, cycle, deep, entered, broken, failed, skipped,
  unasked, voided, positive, qualified, Steps-trans, Steps-inv,
}

module _ (r : Resolver) (lim : Limits) where
  abbrev IsSteps : Follow → Type 0
  IsSteps follow =
      (domain raw : Str) (path : List Str) (depth : ℕ) (s : State)
      → depth ≤ lim.max_depth
      → IsRoute s.out.nodes path domain depth
      → Steps r lim s (follow domain raw path depth s)

  first : {s t : State} → Step r lim s t → Steps r lim s t
  first st = next here st

  module _ (s : State) (live : s.halted ≡ false) (room : s.out.terms + 1 ≤ lim.max_terms) where
    answered-Steps :
        (domain target : Str) (via : Via) (depth qtype : ℕ) (a : Result Bool)
        → depth ≤ lim.max_depth
        → void r s.calls target qtype ≡ a
        → Steps r lim s (
            answered r lim domain target via depth a
              (log (void_question r target qtype) (count_term s)))
    unfolding answered
    answered-Steps domain target via depth qtype (Result.err e) d h =
        first (unasked s domain target via depth qtype e live d room h)
    answered-Steps domain target via depth qtype (Result.ok true) d h =
        first (voided s domain target via depth qtype live d room h)
    answered-Steps domain target via depth qtype (Result.ok false) d h =
        first (positive s domain target via depth qtype live d room h)

    terminal-Steps :
        (domain : Str) (t : Term) (depth : ℕ)
        → depth ≤ lim.max_depth
        → Steps r lim s (terminal r lim domain t depth (count_term s))
    unfolding terminal resolve count_term
    terminal-Steps domain t depth d =
        let target : Str = value_or_domain t domain in
        ground (
          arith,
          answered-Steps domain target (via_for t) depth (qtype_for r lim t)
              (void r s.calls target (qtype_for r lim t)) d refl,
          first (skipped s domain t.value (via_for t) depth live d room),
          first (skipped s domain target Via.ptr depth live d room),
        )

    module _ (follow : Follow) (steps : IsSteps follow) where
      enter-Steps :
          (parent target : Str) (via : Via) (path : List Str) (depth : ℕ) (f : Fetched)
          → depth + 1 ≤ lim.max_depth
          → fetch r s.calls target ≡ f
          → is_jump via ≡ true
          → IsRoute s.out.nodes path parent depth
          → Steps r lim s (
              enter r lim follow parent target via path depth f
                (log (records_question r target) (note_include target (count_term s))))
      unfolding enter
      enter-Steps parent target via path depth (Fetched.failed e) d h j p =
          first (failed s parent target via depth e live d room h)
      enter-Steps parent target via path depth (Fetched.unusable recs outcome) d h j p =
          first (broken s parent target via depth recs outcome live d room h)
      enter-Steps parent target via path depth (Fetched.usable raw) d h j p =
          Steps-trans r lim (first (entered s parent target via depth raw live d room h)) (
            steps target raw (path ++ target ∷ []) (depth + 1) _ d
              (entered-IsRoute s (records_question r target) parent target via path depth raw j p))

      cycle-Steps :
          (parent target : Str) (via : Via) (path : List Str) (depth : ℕ)
          → depth ≤ lim.max_depth
          → mem_str target path ≡ true
          → IsRoute s.out.nodes path parent depth
          → Steps r lim s (
              node parent target via
                (depth + 1)
                []
                Outcome.cycle
                (note_cycle (path ++ target ∷ []) (note_include target (count_term s))))
      cycle-Steps parent target via path depth d h p =
          first (cycle s parent target via path depth live d room h p)

      deep-Steps :
          (parent target : Str) (via : Via) (depth : ℕ)
          → depth ≤ lim.max_depth
          → ltb lim.max_depth (depth + 1) ≡ true
          → Steps r lim s (
              halt (
                node parent target via
                  (depth + 1)
                  []
                  Outcome.limit
                  (inexact (note_include target (count_term s)))))
      deep-Steps parent target via depth d h =
          first (deep s parent target via depth live (ground arith) room)

      descend-Steps :
          (parent target : Str) (via : Via) (path : List Str) (depth : ℕ)
          → depth ≤ lim.max_depth
          → is_jump via ≡ true
          → IsRoute s.out.nodes path parent depth
          → Steps r lim s (descend r lim follow parent target via path depth (count_term s))
      unfolding descend descend_to count_term
      descend-Steps parent target via path depth d j p =
          let t : Str = normalize target in
          ground (
            arith,
            first (empty s parent via live room),
            cycle-Steps parent t via path depth,
            deep-Steps parent t via depth,
            enter-Steps parent t via path depth (fetch r s.calls t),
          )

  module _ (follow : Follow) (steps : IsSteps follow) (domain : Str) (path : List Str) (depth : ℕ)
      (d : depth ≤ lim.max_depth) where
    spend-Steps :
        (t : Term) (s : State)
        → s.halted ≡ false
        → IsRoute s.out.nodes path domain depth
        → Steps r lim s (spend r lim follow domain path depth t s)
    unfolding spend count_term
    spend-Steps t s live p = elim (Bool-cases (ltb lim.max_terms (s.out.terms + 1))) [
      | inl full ↦
          let stopped = first (
            over_at s domain (value_or_domain t domain) (via_for t) depth t live d
              (ground arith)) in
          ground (arith, stopped)
      | inr room ↦ ground (
        arith,
        descend-Steps s live (ground arith) follow steps domain t.value Via.include path depth d
            refl p,
        terminal-Steps s live (ground arith) domain t depth d,
      )
    ]

    finish-Steps :
        (redirect : Option Term) (s : State)
        → IsRoute s.out.nodes path domain depth
        → Steps r lim s (finish r lim follow domain path depth redirect s)
    unfolding finish count_term
    finish-Steps none s p = here
    finish-Steps (some t) s p = elim (Bool-cases s.halted) [
      | inl done ↦ rw done here
      | inr live ↦ elim (Bool-cases (ltb lim.max_terms (s.out.terms + 1))) [
        | inl full ↦
            let stopped = first (over s domain t live (ground arith)) in ground (arith, stopped)
        | inr room ↦ ground (
          arith,
          descend-Steps s live (ground arith) follow steps domain t.value Via.redirect path depth d
              refl p,
        )
      ]
    ]

    walk_terms-Steps :
        (ts : List Term) (redirect : Option Term) (s : State)
        → IsRoute s.out.nodes path domain depth
        → Steps r lim s (walk_terms r lim follow domain path depth ts redirect s)
    unfolding walk_terms
    walk_terms-Steps [] redirect s p = finish-Steps redirect s p
    walk_terms-Steps (t ∷ ts) redirect s p = elim (Bool-cases s.halted) [
      | inl done ↦ rw (done, walk_terms) here
      | inr live ↦
          let s' : State = spend r lim follow domain path depth t s in
          let stopped = first (qualified s depth t live) in
          let first = spend-Steps t s live p in
          let spent = Steps-trans r lim first (
            walk_terms-Steps ts redirect s' (Steps-IsRoute r lim path domain depth s s' first p)) in
          ground (
            arith,
            walk_terms-Steps ts redirect s p,
            walk_terms-Steps ts (some t) s p,
            stopped,
            spent,
          )
    ]

  -- With any fuel, a call of the walk within the depth limit makes steps of the machine only.
  pub walk-Steps : (fuel : ℕ) → IsSteps (walk r lim fuel)
  unfolding walk
  walk-Steps zero domain raw path depth s d p = here
  walk-Steps (suc fuel) domain raw path depth s d p =
      let stay : Steps r lim s s = here in
      ground (
        arith,
        stay,
        walk_terms-Steps (walk r lim fuel) (walk-Steps fuel) domain path depth d (parse raw) none s
            p,
      )

  -- The state from which the root is evaluated.
  abbrev pub asked_root : Str → State
  asked_root d = log (records_question r d) (start r lim d)

  -- The state in which the walk of the root's record begins.
  abbrev pub entered_root : Str → Str → State
  entered_root d raw =
      let s = asked_root d in
      node [] d Via.root 0 raw Outcome.ok
        (record s { out = record (s.out) { records = raw ∷ []; raw = raw; found = true } })

  entered_root-IsRoute : (d raw : Str) → IsRoute (entered_root d raw).out.nodes (d ∷ []) d 0
  unfolding node start log
  entered_root-IsRoute d raw = root _ ([], [], refl) refl refl

  -- A rule for the whole evaluation: `P` is kept by the steps, `Q` follows from it, and holds where
  -- the root itself is not walked.
  pub run_inv {ℓ κ} :
      (P : State → Type ℓ) (Q : State → Type κ) (domain : Str)
      → ((s t : State) → Step r lim s t → P s → P t)
      → ((s : State) → P s → Q s)
      → ((e : Error)
          → fetch r [] (normalize domain) ≡ Fetched.failed e
          → Q (fail e (asked_root (normalize domain))))
      → ((recs : List Str) (o : Outcome)
          → fetch r [] (normalize domain) ≡ Fetched.unusable recs o
          → Q (
              evaluate_root r lim
                (normalize domain)
                (Fetched.unusable recs o)
                (asked_root (normalize domain))))
      → ((raw : Str) → P (entered_root (normalize domain) raw))
      → Q (run r lim domain)
  unfolding run evaluate_root
  run_inv P Q domain keeps ends on_failed on_unusable on_usable =
      go (fetch r [] (normalize domain)) refl
    where
      go :
          (f : Fetched)
          → fetch r [] (normalize domain) ≡ f
          → Q (evaluate_root r lim (normalize domain) f (asked_root (normalize domain)))
      go (Fetched.failed e) h = on_failed e h
      go (Fetched.unusable recs o) h = on_unusable recs o h
      go (Fetched.usable raw) h = ends _ (
          Steps-inv r lim P keeps
            (walk-Steps (suc lim.max_depth) (normalize domain) raw (normalize domain ∷ []) 0 _
              (omega arith) (entered_root-IsRoute (normalize domain) raw))
            (on_usable raw))
