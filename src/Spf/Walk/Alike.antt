-- ===== src/Spf/Walk/Alike.antt =====
-- spf/evaluate.go: the steps of a walk, from two states that differ in what was asked, over
-- resolvers that give the same answers whatever they were asked before.
use mailkit.Prelude.{
  ℕ, ◌+◌, List, [], ◌∷◌, ◌++◌, Bool, true, false, ltb, ◌≡◌, refl, sym, ◌∙◌, ap, arith, Bool-cases,
  inl, inr,
}
use mailkit.Text.{Str, mem_str}
use mailkit.Dnsx.{Resolver, Result, Question, normalize, type_a, type_mx}
use mailkit.Spf.Terms.{Term}
use mailkit.Spf.Tree.{Limits, Outcome, Via, PermError, PermDetail}
use mailkit.Spf.State.{
  State, Fetched, log, halt, fail, inexact, perm, perm_first, node, note_include, note_cycle,
  note_broken, value_or_domain, via_for,
}
use mailkit.Spf.Walk.{
  Follow, records_question, fetch, void_question, void, answered, qtype_for, resolve, terminal,
  enter, descend_to, descend,
}
use mailkit.Spf.Walk.Machine.{moves}

-- The answers of two resolvers to the questions of the evaluator.
pub record Agrees (r q : Resolver) : Type 0 where
  pub fetches : (calls asked : List Question) (name : Str) → fetch r calls name ≡ fetch q asked name
  pub hosts :
      (calls asked : List Question) (name : Str)
      → void r calls name type_a ≡ void q asked name type_a
  pub mails :
      (calls asked : List Question) (name : Str)
      → void r calls name type_mx ≡ void q asked name type_mx

-- A state without its log and without `VoidExact`.
unfoldable pub blind : State → State
blind s = record s { out = record (s.out) { void_exact = false }; calls = [] }

abbrev pub IsAlike : State → State → Type 0
IsAlike s t = blind s ≡ blind t

module _ (r q : Resolver) (lim : Limits) where
  blind-answered :
      (domain target : Str) (via : Via) (depth : ℕ) (a : Result Bool) (s : State)
      → blind (answered r lim domain target via depth a s)
        ≡ answered q lim domain target via depth a (blind s)
  unfolding answered blind moves
  blind-answered domain target via depth (Result.err e) s = refl
  blind-answered domain target via depth (Result.ok true) s = ground arith
  blind-answered domain target via depth (Result.ok false) s = refl

module _ (r q : Resolver) (lim : Limits) (agrees : Agrees r q) where
  answered-IsAlike :
      (domain target : Str) (via : Via) (depth : ℕ) (a : Result Bool) (s t : State)
      → IsAlike s t
      → IsAlike
          (answered r lim domain target via depth a s)
          (answered q lim domain target via depth a t)
  answered-IsAlike domain target via depth a s t h =
      blind-answered r q lim domain target via depth a s
      ∙ ap (λ x. answered q lim domain target via depth a x) h
      ∙ sym (blind-answered q q lim domain target via depth a t)

  voids :
      (calls asked : List Question) (name : Str) (t : Term)
      → void r calls name (qtype_for r lim t) ≡ void q asked name (qtype_for q lim t)
  unfolding qtype_for
  voids calls asked name t =
      ground (arith, agrees.hosts calls asked name, agrees.mails calls asked name)

  pub terminal-IsAlike :
      (domain : Str) (t : Term) (depth : ℕ) (s u : State)
      → IsAlike s u
      → IsAlike (terminal r lim domain t depth s) (terminal q lim domain t depth u)
  unfolding terminal resolve moves blind
  terminal-IsAlike domain t depth s u h =
      let target : Str = value_or_domain t domain in
      let qtype = qtype_for r lim t in
      let same = voids s.calls u.calls target t in
      let resolved =
        answered-IsAlike domain target (via_for t) depth (void r s.calls target (qtype_for r lim t))
          (log (void_question r target (qtype_for r lim t)) s)
          (log (void_question q target (qtype_for q lim t)) u) h in
      let by_value =
        ap (λ (x : State). node domain t.value (via_for t) (depth + 1) [] Outcome.macro x) h in
      let by_target =
        ap (λ (x : State). node domain target Via.ptr (depth + 1) [] Outcome.macro x) h in
      ground (arith, same, resolved, by_value, by_target)

  module _ (follow chase : Follow)
      (follows : (domain raw : Str) (path : List Str) (depth : ℕ) (s t : State)
        → IsAlike s t
        → IsAlike (follow domain raw path depth s) (chase domain raw path depth t)) where
    enter-IsAlike :
        (parent target : Str) (via : Via) (path : List Str) (depth : ℕ) (f : Fetched) (s t : State)
        → IsAlike s t
        → IsAlike
            (enter r lim follow parent target via path depth f s)
            (enter q lim chase parent target via path depth f t)
    unfolding enter moves blind
    enter-IsAlike parent target via path depth (Fetched.failed e) s t h =
        ap
          (λ (x : State).
            halt (node parent target via (depth + 1) [] Outcome.temp_error (fail e x)))
          h
    enter-IsAlike parent target via path depth (Fetched.unusable recs outcome) s t h =
        let step : State → State = λ x. node parent target via (depth + 1) [] outcome (
          perm_first PermError.include_no_record (PermDetail.broken_target via target outcome)
            (note_broken parent target via outcome x)) in
        let moved : (x : State) → blind (step x) ≡ step (blind x) = λ x. ground arith in
        moved s ∙ ap step h ∙ sym (moved t)
    enter-IsAlike parent target via path depth (Fetched.usable raw) s t h =
        follows target raw (path ++ target ∷ []) (depth + 1)
          (node parent target via (depth + 1) raw Outcome.ok s)
          (node parent target via (depth + 1) raw Outcome.ok t)
          (ap (λ (x : State). node parent target via (depth + 1) raw Outcome.ok x) h)

    descend_to-IsAlike :
        (parent target : Str) (via : Via) (path : List Str) (depth : ℕ) (s t : State)
        → IsAlike s t
        → IsAlike
            (descend_to r lim follow parent target via path depth s)
            (descend_to q lim chase parent target via path depth t)
    unfolding descend_to moves blind
    descend_to-IsAlike parent target via path depth s t h =
        let noted : (x : State) → blind (note_include target x) ≡ note_include target (blind x) =
          λ x. ground arith in
        let both : IsAlike (note_include target s) (note_include target t) =
          noted s ∙ ap (note_include target) h ∙ sym (noted t) in
        let entered =
          enter-IsAlike parent target via path depth (fetch r s.calls target)
            (log (records_question r target) (note_include target s))
            (log (records_question q target) (note_include target t)) both in
        let looped =
          ap
            (λ (x : State).
              node parent target via (depth + 1) [] Outcome.cycle
                (note_cycle (path ++ target ∷ []) x))
            both in
        let deep =
          ap (λ (x : State). halt (node parent target via (depth + 1) [] Outcome.limit (inexact x)))
            both in
        rw (sym (agrees.fetches s.calls t.calls target)) (elim (Bool-cases (mem_str target path)) [
          | inl m ↦ rw (m) looped
          | inr m ↦ elim (Bool-cases (ltb lim.max_depth (depth + 1))) [
            | inl l ↦ rw (m, l) deep
            | inr l ↦ rw (m, l) entered
          ]
        ])

    pub descend-IsAlike :
        (parent target : Str) (via : Via) (path : List Str) (depth : ℕ) (s t : State)
        → IsAlike s t
        → IsAlike
            (descend r lim follow parent target via path depth s)
            (descend q lim chase parent target via path depth t)
    unfolding descend moves blind
    descend-IsAlike parent target via path depth s t h =
        let below = descend_to-IsAlike parent (normalize target) via path depth s t h in
        let empty =
          ap (λ (x : State). perm PermError.syntax (PermDetail.no_target parent via) x) h in
        ground (arith, below, empty)
