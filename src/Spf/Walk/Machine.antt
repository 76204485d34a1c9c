-- ===== src/Spf/Walk/Machine.antt =====
-- The walk as a state machine: one step for each way in which a term is spent, with the guards that
-- the code has tested on its way there.
use mailkit.Prelude.{ℕ, ◌+◌, ◌≤◌, ◌<◌, List, [], ◌∷◌, ◌++◌, length, true, false, ◌≡◌}
use mailkit.Text.{Str, mem_str}
use mailkit.Dnsx.{Error, Result, Resolver}
use mailkit.Spf.Terms.{Term}
use mailkit.Spf.Tree.{Limits, Outcome, Via, PermError, PermDetail, Node}
use mailkit.Spf.State.{
  State, Fetched, is_no_error, log, halt, fail, inexact, perm, perm_first, node, count_term,
  note_include, note_cycle, note_broken, count_void,
}
use mailkit.Spf.Walk.Route.{IsRoute}
use mailkit.Spf.Walk.{records_question, fetch, void_question, void, stop, note_all}

-- The node that a step records.
abbrev pub next_node : State → Str → Str → Via → ℕ → Str → Outcome → Node
next_node s parent target via depth raw outcome = record {
  seq = length s.out.nodes;
  parent = parent;
  target = target;
  via = via;
  depth = depth;
  term_at = s.out.terms;
  raw = raw;
  outcome = outcome;
}

-- What the steps compute with.
unfoldable pub moves : Unit {0}
unfolding log halt fail inexact perm perm_first is_no_error node count_term note_include note_cycle
    note_broken count_void stop note_all
moves = tt

module _ (r : Resolver) (lim : Limits) where
  pub data Step : State → State → Type 0 where
    over :
        (s : State) (domain : Str) (t : Term)
        → s.halted ≡ false
        → lim.max_terms < s.out.terms + 1
        → Step s (halt (stop r lim domain t (count_term s)))
    over_at :
        (s : State) (domain target : Str) (via : Via) (depth : ℕ) (t : Term)
        → s.halted ≡ false
        → depth ≤ lim.max_depth
        → lim.max_terms < s.out.terms + 1
        → Step s (
            halt (
              node domain target via
                (depth + 1)
                []
                Outcome.limit
                (stop r lim domain t (count_term s))))
    empty :
        (s : State) (parent : Str) (via : Via)
        → s.halted ≡ false
        → s.out.terms + 1 ≤ lim.max_terms
        → Step s (perm PermError.syntax (PermDetail.no_target parent via) (count_term s))
    cycle :
        (s : State) (parent target : Str) (via : Via) (path : List Str) (depth : ℕ)
        → s.halted ≡ false
        → depth ≤ lim.max_depth
        → s.out.terms + 1 ≤ lim.max_terms
        → mem_str target path ≡ true
        → IsRoute s.out.nodes path parent depth
        → Step s (
            node parent target via
              (depth + 1)
              []
              Outcome.cycle
              (note_cycle (path ++ target ∷ []) (note_include target (count_term s))))
    deep :
        (s : State) (parent target : Str) (via : Via) (depth : ℕ)
        → s.halted ≡ false
        → depth ≡ lim.max_depth
        → s.out.terms + 1 ≤ lim.max_terms
        → Step s (
            halt (
              node parent target via
                (depth + 1)
                []
                Outcome.limit
                (inexact (note_include target (count_term s)))))
    entered :
        (s : State) (parent target : Str) (via : Via) (depth : ℕ) (raw : Str)
        → s.halted ≡ false
        → depth + 1 ≤ lim.max_depth
        → s.out.terms + 1 ≤ lim.max_terms
        → fetch r s.calls target ≡ Fetched.usable raw
        → Step s (
            node parent target via
              (depth + 1)
              raw
              Outcome.ok
              (log (records_question r target) (note_include target (count_term s))))
    broken :
        (s : State) (parent target : Str) (via : Via) (depth : ℕ) (recs : List Str)
        (outcome : Outcome)
        → s.halted ≡ false
        → depth + 1 ≤ lim.max_depth
        → s.out.terms + 1 ≤ lim.max_terms
        → fetch r s.calls target ≡ Fetched.unusable recs outcome
        → Step s (
            node parent target via (depth + 1) [] outcome (
              perm_first PermError.include_no_record (PermDetail.broken_target via target outcome) (
                note_broken parent target via outcome
                  (log (records_question r target) (note_include target (count_term s))))))
    failed :
        (s : State) (parent target : Str) (via : Via) (depth : ℕ) (e : Error)
        → s.halted ≡ false
        → depth + 1 ≤ lim.max_depth
        → s.out.terms + 1 ≤ lim.max_terms
        → fetch r s.calls target ≡ Fetched.failed e
        → Step s (
            halt (
              node parent target via
                (depth + 1)
                []
                Outcome.temp_error
                (fail e (log (records_question r target) (note_include target (count_term s))))))
    skipped :
        (s : State) (domain target : Str) (via : Via) (depth : ℕ)
        → s.halted ≡ false
        → depth ≤ lim.max_depth
        → s.out.terms + 1 ≤ lim.max_terms
        → Step s (node domain target via (depth + 1) [] Outcome.macro (count_term s))
    unasked :
        (s : State) (domain target : Str) (via : Via) (depth qtype : ℕ) (e : Error)
        → s.halted ≡ false
        → depth ≤ lim.max_depth
        → s.out.terms + 1 ≤ lim.max_terms
        → void r s.calls target qtype ≡ Result.err e
        → Step s (
            halt (
              node domain target via
                (depth + 1)
                []
                Outcome.temp_error
                (fail e (log (void_question r target qtype) (count_term s)))))
    voided :
        (s : State) (domain target : Str) (via : Via) (depth qtype : ℕ)
        → s.halted ≡ false
        → depth ≤ lim.max_depth
        → s.out.terms + 1 ≤ lim.max_terms
        → void r s.calls target qtype ≡ Result.ok true
        → Step s (
            node domain target via
              (depth + 1)
              []
              Outcome.void
              (count_void lim (log (void_question r target qtype) (count_term s))))
    positive :
        (s : State) (domain target : Str) (via : Via) (depth qtype : ℕ)
        → s.halted ≡ false
        → depth ≤ lim.max_depth
        → s.out.terms + 1 ≤ lim.max_terms
        → void r s.calls target qtype ≡ Result.ok false
        → Step s (
            node domain target via
              (depth + 1)
              []
              Outcome.ok
              (log (void_question r target qtype) (count_term s)))
    qualified :
        (s : State) (depth : ℕ) (t : Term) → s.halted ≡ false → Step s (note_all r lim depth t s)

  pub data Steps (s : State) : State → Type 0 where
    here : Steps s s
    next : {t u : State} → Steps s t → Step t u → Steps s u

  pub Steps-trans : {s t u : State} → Steps s t → Steps t u → Steps s u
  Steps-trans h here = h
  Steps-trans h (next g st) = next (Steps-trans h g) st

  -- What holds before the walk and is kept by each step holds after it.
  pub Steps-inv {ℓ} :
      (P : State → Type ℓ)
      → ((s t : State) → Step s t → P s → P t)
      → {s t : State} → Steps s t
      → P s
      → P t
  Steps-inv P keeps here p = p
  Steps-inv P keeps (next g st) p = keeps _ _ st (Steps-inv P keeps g p)
