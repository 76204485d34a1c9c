-- ===== src/Spf/Walk.antt =====
-- spf/evaluate.go: `walk`, `descend`, `terminal`, the lookups and `Evaluate`. The recursion of
-- `walk` takes fuel, one more than the depth limit; what it passes to the loop is the call for a
-- target.
pub mod Route
pub mod Machine
pub mod Growth
pub mod Steps
pub mod Bounds
pub mod Count
pub mod Fuel
pub mod Includes
pub mod Unusable
pub mod Cycles
pub mod Tally
pub mod Trace
pub mod Alike
pub mod Agree
use mailkit.Prelude.{
  ℕ, zero, suc, ◌+◌, List, [], ◌∷◌, ◌++◌, Bool, true, false, not, Option, none, some, ltb, ◌==◌,
  if◌then◌else◌, is_empty, length,
}
use mailkit.Text.{Str, codes, eq_str, mem_str}
use mailkit.Dnsx.{Result, Resolver, Question, normalize, type_a, type_mx, type_txt}
use mailkit.Spf.Terms.{Term, costs_lookup, has_macro, parse}
use mailkit.Spf.Tree.{Limits, Outcome, Via, PermError, PermDetail, Report}
use mailkit.Spf.State.{
  State, Fetched, fetched_txt, fetched_answer, void_answer, void_list, log, halt, fail, inexact,
  perm, perm_first, node, count_term, note_include, note_cycle, note_broken, value_or_domain,
  via_for, count_void,
}

-- The call of `walk` for a target: its name, its record, the path to it and its depth.
abbrev pub Follow : Type 0
Follow = Str → Str → List Str → ℕ → State → State

module _ (r : Resolver) where
  unfoldable pub records_question : Str → Question
  records_question name = elim r.query [
    | none ↦ Question.lookup_txt name
    | some q ↦ Question.query name type_txt
  ]

  unfoldable pub fetch : List Question → Str → Fetched
  fetch calls name = elim r.query [
    | none ↦ fetched_txt (r.lookup_txt calls name)
    | some q ↦ fetched_answer (q calls name type_txt)
  ]

  unfoldable pub void_question : Str → ℕ → Question
  void_question name qtype = elim r.query [
    | none ↦ if qtype == type_mx then Question.lookup_mx name else Question.lookup_host name
    | some q ↦ Question.query name qtype
  ]

  unfoldable pub void : List Question → Str → ℕ → Result Bool
  void calls name qtype = elim r.query [
    | none ↦
        if qtype == type_mx
        then void_list (r.lookup_mx calls name)
        else void_list (r.lookup_host calls name)
    | some q ↦ void_answer (q calls name qtype)
  ]

module _ (r : Resolver) (lim : Limits) where
  -- What `terminal` does with the answer of `void`.
  unfoldable pub answered : Str → Str → Via → ℕ → Result Bool → State → State
  answered domain target via depth (Result.err e) s =
      halt (node domain target via (depth + 1) [] Outcome.temp_error (fail e s))
  answered domain target via depth (Result.ok true) s =
      node domain target via (depth + 1) [] Outcome.void (count_void lim s)
  answered domain target via depth (Result.ok false) s =
      node domain target via (depth + 1) [] Outcome.ok s

  unfoldable pub qtype_for : Term → ℕ
  qtype_for t = if eq_str t.name (codes "mx") then type_mx else type_a

  unfoldable pub resolve : Str → Str → Term → ℕ → State → State
  resolve domain target t depth s =
      let qtype : ℕ = qtype_for t in
      answered domain target (via_for t) depth (void r s.calls target qtype)
        (log (void_question r target qtype) s)

  unfoldable pub terminal : Str → Term → ℕ → State → State
  terminal domain t depth s =
      let target = value_or_domain t domain in
      if has_macro t
      then node domain t.value (via_for t) (depth + 1) [] Outcome.macro s
      else if eq_str t.name (codes "ptr")
      then node domain target Via.ptr (depth + 1) [] Outcome.macro s
      else resolve domain target t depth s

  -- What `descend` does with the answer for its target.
  unfoldable pub enter : Follow → Str → Str → Via → List Str → ℕ → Fetched → State → State
  enter follow parent target via path depth (Fetched.failed e) s =
      halt (node parent target via (depth + 1) [] Outcome.temp_error (fail e s))
  enter follow parent target via path depth (Fetched.unusable recs outcome) s =
      node parent target via (depth + 1) [] outcome (
        perm_first PermError.include_no_record (PermDetail.broken_target via target outcome)
          (note_broken parent target via outcome s))
  enter follow parent target via path depth (Fetched.usable raw) s =
      follow target raw (path ++ target ∷ []) (depth + 1)
        (node parent target via (depth + 1) raw Outcome.ok s)

  -- `descend` behind its test for an empty target, which is normalized here.
  unfoldable pub descend_to : Follow → Str → Str → Via → List Str → ℕ → State → State
  descend_to follow parent target via path depth s =
      let s' = note_include target s in
      if mem_str target path
      then node parent target via (depth + 1) [] Outcome.cycle (note_cycle (path ++ target ∷ []) s')
      else if ltb lim.max_depth (depth + 1)
      then halt (node parent target via (depth + 1) [] Outcome.limit (inexact s'))
      else enter follow parent target via path depth (fetch r s.calls target)
          (log (records_question r target) s')

  unfoldable pub descend : Follow → Str → Str → Via → List Str → ℕ → State → State
  descend follow parent target via path depth s =
      let t = normalize target in
      if is_empty t
      then perm PermError.syntax (PermDetail.no_target parent via) s
      else descend_to follow parent t via path depth s

  -- The term that passes the limit ends the walk.
  unfoldable pub stop : Str → Term → State → State
  stop domain t s =
      inexact
        (perm PermError.over_term_limit (PermDetail.limit_reached lim.max_terms t.raw domain) s)

  -- The end of `walk`: the redirect, if there is one.
  unfoldable pub finish : Follow → Str → List Str → ℕ → Option Term → State → State
  finish follow domain path depth none s = s
  finish follow domain path depth (some t) s =
      let s' = count_term s in
      if s.halted
      then s
      else if ltb lim.max_terms s'.out.terms
      then halt (stop domain t s')
      else descend follow domain t.value Via.redirect path depth s'

  -- A term that costs a lookup.
  unfoldable pub spend : Follow → Str → List Str → ℕ → Term → State → State
  spend follow domain path depth t s =
      let s' = count_term s in
      if ltb lim.max_terms s'.out.terms
      then halt (
          node domain (value_or_domain t domain) (via_for t) (depth + 1) [] Outcome.limit
            (stop domain t s'))
      else if eq_str t.name (codes "include")
      then descend follow domain t.value Via.include path depth s'
      else terminal domain t depth s'

  unfoldable pub note_all : ℕ → Term → State → State
  note_all depth t s =
      if depth == 0 then record s { out = record (s.out) { all = t.qualifier } } else s

  -- The loop over the terms of a record; the redirect seen last is its variable.
  unfoldable pub walk_terms : Follow → Str → List Str → ℕ → List Term → Option Term → State → State
  walk_terms follow domain path depth [] redirect s = finish follow domain path depth redirect s
  walk_terms follow domain path depth (t ∷ ts) redirect s =
      let redirected =
        walk_terms follow domain path depth ts
          (if eq_str t.name (codes "redirect") then some t else redirect) s in
      let next = walk_terms follow domain path depth ts redirect s in
      let spent =
        walk_terms follow domain path depth ts redirect (spend follow domain path depth t s) in
      if s.halted
      then s
      else if t.modifier
      then redirected
      else if eq_str t.name (codes "all")
      then note_all depth t s
      else if not (costs_lookup t)
      then next
      else spent

  unfoldable pub walk : ℕ → Follow
  walk zero domain raw path depth s = s
  walk (suc fuel) domain raw path depth s =
      let rest = walk_terms (walk fuel) domain path depth (parse raw) none s in
      if s.halted then s else rest

  unfoldable pub start : Str → State
  start domain = record {
    out = record {
      domain = domain;
      records = [];
      raw = [];
      found = false;
      all = [];
      terms = 0;
      terms_exact = true;
      void = 0;
      void_exact = elim r.query [ none ↦ false | some q ↦ true ];
      max_depth = 0;
      nodes = [];
      includes = [];
      broken = [];
      cycles = [];
      perm_error = PermError.no_error;
      perm_detail = PermDetail.no_detail;
      temp_error = [];
    };
    seen = [];
    halted = false;
    calls = [];
  }

  unfoldable pub evaluate_root : Str → Fetched → State → State
  evaluate_root domain (Fetched.failed e) s = fail e s
  evaluate_root domain (Fetched.unusable recs Outcome.multiple) s =
      node [] domain Via.root 0 [] Outcome.multiple (
        perm PermError.multiple_records (PermDetail.published domain (length recs))
          (record s { out = record (s.out) { records = recs } }))
  evaluate_root domain (Fetched.unusable recs outcome) s = node [] domain Via.root 0 [] outcome s
  evaluate_root domain (Fetched.usable raw) s =
      walk (suc lim.max_depth) domain raw (domain ∷ []) 0 (
        node [] domain Via.root 0 raw Outcome.ok
          (record s { out = record (s.out) { records = raw ∷ []; raw = raw; found = true } }))

  -- The state that `Evaluate` leaves, and the result that it returns.
  unfoldable pub run : Str → State
  run domain =
      let d = normalize domain in
      evaluate_root d (fetch r [] d) (log (records_question r d) (start d))

  unfoldable pub evaluate : Str → Report
  evaluate domain = (run domain).out
