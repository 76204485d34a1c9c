-- ===== src/Spf/Walk/Count.antt =====
-- The walk beside the reference count, for resolvers that answer by name alone.
use mailkit.Prelude.{
  ℕ, zero, suc, ◌+◌, ◌≤◌, ◌<◌, List, [], ◌∷◌, ◌++◌, Option, none, some, true, false, ◌≡◌, refl,
  arith, Bool-cases, inl, inr, Bool,
}
use mailkit.Text.{Str}
use mailkit.Dnsx.{Resolver, Result, Question, normalize}
use mailkit.Spf.Terms.{Term, costs_lookup, parse}
use mailkit.Spf.Tree.{Limits, Outcome, Via, over_limit}
use mailkit.Spf.State.{
  State, Fetched, node, log, note_include, count_term, value_or_domain, via_for,
}
use mailkit.Spf.Cost.{target_cost, mechanism_cost, redirect_cost, terms_cost, cost, policy_cost}
use mailkit.Spf.Walk.{
  Follow, void, void_question, qtype_for, fetch, records_question, answered, resolve, terminal,
  enter, descend_to, descend, finish, spend, note_all, walk_terms, walk, evaluate, run,
  evaluate_root, start,
}
use mailkit.Spf.Walk.Machine.{moves}
use mailkit.Spf.Walk.Steps.{asked_root, entered_root}
use mailkit.Spf.Walk.Bounds.{halted_of_exact}

-- The record that an answer offers to be walked.
abbrev pub usable_record : Fetched → Option Str
usable_record (Fetched.usable raw) = some raw
usable_record _ = none

-- The zone that a resolver shows when it is first asked.
unfoldable pub zone_of : Resolver → Str → Option Str
zone_of r name = usable_record (fetch r [] name)

-- The answers for SPF records do not depend on what was asked before.
abbrev pub IsStatic : Resolver → Type 0
IsStatic r = (calls : List Question) (name : Str) → fetch r calls name ≡ fetch r [] name

-- `t` is `s` after at most `c` counted terms, and after exactly `c` if the walk was not halted.
record Spends (c : ℕ) (s t : State) : Type 0 where
  bound : t.out.terms ≤ s.out.terms + c
  exact : t.halted ≡ false → t.out.terms ≡ s.out.terms + c
  sticky : s.halted ≡ true → t.halted ≡ true

Spends-trans : (c d : ℕ) (s t u : State) → Spends c s t → Spends d t u → Spends (c + d) s u
Spends-trans c d s t u h g = ground (arith, h.bound, g.bound, h.exact, g.exact, h.sticky, g.sticky)

-- A halted walk has spent no more than anything.
Spends-halted : (c : ℕ) (s : State) → s.halted ≡ true → Spends c s s
Spends-halted c s h = ground arith

module _ (r : Resolver) (lim : Limits) (static : IsStatic r) where
  zone : Str → Option Str
  zone = zone_of r

  module _ (follow : Follow) (sub : Str → List Str → ℕ) (depth : ℕ)
      (spends : (domain raw : Str) (path : List Str) (s : State)
        → depth + 1 ≤ lim.max_depth
        → Spends (sub raw path) s (follow domain raw path (depth + 1) s)) where
    enter-Spends :
        (parent target : Str) (via : Via) (path : List Str) (f : Fetched) (s t : State)
        → depth + 1 ≤ lim.max_depth
        → t.out.terms ≡ s.out.terms
        → t.halted ≡ s.halted
        → Spends
            (elim (usable_record f) [ none ↦ 0 | some raw ↦ sub raw (path ++ target ∷ []) ])
            s
            (enter r lim follow parent target via path depth f t)
    unfolding enter moves
    enter-Spends parent target via path (Fetched.failed e) s t d n l = ground arith
    enter-Spends parent target via path (Fetched.unusable recs o) s t d n l = ground arith
    enter-Spends parent target via path (Fetched.usable raw) s t d n l =
        let h =
          spends target raw (path ++ target ∷ [])
            (node parent target via (depth + 1) raw Outcome.ok t) d in
        ground (arith, h.bound, h.exact, h.sticky)

    answered-Spends :
        (domain target : Str) (via : Via) (a : Result Bool) (s t : State)
        → t.out.terms ≡ s.out.terms
        → t.halted ≡ s.halted
        → Spends 0 s (answered r lim domain target via depth a t)
    unfolding answered moves
    answered-Spends domain target via (Result.err e) s t n l = ground arith
    answered-Spends domain target via (Result.ok true) s t n l = ground arith
    answered-Spends domain target via (Result.ok false) s t n l = ground arith

    descend-Spends :
        (parent value : Str) (via : Via) (path : List Str) (s : State)
        → Spends
            (target_cost zone sub path value)
            s
            (descend r lim follow parent value via path depth s)
    unfolding descend descend_to moves zone zone_of
    descend-Spends parent value via path s =
        let target : Str = normalize value in
        let entered =
          enter-Spends parent target via path (fetch r s.calls target) s
            (log (records_question r target) (note_include target s)) in
        ground (arith, static s.calls target, entered)

    -- What a terminal mechanism leaves as it was.
    terminal-Spends :
        (domain : Str) (t : Term) (s : State) → Spends 0 s (terminal r lim domain t depth s)
    unfolding terminal resolve moves
    terminal-Spends domain t s = ground (
      arith,
      answered-Spends domain (value_or_domain t domain) (via_for t)
          (void r s.calls (value_or_domain t domain) (qtype_for r lim t)) s
          (log (void_question r (value_or_domain t domain) (qtype_for r lim t)) s) refl refl,
    )

    spend-Spends :
        (domain : Str) (path : List Str) (t : Term) (s : State)
        → t.modifier ≡ false
        → costs_lookup t ≡ true
        → Spends (mechanism_cost zone sub path t) s (spend r lim follow domain path depth t s)
    unfolding spend moves
    spend-Spends domain path t s m c =
        let below = descend-Spends domain t.value Via.include path (count_term s) in
        let other = terminal-Spends domain t (count_term s) in
        ground
          (arith, below.bound, below.exact, below.sticky, other.bound, other.exact, other.sticky)

    finish-Spends :
        (domain : Str) (path : List Str) (o : Option Term) (s : State)
        → Spends (redirect_cost zone sub path o) s (finish r lim follow domain path depth o s)
    unfolding finish moves
    finish-Spends domain path none s = ground arith
    finish-Spends domain path (some t) s =
        let below = descend-Spends domain t.value Via.redirect path (count_term s) in
        ground (arith, below.bound, below.exact, below.sticky)

    walk_terms-Spends :
        (domain : Str) (path : List Str) (ts : List Term) (o : Option Term) (s : State)
        → Spends
            (terms_cost zone sub path ts o)
            s
            (walk_terms r lim follow domain path depth ts o s)
    unfolding walk_terms note_all
    walk_terms-Spends domain path [] o s =
        let h = finish-Spends domain path o s in ground (arith, h.bound, h.exact, h.sticky)
    walk_terms-Spends domain path (t ∷ ts) o s = elim (Bool-cases s.halted) [
      | inl done ↦ ground arith
      | inr live ↦ elim (Bool-cases t.modifier) [
        | inl m ↦
            let kept = walk_terms-Spends domain path ts o s in
            let taken = walk_terms-Spends domain path ts (some t) s in
            ground
              (arith, kept.bound, kept.exact, kept.sticky, taken.bound, taken.exact, taken.sticky)
        | inr m ↦ elim (Bool-cases (costs_lookup t)) [
          | inl c ↦
              let first = spend-Spends domain path t s m c in
              let s' : State = spend r lim follow domain path depth t s in
              let rest = walk_terms-Spends domain path ts o s' in
              let both = Spends-trans _ _ s s' _ first rest in
              ground (arith, both.bound, both.exact, both.sticky)
          | inr c ↦
              let rest = walk_terms-Spends domain path ts o s in
              ground (arith, rest.bound, rest.exact, rest.sticky)
        ]
      ]
    ]

  walk-Spends :
      (fuel bound : ℕ) (domain raw : Str) (path : List Str) (depth : ℕ) (s : State)
      → lim.max_depth < depth + fuel
      → lim.max_depth < depth + bound
      → depth ≤ lim.max_depth
      → Spends (cost zone bound raw path) s (walk r lim fuel domain raw path depth s)
  unfolding walk cost
  walk-Spends zero bound domain raw path depth s h k d = absurd (omega arith)
  walk-Spends (suc fuel) zero domain raw path depth s h k d = absurd (omega arith)
  walk-Spends (suc fuel) (suc bound) domain raw path depth s h k d =
      let h =
        walk_terms-Spends (walk r lim fuel) (cost zone bound) depth
          (λ dom rec p u le.
            walk-Spends fuel bound dom rec p (depth + 1) u (omega arith) (omega arith) le)
          domain path (parse raw) none s in
      ground (arith, h.bound, h.exact, h.sticky)

  root-Spends :
      (domain : Str) (bound : ℕ) (f : Fetched)
      → lim.max_depth < bound
      → Spends
          (elim (usable_record f) [ none ↦ 0 | some raw ↦ cost zone bound raw (domain ∷ []) ])
          (start r lim domain)
          (evaluate_root r lim domain f (asked_root r lim domain))
  unfolding evaluate_root moves start
  root-Spends domain bound (Fetched.failed e) h = ground arith
  root-Spends domain bound (Fetched.unusable recs Outcome.multiple) h = ground arith
  root-Spends domain bound (Fetched.unusable recs _) h = ground arith
  root-Spends domain bound (Fetched.usable raw) h =
      let walked =
        walk-Spends (suc lim.max_depth) bound domain raw (domain ∷ []) 0
          (entered_root r lim domain raw) (omega arith) (omega arith) (omega arith) in
      ground (arith, walked.bound, walked.exact, walked.sticky)

  run-Spends :
      (domain : Str) (bound : ℕ)
      → lim.max_depth < bound
      → Spends
          (policy_cost zone bound (normalize domain))
          (start r lim (normalize domain))
          (run r lim domain)
  unfolding run policy_cost zone zone_of
  run-Spends domain bound h = root-Spends (normalize domain) bound (fetch r [] (normalize domain)) h

-- Against a resolver that answers by name alone, `Terms` is never more than the reference count of
-- the domain's policy, taken to any depth beyond the depth limit; it is that count when it is
-- called exact; and the reference count is over the limit whenever the report says so.
pub evaluate_count :
    (r : Resolver) (lim : Limits) (domain : Str) (bound : ℕ)
    → IsStatic r
    → lim.max_depth < bound
    → let c = policy_cost (zone_of r) bound (normalize domain) in
      let out = evaluate r lim domain in
      (out.terms ≤ c)
      × (out.terms_exact ≡ true → out.terms ≡ c)
      × (over_limit out lim ≡ true → lim.max_terms < c)
unfolding evaluate zone start over_limit
evaluate_count r lim domain bound static h =
    let spent = run-Spends r lim static domain bound h in
    (
      ground (arith, spent.bound),
      λ x. ground (arith, spent.exact (halted_of_exact r lim domain x)),
      λ o. ground (arith, spent.bound, o),
    )
