-- ===== src/Spf/Walk/Fuel.antt =====
-- The fuel of the walk beside the depths that are left below the limit.
use mailkit.Prelude.{
  ℕ, zero, suc, ◌+◌, ◌≤◌, ◌<◌, List, [], ◌∷◌, Option, none, some, ◌≡◌, refl, arith,
}
use mailkit.Text.{Str}
use mailkit.Dnsx.{Resolver, normalize}
use mailkit.Spf.Terms.{Term, parse}
use mailkit.Spf.Tree.{Limits, Via}
use mailkit.Spf.State.{State, Fetched, log, note_include, count_term}
use mailkit.Spf.Walk.{
  Follow, fetch, records_question, enter, descend_to, descend, finish, spend, walk_terms, walk,
}

module _ (r : Resolver) (lim : Limits) where
  -- Two calls that agree on the next depth, as long as it is within the limit.
  module _ (follow other : Follow) (depth : ℕ)
      (same : (domain raw : Str) (path : List Str) (s : State)
        → depth + 1 ≤ lim.max_depth
        → follow domain raw path (depth + 1) s ≡ other domain raw path (depth + 1) s) where
    enter-congr :
        (parent target : Str) (via : Via) (path : List Str) (f : Fetched) (s : State)
        → depth + 1 ≤ lim.max_depth
        → enter r lim follow parent target via path depth f s
          ≡ enter r lim other parent target via path depth f s
    unfolding enter
    enter-congr parent target via path (Fetched.failed e) s h = refl
    enter-congr parent target via path (Fetched.unusable recs o) s h = refl
    enter-congr parent target via path (Fetched.usable raw) s h = same target raw _ _ h

    descend-congr :
        (parent value : Str) (via : Via) (path : List Str) (s : State)
        → descend r lim follow parent value via path depth s
          ≡ descend r lim other parent value via path depth s
    unfolding descend descend_to
    descend-congr parent value via path s =
        let target : Str = normalize value in
        ground (
          arith,
          enter-congr parent target via path (fetch r s.calls target)
              (log (records_question r target) (note_include target s)),
        )

    spend-congr :
        (domain : Str) (path : List Str) (t : Term) (s : State)
        → spend r lim follow domain path depth t s ≡ spend r lim other domain path depth t s
    unfolding spend
    spend-congr domain path t s =
        ground (arith, descend-congr domain t.value Via.include path (count_term s))

    finish-congr :
        (domain : Str) (path : List Str) (redirect : Option Term) (s : State)
        → finish r lim follow domain path depth redirect s
          ≡ finish r lim other domain path depth redirect s
    unfolding finish
    finish-congr domain path none s = refl
    finish-congr domain path (some t) s =
        ground (arith, descend-congr domain t.value Via.redirect path (count_term s))

    walk_terms-congr :
        (domain : Str) (path : List Str) (ts : List Term) (redirect : Option Term) (s : State)
        → walk_terms r lim follow domain path depth ts redirect s
          ≡ walk_terms r lim other domain path depth ts redirect s
    unfolding walk_terms
    walk_terms-congr domain path [] redirect s = finish-congr domain path redirect s
    walk_terms-congr domain path (t ∷ ts) redirect s = ground (
      arith,
      spend-congr domain path t s,
      walk_terms-congr domain path ts redirect s,
      walk_terms-congr domain path ts (some t) s,
      walk_terms-congr domain path ts redirect (spend r lim follow domain path depth t s),
    )

  -- Two amounts of fuel that both exceed the depths that are left give the same walk: the recursion
  -- ends at the depth limit, and never because the fuel ran out.
  pub walk_fuel :
      (fuel fuel' : ℕ) (domain raw : Str) (path : List Str) (depth : ℕ) (s : State)
      → lim.max_depth < depth + fuel
      → lim.max_depth < depth + fuel'
      → depth ≤ lim.max_depth
      → walk r lim fuel domain raw path depth s ≡ walk r lim fuel' domain raw path depth s
  unfolding walk
  walk_fuel zero fuel' domain raw path depth s h h' d = absurd (omega arith)
  walk_fuel (suc fuel) zero domain raw path depth s h h' d = absurd (omega arith)
  walk_fuel (suc fuel) (suc fuel') domain raw path depth s h h' d =
      let rest =
        walk_terms-congr (walk r lim fuel) (walk r lim fuel') depth
          (λ dom rec p u le.
            walk_fuel fuel fuel' dom rec p (depth + 1) u (omega arith) (omega arith) le)
          domain path (parse raw) none s in
      ground (arith, rest)
