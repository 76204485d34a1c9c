-- ===== src/Spf/Walk/Tally.antt =====
-- What a report lists beside its nodes: the broken targets, the void lookups and the cycles.
use mailkit.Prelude.{
  ℕ, ◌+◌, List, [], ◌∷◌, ◌++◌, append_assoc, append-nil, ◌&&◌, ◌≡◌, refl, sym, ap, arith, ltb,
  if◌then◌else◌,
}
use mailkit.Text.{Str}
use mailkit.Dnsx.{Resolver, normalize}
use mailkit.Spf.Tree.{Limits, Outcome, Via, Node, Broken}
use mailkit.Spf.State.{State, Fetched, node, halt}
use mailkit.Spf.Walk.{fetch, start, evaluate_root, run, evaluate}
use mailkit.Spf.Walk.Machine.{
  moves, next_node, Step, over, over_at, empty, cycle, deep, entered, broken, failed, skipped,
  unasked, voided, positive, qualified,
}
use mailkit.Spf.Walk.Unusable.{is_unusable, fetch_unusable}
use mailkit.Spf.Walk.Cycles.{cycles_of, IsCycleOf, ArePaired, run-AreCyclesOf}
use mailkit.Spf.Walk.Steps.{asked_root, run_inv}

-- The entry of `Broken` that a node calls for: any but the root whose name has no usable record.
abbrev pub broken_at : Str → Str → Via → ℕ → Outcome → List Broken
broken_at parent target via depth outcome =
    if is_unusable outcome && ltb 0 depth
    then record { parent = parent; target = target; via = via; reason = outcome } ∷ []
    else []

abbrev pub broken_of : List Node → List Broken
broken_of [] = []
broken_of (n ∷ ns) = broken_at n.parent n.target n.via n.depth n.outcome ++ broken_of ns

abbrev pub void_at : Outcome → ℕ
void_at Outcome.void = 1
void_at _ = 0

abbrev pub voids_of : List Node → ℕ
voids_of [] = 0
voids_of (n ∷ ns) = void_at n.outcome + voids_of ns

broken_of-concat :
    (ns : List Node) (n : Node)
    → broken_of (ns ++ n ∷ []) ≡ broken_of ns ++ broken_at n.parent n.target n.via n.depth n.outcome
broken_of-concat [] n = rw append-nil
broken_of-concat (m ∷ ns) n = simp (broken_of-concat ns n, append_assoc)

voids_of-concat :
    (ns : List Node) (n : Node) → voids_of (ns ++ n ∷ []) ≡ voids_of ns + void_at n.outcome
voids_of-concat [] n = omega arith
voids_of-concat (m ∷ ns) n = omega (arith, voids_of-concat ns n)

module _ (r : Resolver) (lim : Limits) where
  record IsTallied (s : State) : Type 0 where
    broken : s.out.broken ≡ broken_of s.out.nodes
    voids : s.out.void ≡ voids_of s.out.nodes

  -- A step that leaves the nodes and what is tallied alone.
  same :
      (s t : State)
      → t.out.nodes ≡ s.out.nodes
      → t.out.broken ≡ s.out.broken
      → t.out.void ≡ s.out.void
      → IsTallied s
      → IsTallied t
  same s t e b v h = record { broken = rw (e, b) h.broken; voids = rw (e, v) h.voids }

  module _ (s t : State) (parent target : Str) (via : Via) (depth : ℕ) (raw : Str)
      (outcome : Outcome) (nodes : t.out.nodes ≡ s.out.nodes)
      (broken : t.out.broken ≡ s.out.broken ++ broken_at parent target via depth outcome)
      (voids : t.out.void ≡ s.out.void + void_at outcome) (h : IsTallied s) where
    -- A step that records a node.
    grow : IsTallied (node parent target via depth raw outcome t)
    unfolding node
    grow =
        let added : Node = next_node t parent target via depth raw outcome in
        record {
          broken = rw (broken, nodes, h.broken) (sym (broken_of-concat s.out.nodes _));
          voids =
              omega (arith, voids, h.voids, voids_of-concat t.out.nodes added, ap voids_of nodes);
        }

    -- The same with a halt behind it.
    grow_halt : IsTallied (halt (node parent target via depth raw outcome t))
    unfolding halt
    grow_halt = same (node parent target via depth raw outcome t) _ refl refl refl grow

  Step-IsTallied : (s t : State) → Step r lim s t → IsTallied s → IsTallied t
  Step-IsTallied s u (over _ domain t live full) h =
      same s u (unfold moves in ground arith) (unfold moves in ground arith)
        (unfold moves in ground arith) h
  Step-IsTallied s _ (over_at _ domain target via depth t live d full) h =
      grow_halt s _ _ _ _ _ _ _ (unfold moves in ground arith)
        (unfold moves in ground (arith, append-nil s.out.broken)) (unfold moves in ground arith) h
  Step-IsTallied s u (empty _ parent via live room) h =
      same s u (unfold moves in ground arith) (unfold moves in ground arith)
        (unfold moves in ground arith) h
  Step-IsTallied s _ (cycle _ parent target via path depth live d room m p) h =
      grow s _ _ _ _ _ _ _ (unfold moves in ground arith)
        (unfold moves in ground (arith, append-nil s.out.broken)) (unfold moves in ground arith) h
  Step-IsTallied s _ (deep _ parent target via depth live d room) h =
      grow_halt s _ _ _ _ _ _ _ (unfold moves in ground arith)
        (unfold moves in ground (arith, append-nil s.out.broken)) (unfold moves in ground arith) h
  Step-IsTallied s _ (entered _ parent target via depth raw live d room f) h =
      grow s _ _ _ _ _ _ _ (unfold moves in ground arith)
        (unfold moves in ground (arith, append-nil s.out.broken)) (unfold moves in ground arith) h
  Step-IsTallied s _ (broken _ parent target via depth recs outcome live d room f) h =
      grow s _ _ _ _ _ _ _ (unfold moves in ground arith)
        (unfold moves in ground (arith, fetch_unusable recs outcome r s.calls target f))
        (unfold moves in ground (arith, fetch_unusable recs outcome r s.calls target f)) h
  Step-IsTallied s _ (failed _ parent target via depth e live d room f) h =
      grow_halt s _ _ _ _ _ _ _ (unfold moves in ground arith)
        (unfold moves in ground (arith, append-nil s.out.broken)) (unfold moves in ground arith) h
  Step-IsTallied s _ (skipped _ domain target via depth live d room) h =
      grow s _ _ _ _ _ _ _ (unfold moves in ground arith)
        (unfold moves in ground (arith, append-nil s.out.broken)) (unfold moves in ground arith) h
  Step-IsTallied s _ (unasked _ domain target via depth qtype e live d room f) h =
      grow_halt s _ _ _ _ _ _ _ (unfold moves in ground arith)
        (unfold moves in ground (arith, append-nil s.out.broken)) (unfold moves in ground arith) h
  Step-IsTallied s _ (voided _ domain target via depth qtype live d room f) h =
      grow s _ _ _ _ _ _ _ (unfold moves in ground arith)
        (unfold moves in ground (arith, append-nil s.out.broken)) (unfold moves in ground arith) h
  Step-IsTallied s _ (positive _ domain target via depth qtype live d room f) h =
      grow s _ _ _ _ _ _ _ (unfold moves in ground arith)
        (unfold moves in ground (arith, append-nil s.out.broken)) (unfold moves in ground arith) h
  Step-IsTallied s u (qualified _ depth t live) h =
      same s u (unfold moves in ground arith) (unfold moves in ground arith)
        (unfold moves in ground arith) h

  run-IsTallied : (domain : Str) → IsTallied (run r lim domain)
  unfolding moves start
  run-IsTallied domain =
      run_inv r lim IsTallied IsTallied domain Step-IsTallied (λ s h. h) (λ e h. ground arith)
        unusable-IsTallied (λ raw. ground arith)
    where
      unusable-IsTallied :
          (recs : List Str) (o : Outcome)
          → fetch r [] (normalize domain) ≡ Fetched.unusable recs o
          → IsTallied (
              evaluate_root r lim
                (normalize domain)
                (Fetched.unusable recs o)
                (asked_root r lim (normalize domain)))
      unusable-IsTallied recs Outcome.multiple f = unfold evaluate_root in ground arith
      unusable-IsTallied recs o f =
          unfold evaluate_root in ground (arith, fetch_unusable recs o r [] (normalize domain) f)

  -- A report's lists agree with its nodes: `Broken` holds one entry, in order, for each node below
  -- the root without a usable record (none, no such name, or several); `Void` is the number of void
  -- nodes; `Cycles` holds one entry, in order, for each cycle node: the path of names that leads
  -- from the root to the node's parent by includes and redirects that were read, as deep as the
  -- parent, with the target, which stands on that path, behind it.
  pub evaluate_tally :
      (domain : Str)
      → let out = evaluate r lim domain in
        (out.broken ≡ broken_of out.nodes)
        × (out.void ≡ voids_of out.nodes)
        × ArePaired (IsCycleOf out.nodes) (cycles_of out.nodes) out.cycles
  unfolding evaluate
  evaluate_tally domain =
      let h = run-IsTallied domain in (h.broken, h.voids, run-AreCyclesOf r lim domain)
