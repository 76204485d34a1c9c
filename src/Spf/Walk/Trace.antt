-- ===== src/Spf/Walk/Trace.antt =====
-- The nodes that a walk records: their numbers, their running term counts and their depths.
use mailkit.Prelude.{
  ℕ, suc, ◌+◌, ◌≤◌, List, [], ◌∷◌, ◌++◌, ◌≡◌, refl, ap, arith, length, length-append, All,
  All-concat, All-map,
}
use mailkit.Text.{Str}
use mailkit.Dnsx.{Resolver, normalize}
use mailkit.Spf.Tree.{Limits, Outcome, Via, Node}
use mailkit.Spf.State.{State, Fetched, node, halt}
use mailkit.Spf.Walk.{fetch, start, evaluate_root, run, evaluate}
use mailkit.Spf.Walk.Machine.{
  moves, next_node, Step, over, over_at, empty, cycle, deep, entered, broken, failed, skipped,
  unasked, voided, positive, qualified,
}
use mailkit.Spf.Walk.Steps.{asked_root, run_inv}

-- The sequence numbers count up from `k`.
abbrev pub IsNumbered : ℕ → List Node → Type 0
IsNumbered k [] = Unit
IsNumbered k (n ∷ ns) = (n.seq ≡ k) × IsNumbered (suc k) ns

-- The running counts never fall, and stay between the two bounds.
abbrev pub IsRising : ℕ → List Node → ℕ → Type 0
IsRising low [] high = low ≤ high
IsRising low (n ∷ ns) high = (low ≤ n.term_at) × IsRising n.term_at ns high

IsNumbered-concat :
    (k : ℕ) (ns : List Node) (n : Node)
    → IsNumbered k ns
    → n.seq ≡ k + length ns
    → IsNumbered k (ns ++ n ∷ [])
IsNumbered-concat k [] n _ e = (omega arith, tt)
IsNumbered-concat k (m ∷ ns) n (h, hs) e = (h, IsNumbered-concat (suc k) ns n hs (omega arith))

IsRising-concat :
    (low : ℕ) (ns : List Node) (n : Node) (high high' : ℕ)
    → IsRising low ns high
    → high ≤ n.term_at
    → n.term_at ≤ high'
    → IsRising low (ns ++ n ∷ []) high'
IsRising-concat low [] n high high' h a b = (omega arith, b)
IsRising-concat low (m ∷ ns) n high high' (h, hs) a b =
    (h, IsRising-concat m.term_at ns n high high' hs a b)

IsRising-mono :
    (low : ℕ) (ns : List Node) (high high' : ℕ)
    → IsRising low ns high
    → high ≤ high'
    → IsRising low ns high'
IsRising-mono low [] high high' h a = omega arith
IsRising-mono low (m ∷ ns) high high' (h, hs) a = (h, IsRising-mono m.term_at ns high high' hs a)

module _ (r : Resolver) (lim : Limits) where
  record IsTraced (s : State) : Type 0 where
    numbered : IsNumbered 0 s.out.nodes
    rising : IsRising 0 s.out.nodes s.out.terms
    shallow : All (λ n. n.depth ≤ s.out.max_depth) s.out.nodes
    deepest : s.out.max_depth ≤ lim.max_depth + 1
    few : length s.out.nodes ≤ s.out.terms + 1

  -- A step that leaves the nodes alone.
  same :
      (s t : State)
      → t.out.nodes ≡ s.out.nodes
      → t.out.max_depth ≡ s.out.max_depth
      → s.out.terms ≤ t.out.terms
      → IsTraced s
      → IsTraced t
  same s t e m le h = record {
    numbered = rw e h.numbered;
    rising = rw e (IsRising-mono 0 s.out.nodes s.out.terms t.out.terms h.rising le);
    shallow = rw (e, m) h.shallow;
    deepest = rw m h.deepest;
    few = rw e (omega (arith, h.few));
  }

  -- A step that spends a term and then records a node.
  grow :
      (s t : State) (parent target : Str) (via : Via) (depth : ℕ) (raw : Str) (outcome : Outcome)
      → t.out.nodes ≡ s.out.nodes
      → t.out.max_depth ≡ s.out.max_depth
      → t.out.terms ≡ s.out.terms + 1
      → depth ≤ lim.max_depth + 1
      → IsTraced s
      → IsTraced (node parent target via depth raw outcome t)
  unfolding node
  grow s t parent target via depth raw outcome e m terms d h = record {
    numbered = IsNumbered-concat 0 t.out.nodes _ (rw e h.numbered) (omega arith);
    rising =
        IsRising-concat 0 t.out.nodes _ s.out.terms t.out.terms (rw e h.rising) (omega arith)
          (omega arith);
    shallow =
        All-concat _ t.out.nodes (rw e (All-map _ _ (λ n le. ground arith) s.out.nodes h.shallow))
          (ground arith);
    deepest = ground (arith, h.deepest);
    few = omega (
      arith,
      h.few,
      ap length e,
      length-append t.out.nodes (next_node t parent target via depth raw outcome ∷ []),
    );
  }

  -- The same with a halt behind it.
  grow_halt :
      (s t : State) (parent target : Str) (via : Via) (depth : ℕ) (raw : Str) (outcome : Outcome)
      → t.out.nodes ≡ s.out.nodes
      → t.out.max_depth ≡ s.out.max_depth
      → t.out.terms ≡ s.out.terms + 1
      → depth ≤ lim.max_depth + 1
      → IsTraced s
      → IsTraced (halt (node parent target via depth raw outcome t))
  unfolding halt
  grow_halt s t parent target via depth raw outcome e m terms d h =
      same (node parent target via depth raw outcome t) _ refl refl (omega arith)
        (grow s t parent target via depth raw outcome e m terms d h)

  Step-IsTraced : (s t : State) → Step r lim s t → IsTraced s → IsTraced t
  Step-IsTraced s u (over _ domain t live full) h =
      same s u (unfold moves in ground arith) (unfold moves in ground arith)
        (unfold moves in ground arith) h
  Step-IsTraced s _ (over_at _ domain target via depth t live d full) h =
      grow_halt s _ _ _ _ _ _ _ (unfold moves in ground arith) (unfold moves in ground arith)
        (unfold moves in ground arith) (omega arith) h
  Step-IsTraced s u (empty _ parent via live room) h =
      same s u (unfold moves in ground arith) (unfold moves in ground arith)
        (unfold moves in ground arith) h
  Step-IsTraced s _ (cycle _ parent target via path depth live d room m p) h =
      grow s _ _ _ _ _ _ _ (unfold moves in ground arith) (unfold moves in ground arith)
        (unfold moves in ground arith) (omega arith) h
  Step-IsTraced s _ (deep _ parent target via depth live d room) h =
      grow_halt s _ _ _ _ _ _ _ (unfold moves in ground arith) (unfold moves in ground arith)
        (unfold moves in ground arith) (omega arith) h
  Step-IsTraced s _ (entered _ parent target via depth raw live d room f) h =
      grow s _ _ _ _ _ _ _ (unfold moves in ground arith) (unfold moves in ground arith)
        (unfold moves in ground arith) (omega arith) h
  Step-IsTraced s _ (broken _ parent target via depth recs outcome live d room f) h =
      grow s _ _ _ _ _ _ _ (unfold moves in ground arith) (unfold moves in ground arith)
        (unfold moves in ground arith) (omega arith) h
  Step-IsTraced s _ (failed _ parent target via depth e live d room f) h =
      grow_halt s _ _ _ _ _ _ _ (unfold moves in ground arith) (unfold moves in ground arith)
        (unfold moves in ground arith) (omega arith) h
  Step-IsTraced s _ (skipped _ domain target via depth live d room) h =
      grow s _ _ _ _ _ _ _ (unfold moves in ground arith) (unfold moves in ground arith)
        (unfold moves in ground arith) (omega arith) h
  Step-IsTraced s _ (unasked _ domain target via depth qtype e live d room f) h =
      grow_halt s _ _ _ _ _ _ _ (unfold moves in ground arith) (unfold moves in ground arith)
        (unfold moves in ground arith) (omega arith) h
  Step-IsTraced s _ (voided _ domain target via depth qtype live d room f) h =
      grow s _ _ _ _ _ _ _ (unfold moves in ground arith) (unfold moves in ground arith)
        (unfold moves in ground arith) (omega arith) h
  Step-IsTraced s _ (positive _ domain target via depth qtype live d room f) h =
      grow s _ _ _ _ _ _ _ (unfold moves in ground arith) (unfold moves in ground arith)
        (unfold moves in ground arith) (omega arith) h
  Step-IsTraced s u (qualified _ depth t live) h =
      same s u (unfold moves in ground arith) (unfold moves in ground arith)
        (unfold moves in ground arith) h

  run-IsTraced : (domain : Str) → IsTraced (run r lim domain)
  unfolding moves start
  run-IsTraced domain =
      run_inv r lim IsTraced IsTraced domain Step-IsTraced (λ s h. h) (λ e h. ground arith)
        unusable-IsTraced (λ raw. ground arith)
    where
      unusable-IsTraced :
          (recs : List Str) (o : Outcome)
          → fetch r [] (normalize domain) ≡ Fetched.unusable recs o
          → IsTraced (
              evaluate_root r lim
                (normalize domain)
                (Fetched.unusable recs o)
                (asked_root r lim (normalize domain)))
      unusable-IsTraced recs Outcome.multiple _ = unfold evaluate_root in ground arith
      unusable-IsTraced recs _ _ = unfold evaluate_root in ground arith

  -- Of the nodes that an evaluation records: their sequence numbers count up from 0, their running
  -- term counts never fall and end at most at `Terms`, each depth is at most `MaxDepth`, which is
  -- at most one more than the depth limit, and there are at most as many as terms, and the root.
  pub evaluate_nodes :
      (domain : Str)
      → let out = evaluate r lim domain in
        IsNumbered 0 out.nodes
        × IsRising 0 out.nodes out.terms
        × All (λ n. n.depth ≤ out.max_depth) out.nodes
        × (out.max_depth ≤ lim.max_depth + 1)
        × (length out.nodes ≤ out.terms + 1)
  unfolding evaluate
  evaluate_nodes domain =
      let h = run-IsTraced domain in (h.numbered, h.rising, h.shallow, h.deepest, h.few)
