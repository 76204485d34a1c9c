-- ===== src/Spf/Walk/Growth.antt =====
-- The steps of the walk keep the nodes, and with them each path that the nodes show.
use mailkit.Prelude.{ℕ, ◌+◌, List, [], ◌∷◌, ◌++◌, true, ◌≡◌, refl, arith}
use mailkit.Text.{Str}
use mailkit.Dnsx.{Resolver, Question}
use mailkit.Spf.Tree.{Limits, Outcome, Via, Node}
use mailkit.Spf.State.{State, node, log, halt, count_term, note_include}
use mailkit.Spf.Walk.Route.{
  IsListed, IsRoute, is_jump, below, IsRoute-mono, IsListed-concat, IsListed-last,
}
use mailkit.Spf.Walk.Machine.{
  moves, next_node, Step, Steps, over, over_at, empty, cycle, deep, entered, broken, failed,
  skipped, unasked, voided, positive, qualified, Steps-inv,
}

stays :
    (n : Node) (s t : State)
    → t.out.nodes ≡ s.out.nodes
    → IsListed s.out.nodes n
    → IsListed t.out.nodes n
stays n s t same h = rw same h

module _ (n : Node) (s t : State) (parent target : Str) (via : Via) (depth : ℕ) (raw : Str)
    (outcome : Outcome) (same : t.out.nodes ≡ s.out.nodes) (h : IsListed s.out.nodes n) where
  grows : IsListed (node parent target via depth raw outcome t).out.nodes n
  unfolding node
  grows =
      IsListed-concat t.out.nodes (next_node t parent target via depth raw outcome) n
        (stays n s t same h)

  grows_halt : IsListed (halt (node parent target via depth raw outcome t)).out.nodes n
  unfolding halt
  grows_halt = grows

module _ (r : Resolver) (lim : Limits) where
  Step-IsListed :
      (n : Node) (s t : State) → Step r lim s t → IsListed s.out.nodes n → IsListed t.out.nodes n
  Step-IsListed n s u (over _ domain t live full) h = stays n s u (unfold moves in ground arith) h
  Step-IsListed n s _ (over_at _ domain target via depth t live d full) h =
      grows_halt n s _ _ _ _ _ _ _ (unfold moves in ground arith) h
  Step-IsListed n s u (empty _ parent via live room) h =
      stays n s u (unfold moves in ground arith) h
  Step-IsListed n s _ (cycle _ parent target via path depth live d room m p) h =
      grows n s _ _ _ _ _ _ _ (unfold moves in ground arith) h
  Step-IsListed n s _ (deep _ parent target via depth live d room) h =
      grows_halt n s _ _ _ _ _ _ _ (unfold moves in ground arith) h
  Step-IsListed n s _ (entered _ parent target via depth raw live d room f) h =
      grows n s _ _ _ _ _ _ _ (unfold moves in ground arith) h
  Step-IsListed n s _ (broken _ parent target via depth recs outcome live d room f) h =
      grows n s _ _ _ _ _ _ _ (unfold moves in ground arith) h
  Step-IsListed n s _ (failed _ parent target via depth e live d room f) h =
      grows_halt n s _ _ _ _ _ _ _ (unfold moves in ground arith) h
  Step-IsListed n s _ (skipped _ domain target via depth live d room) h =
      grows n s _ _ _ _ _ _ _ (unfold moves in ground arith) h
  Step-IsListed n s _ (unasked _ domain target via depth qtype e live d room f) h =
      grows_halt n s _ _ _ _ _ _ _ (unfold moves in ground arith) h
  Step-IsListed n s _ (voided _ domain target via depth qtype live d room f) h =
      grows n s _ _ _ _ _ _ _ (unfold moves in ground arith) h
  Step-IsListed n s _ (positive _ domain target via depth qtype live d room f) h =
      grows n s _ _ _ _ _ _ _ (unfold moves in ground arith) h
  Step-IsListed n s u (qualified _ depth t live) h = stays n s u (unfold moves in ground arith) h

  pub Step-IsRoute :
      (path : List Str) (name : Str) (depth : ℕ) (s t : State)
      → Step r lim s t
      → IsRoute s.out.nodes path name depth
      → IsRoute t.out.nodes path name depth
  Step-IsRoute path name depth s t st h =
      IsRoute-mono s.out.nodes t.out.nodes (λ n l. Step-IsListed n s t st l) h

  pub Steps-IsRoute :
      (path : List Str) (name : Str) (depth : ℕ) (s t : State)
      → Steps r lim s t
      → IsRoute s.out.nodes path name depth
      → IsRoute t.out.nodes path name depth
  Steps-IsRoute path name depth s t st h =
      Steps-inv r lim (λ u. IsRoute u.out.nodes path name depth) (Step-IsRoute path name depth) st h

-- A target whose record is read continues the path.
pub entered-IsRoute :
    (s : State) (q : Question) (parent target : Str) (via : Via) (path : List Str) (depth : ℕ)
    (raw : Str)
    → is_jump via ≡ true
    → IsRoute s.out.nodes path parent depth
    → IsRoute
        (node parent target via
          (depth + 1)
          raw
          Outcome.ok
          (log q (note_include target (count_term s)))).out.nodes
        (path ++ target ∷ [])
        target
        (depth + 1)
unfolding node
entered-IsRoute s q parent target via path depth raw j h =
    let t : State = log q (note_include target (count_term s)) in
    let same : t.out.nodes ≡ s.out.nodes = unfold moves in ground arith in
    let m : Node = next_node t parent target via (depth + 1) raw Outcome.ok in
    below
      (IsRoute-mono s.out.nodes (t.out.nodes ++ m ∷ []) (λ n l. grows n s t _ _ _ _ _ _ same l) h) m
      (IsListed-last t.out.nodes m) refl refl refl j
