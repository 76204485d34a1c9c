-- ===== src/Spf/Walk/Cycles.antt =====
-- The cycles of a report, beside the nodes that call for them.
use mailkit.Prelude.{
  ℕ, ◌+◌, List, [], ◌∷◌, ◌++◌, append_assoc, append-nil, Bool, true, false, ◌≡◌, refl, sym, subst,
  arith, if◌then◌else◌,
}
use mailkit.Text.{Str, mem_str}
use mailkit.Dnsx.{Resolver, normalize}
use mailkit.Spf.Tree.{Limits, Outcome, Via, Node}
use mailkit.Spf.State.{State, Fetched, node, halt, count_term, note_include, note_cycle}
use mailkit.Spf.Walk.{fetch, start, evaluate_root, run}
use mailkit.Spf.Walk.Route.{IsRoute, IsRoute-mono, IsListed-concat}
use mailkit.Spf.Walk.Machine.{
  moves, next_node, Step, over, over_at, empty, cycle, deep, entered, broken, failed, skipped,
  unasked, voided, positive, qualified,
}
use mailkit.Spf.Walk.Unusable.{is_unusable, fetch_unusable}
use mailkit.Spf.Walk.Steps.{asked_root, run_inv}

abbrev pub is_cycle : Outcome → Bool
is_cycle Outcome.cycle = true
is_cycle _ = false

abbrev pub cycle_at : Node → List Node
cycle_at n = if is_cycle n.outcome then n ∷ [] else []

abbrev pub cycles_of : List Node → List Node
cycles_of [] = []
cycles_of (n ∷ ns) = cycle_at n ++ cycles_of ns

-- The entry of `Cycles` that a cycle node calls for: the path to its parent, on which its target
-- stands, with the target behind it.
abbrev pub IsCycleOf : List Node → Node → List Str → Type 0
IsCycleOf nodes n entry =
    (path : List Str) × (depth : ℕ) × IsRoute nodes path n.parent depth
    × (n.depth ≡ depth + 1)
    × (mem_str n.target path ≡ true)
    × (entry ≡ path ++ n.target ∷ [])

-- Two lists of the same length, related place by place.
abbrev pub ArePaired {ℓ} : {A B : Type ℓ} → (A → B → Type 0) → List A → List B → Type 0
ArePaired P [] [] = Unit
ArePaired P [] (y ∷ ys) = ⊥
ArePaired P (x ∷ xs) [] = ⊥
ArePaired P (x ∷ xs) (y ∷ ys) = P x y × ArePaired P xs ys

cycles_of-concat :
    (ns : List Node) (n : Node) → cycles_of (ns ++ n ∷ []) ≡ cycles_of ns ++ cycle_at n
cycles_of-concat [] n = rw append-nil
cycles_of-concat (m ∷ ns) n = simp (cycles_of-concat ns n, append_assoc)

module _ {ℓ} {A B : Type ℓ} (P Q : A → B → Type 0) (f : (x : A) (y : B) → P x y → Q x y) where
  ArePaired-map : (xs : List A) (ys : List B) → ArePaired P xs ys → ArePaired Q xs ys
  ArePaired-map [] [] h = tt
  ArePaired-map [] (y ∷ ys) h = absurd h
  ArePaired-map (x ∷ xs) [] h = absurd h
  ArePaired-map (x ∷ xs) (y ∷ ys) (p, h) = (f x y p, ArePaired-map xs ys h)

ArePaired-concat {ℓ} :
    {A B : Type ℓ} (P : A → B → Type 0) (xs : List A) (ys : List B) (x : A) (y : B)
    → ArePaired P xs ys
    → P x y
    → ArePaired P (xs ++ x ∷ []) (ys ++ y ∷ [])
ArePaired-concat P [] [] x y h p = (p, tt)
ArePaired-concat P [] (z ∷ ys) x y h p = absurd h
ArePaired-concat P (z ∷ xs) [] x y h p = absurd h
ArePaired-concat P (z ∷ xs) (w ∷ ys) x y (q, h) p = (q, ArePaired-concat P xs ys x y h p)

abbrev AreCyclesOf : List Node → List Node → List (List Str) → Type 0
AreCyclesOf all ns cs = ArePaired (IsCycleOf all) (cycles_of ns) cs

-- More nodes leave the entries for earlier ones as they are.
AreCyclesOf-concat :
    (nodes : List Node) (m : Node) (cs : List (List Str))
    → AreCyclesOf nodes nodes cs
    → AreCyclesOf (nodes ++ m ∷ []) nodes cs
AreCyclesOf-concat nodes m cs h =
    ArePaired-map (IsCycleOf nodes) (IsCycleOf (nodes ++ m ∷ []))
      (λ n c (path, depth, route, d, on, e). (
        path,
        depth,
        IsRoute-mono nodes (nodes ++ m ∷ []) (IsListed-concat nodes m) route,
        d,
        on,
        e,
      ))
      (cycles_of nodes) cs h

-- A node that is no cycle calls for no entry.
AreCyclesOf-plain :
    (nodes : List Node) (m : Node) (cs : List (List Str))
    → is_cycle m.outcome ≡ false
    → AreCyclesOf nodes nodes cs
    → AreCyclesOf (nodes ++ m ∷ []) (nodes ++ m ∷ []) cs
AreCyclesOf-plain nodes m cs e h =
    rw (cycles_of-concat nodes m, e, append-nil) (AreCyclesOf-concat nodes m cs h)

AreCyclesOf-cycle :
    (nodes : List Node) (m : Node) (cs : List (List Str)) (entry : List Str)
    → is_cycle m.outcome ≡ true
    → IsCycleOf (nodes ++ m ∷ []) m entry
    → AreCyclesOf nodes nodes cs
    → AreCyclesOf (nodes ++ m ∷ []) (nodes ++ m ∷ []) (cs ++ entry ∷ [])
AreCyclesOf-cycle nodes m cs entry e c h =
    rw (cycles_of-concat nodes m, e)
      (ArePaired-concat (IsCycleOf (nodes ++ m ∷ [])) (cycles_of nodes) cs m entry
        (AreCyclesOf-concat nodes m cs h) c)

abbrev IsCycled : State → Type 0
IsCycled s = AreCyclesOf s.out.nodes s.out.nodes s.out.cycles

same :
    (s t : State)
    → t.out.nodes ≡ s.out.nodes
    → t.out.cycles ≡ s.out.cycles
    → IsCycled s
    → IsCycled t
same s t nodes cycles h = rw (nodes, cycles) h

module _ (s t : State) (parent target : Str) (via : Via) (depth : ℕ) (raw : Str) (outcome : Outcome)
    (nodes : t.out.nodes ≡ s.out.nodes) (cycles : t.out.cycles ≡ s.out.cycles)
    (plain : is_cycle outcome ≡ false) (h : IsCycled s) where
  grow : IsCycled (node parent target via depth raw outcome t)
  unfolding node
  grow =
      AreCyclesOf-plain t.out.nodes (next_node t parent target via depth raw outcome) t.out.cycles
        plain (same s t nodes cycles h)

  grow_halt : IsCycled (halt (node parent target via depth raw outcome t))
  unfolding halt
  grow_halt = grow

unusable_plain : (o : Outcome) → is_unusable o ≡ true → is_cycle o ≡ false
unusable_plain Outcome.no_record h = refl
unusable_plain Outcome.nx_domain h = refl
unusable_plain Outcome.multiple h = refl
unusable_plain _ h = cc

module _ (s : State) (parent target : Str) (via : Via) (path : List Str) (depth : ℕ)
    (on : mem_str target path ≡ true) (route : IsRoute s.out.nodes path parent depth)
    (h : IsCycled s) where
  closed : IsCycled (
      node parent target via
        (depth + 1)
        []
        Outcome.cycle
        (note_cycle (path ++ target ∷ []) (note_include target (count_term s))))
  unfolding node
  closed =
      let t : State = note_cycle (path ++ target ∷ []) (note_include target (count_term s)) in
      let m : Node = next_node t parent target via (depth + 1) [] Outcome.cycle in
      let nodes : t.out.nodes ≡ s.out.nodes = unfold moves in ground arith in
      let cycles : t.out.cycles ≡ s.out.cycles ++ (path ++ target ∷ []) ∷ [] =
        unfold moves in ground arith in
      let route' : IsRoute t.out.nodes path parent depth = rw nodes route in
      let more =
        IsRoute-mono t.out.nodes (t.out.nodes ++ m ∷ []) (IsListed-concat t.out.nodes m) route' in
      let h' : AreCyclesOf t.out.nodes t.out.nodes s.out.cycles = rw nodes h in
      subst (λ cs. AreCyclesOf (t.out.nodes ++ m ∷ []) (t.out.nodes ++ m ∷ []) cs) (sym cycles)
        (AreCyclesOf-cycle t.out.nodes m s.out.cycles (path ++ target ∷ []) refl
          (path, depth, more, refl, on, refl) h')

module _ (r : Resolver) (lim : Limits) where
  Step-IsCycled : (s t : State) → Step r lim s t → IsCycled s → IsCycled t
  Step-IsCycled s u (over _ domain t live full) h =
      same s u (unfold moves in ground arith) (unfold moves in ground arith) h
  Step-IsCycled s _ (over_at _ domain target via depth t live d full) h =
      grow_halt s _ _ _ _ _ _ _ (unfold moves in ground arith) (unfold moves in ground arith) refl h
  Step-IsCycled s u (empty _ parent via live room) h =
      same s u (unfold moves in ground arith) (unfold moves in ground arith) h
  Step-IsCycled s _ (cycle _ parent target via path depth live d room on route) h =
      closed s parent target via path depth on route h
  Step-IsCycled s _ (deep _ parent target via depth live d room) h =
      grow_halt s _ _ _ _ _ _ _ (unfold moves in ground arith) (unfold moves in ground arith) refl h
  Step-IsCycled s _ (entered _ parent target via depth raw live d room f) h =
      grow s _ _ _ _ _ _ _ (unfold moves in ground arith) (unfold moves in ground arith) refl h
  Step-IsCycled s _ (broken _ parent target via depth recs outcome live d room f) h =
      grow s _ _ _ _ _ _ _ (unfold moves in ground arith) (unfold moves in ground arith)
        (unusable_plain outcome (fetch_unusable recs outcome r s.calls target f)) h
  Step-IsCycled s _ (failed _ parent target via depth e live d room f) h =
      grow_halt s _ _ _ _ _ _ _ (unfold moves in ground arith) (unfold moves in ground arith) refl h
  Step-IsCycled s _ (skipped _ domain target via depth live d room) h =
      grow s _ _ _ _ _ _ _ (unfold moves in ground arith) (unfold moves in ground arith) refl h
  Step-IsCycled s _ (unasked _ domain target via depth qtype e live d room f) h =
      grow_halt s _ _ _ _ _ _ _ (unfold moves in ground arith) (unfold moves in ground arith) refl h
  Step-IsCycled s _ (voided _ domain target via depth qtype live d room f) h =
      grow s _ _ _ _ _ _ _ (unfold moves in ground arith) (unfold moves in ground arith) refl h
  Step-IsCycled s _ (positive _ domain target via depth qtype live d room f) h =
      grow s _ _ _ _ _ _ _ (unfold moves in ground arith) (unfold moves in ground arith) refl h
  Step-IsCycled s u (qualified _ depth t live) h =
      same s u (unfold moves in ground arith) (unfold moves in ground arith) h

  pub run-AreCyclesOf :
      (domain : Str)
      → let out = (run r lim domain).out in
        ArePaired (IsCycleOf out.nodes) (cycles_of out.nodes) out.cycles
  unfolding moves start
  run-AreCyclesOf domain =
      run_inv r lim IsCycled IsCycled domain Step-IsCycled (λ s h. h) (λ e h. tt) unusable-IsCycled
        (λ raw. tt)
    where
      unusable-IsCycled :
          (recs : List Str) (o : Outcome)
          → fetch r [] (normalize domain) ≡ Fetched.unusable recs o
          → IsCycled (
              evaluate_root r lim
                (normalize domain)
                (Fetched.unusable recs o)
                (asked_root r lim (normalize domain)))
      unusable-IsCycled recs Outcome.multiple f = unfold evaluate_root in tt
      unusable-IsCycled recs Outcome.cycle f =
          absurd (cc (fetch_unusable recs Outcome.cycle r [] (normalize domain) f))
      unusable-IsCycled recs o f = unfold evaluate_root in tt
