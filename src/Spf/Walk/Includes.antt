-- ===== src/Spf/Walk/Includes.antt =====
-- The list `Includes` of a report, and its broken targets.
use mailkit.Prelude.{
  List, [], ◌∷◌, ◌++◌, true, ◌≡◌, refl, arith, All, All-concat, All-map, Bool-cases, inl, inr,
}
use mailkit.Text.{Str, mem_str}
use mailkit.Text.Equality.{eq_str_refl, mem_str-append, IsDistinct, IsDistinct-concat}
use mailkit.Dnsx.{Resolver, normalize}
use mailkit.Spf.Tree.{Limits, Outcome, Via}
use mailkit.Spf.State.{State, Fetched, note_include}
use mailkit.Spf.Walk.{start, evaluate_root, run, evaluate}
use mailkit.Spf.Walk.Machine.{
  moves, Step, over, over_at, empty, cycle, deep, entered, broken, failed, skipped, unasked, voided,
  positive, qualified,
}
use mailkit.Spf.Walk.Steps.{asked_root, run_inv}

record IsListed (s : State) : Type 0 where
  distinct : IsDistinct s.out.includes
  agree : (a : Str) → mem_str a s.seen ≡ mem_str a s.out.includes
  listed : All (λ b. mem_str b.target s.out.includes ≡ true) s.out.broken

-- A step that leaves the three lists alone.
same :
    (s t : State)
    → t.out.includes ≡ s.out.includes
    → t.seen ≡ s.seen
    → t.out.broken ≡ s.out.broken
    → IsListed s
    → IsListed t
same s t i e b h = record {
  distinct = rw i h.distinct;
  agree = λ a. rw (i, e) (h.agree a);
  listed = rw (i, b) h.listed;
}

note_include-IsListed : (target : Str) (s : State) → IsListed s → IsListed (note_include target s)
note_include-IsListed target s h = elim (Bool-cases (mem_str target s.seen)) [
  | inl old ↦
      same s _ (unfold note_include in rw old) (unfold note_include in rw old)
        (unfold note_include in rw old) h
  | inr new ↦
      unfold note_include in
      rw new (record {
        distinct = IsDistinct-concat s.out.includes target h.distinct (rw (← h.agree target) new);
        agree = λ a.
            unfold mem_str in
            ground (arith, h.agree a, mem_str-append a s.out.includes (target ∷ []));
        listed =
            All-map _ _
              (λ b m. ground (arith, m, mem_str-append b.target s.out.includes (target ∷ [])))
              s.out.broken h.listed;
      })
]

mem_str-note_include :
    (target : Str) (s : State)
    → IsListed s
    → mem_str target (note_include target s).out.includes ≡ true
mem_str-note_include target s h =
    unfold note_include mem_str in
    ground (
      arith,
      h.agree target,
      mem_str-append target s.out.includes (target ∷ []),
      eq_str_refl target,
    )

broken-note_include : (target : Str) (s : State) → (note_include target s).out.broken ≡ s.out.broken
unfolding note_include
broken-note_include target s = ground arith

-- The step that records a broken target.
extend :
    (s t : State) (parent target : Str) (via : Via) (reason : Outcome)
    → t.out.includes ≡ (note_include target s).out.includes
    → t.seen ≡ (note_include target s).seen
    → t.out.broken
      ≡ s.out.broken ++ record { parent = parent; target = target; via = via; reason = reason } ∷ []
    → IsListed s
    → IsListed t
extend s t parent target via reason i e b h =
    let noted = note_include-IsListed target s h in
    let found = rw (broken-note_include target s) at noted.listed in
    record {
      distinct = rw i noted.distinct;
      agree = λ a. rw (i, e) (noted.agree a);
      listed = rw (i, b) (All-concat _ s.out.broken found (mem_str-note_include target s h));
    }

module _ (r : Resolver) (lim : Limits) where
  Step-IsListed : (s t : State) → Step r lim s t → IsListed s → IsListed t
  Step-IsListed s u (over _ domain t live full) h =
      same s u (unfold moves in ground arith) (unfold moves in ground arith)
        (unfold moves in ground arith) h
  Step-IsListed s u (over_at _ domain target via depth t live d full) h =
      same s u (unfold moves in ground arith) (unfold moves in ground arith)
        (unfold moves in ground arith) h
  Step-IsListed s u (empty _ parent via live room) h =
      same s u (unfold moves in ground arith) (unfold moves in ground arith)
        (unfold moves in ground arith) h
  Step-IsListed s u (cycle _ parent target via path depth live d room m p) h =
      same (note_include target s) u (unfold moves in ground arith) (unfold moves in ground arith)
        (unfold moves in ground arith) (note_include-IsListed target s h)
  Step-IsListed s u (deep _ parent target via depth live d room) h =
      same (note_include target s) u (unfold moves in ground arith) (unfold moves in ground arith)
        (unfold moves in ground arith) (note_include-IsListed target s h)
  Step-IsListed s u (entered _ parent target via depth raw live d room f) h =
      same (note_include target s) u (unfold moves in ground arith) (unfold moves in ground arith)
        (unfold moves in ground arith) (note_include-IsListed target s h)
  Step-IsListed s u (broken _ parent target via depth recs outcome live d room f) h =
      extend s u parent target via outcome (unfold moves in ground arith)
        (unfold moves in ground arith) (unfold moves in ground arith) h
  Step-IsListed s u (failed _ parent target via depth e live d room f) h =
      same (note_include target s) u (unfold moves in ground arith) (unfold moves in ground arith)
        (unfold moves in ground arith) (note_include-IsListed target s h)
  Step-IsListed s u (skipped _ domain target via depth live d room) h =
      same s u (unfold moves in ground arith) (unfold moves in ground arith)
        (unfold moves in ground arith) h
  Step-IsListed s u (unasked _ domain target via depth qtype e live d room f) h =
      same s u (unfold moves in ground arith) (unfold moves in ground arith)
        (unfold moves in ground arith) h
  Step-IsListed s u (voided _ domain target via depth qtype live d room f) h =
      same s u (unfold moves in ground arith) (unfold moves in ground arith)
        (unfold moves in ground arith) h
  Step-IsListed s u (positive _ domain target via depth qtype live d room f) h =
      same s u (unfold moves in ground arith) (unfold moves in ground arith)
        (unfold moves in ground arith) h
  Step-IsListed s u (qualified _ depth t live) h =
      same s u (unfold moves in ground arith) (unfold moves in ground arith)
        (unfold moves in ground arith) h

  run-IsListed : (domain : Str) → IsListed (run r lim domain)
  unfolding moves start
  run-IsListed domain =
      run_inv r lim IsListed IsListed domain Step-IsListed (λ s h. h)
        (λ e h. same (asked_root r lim (normalize domain)) _ refl refl refl asked_root-IsListed)
        (λ recs o h. unusable-IsListed recs o)
        (λ raw. same (asked_root r lim (normalize domain)) _ refl refl refl asked_root-IsListed)
    where
      asked_root-IsListed : IsListed (asked_root r lim (normalize domain))
      asked_root-IsListed = record { distinct = tt; agree = λ a. refl; listed = tt }

      unusable-IsListed :
          (recs : List Str) (o : Outcome)
          → IsListed (
              evaluate_root r lim
                (normalize domain)
                (Fetched.unusable recs o)
                (asked_root r lim (normalize domain)))
      unusable-IsListed recs Outcome.multiple =
          unfold evaluate_root in
          same (asked_root r lim (normalize domain)) _ refl refl refl asked_root-IsListed
      unusable-IsListed recs _ =
          unfold evaluate_root in
          same (asked_root r lim (normalize domain)) _ refl refl refl asked_root-IsListed

  -- The includes of a report are distinct, and every broken target is one of them.
  pub evaluate_includes :
      (domain : Str)
      → let out = evaluate r lim domain in
        IsDistinct out.includes × All (λ b. mem_str b.target out.includes ≡ true) out.broken
  unfolding evaluate
  evaluate_includes domain = let h = run-IsListed domain in (h.distinct, h.listed)
