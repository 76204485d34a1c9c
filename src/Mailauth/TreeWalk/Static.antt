-- ===== src/Mailauth/TreeWalk/Static.antt =====
-- Walks through a resolver whose answers are a function of the name, whatever its state.
use mailkit.Prelude.{
  ℕ, suc, List, [], ◌∷◌, ◌++◌, ◌≡◌, refl, ◌∙◌, ap, arith, inl, inr, if◌then◌else◌,
}
use mailkit.Text.{Str, codes}
use mailkit.Dnsx.{Error, Result, Result-cases}
use mailkit.Mailauth.Dmarc.{Dmarc}
use mailkit.Mailauth.TreeWalk.{
  TxtLookup, Found, states_psd, is_no_record, dmarc_answer, lookup_dmarc_at, walk_names, walk,
  tree_walk_names,
}

-- The resolver that has no state.
abbrev pub pure : (Str → Result (List Str)) → TxtLookup (Unit {0})
pure answer name s = (answer name, tt)

module _ {S : Type 0} (lookup : TxtLookup S) where
  pub walk_names-ok :
      (i : ℕ) (name : Str) (names : List Str) (out : List Found) (s : S) (rec : Dmarc)
      → (lookup_dmarc_at lookup name s).0 ≡ Result.ok rec
      → let out' = out ++ record { step = i; name = name; rec = rec } ∷ [] in
        let s' = (lookup_dmarc_at lookup name s).1 in
        walk_names lookup i (name ∷ names) out s
        ≡ (if states_psd rec then (Result.ok out', s') else walk_names lookup (suc i) names out' s')
  unfolding walk_names
  walk_names-ok i name names out s rec h = rw (h, walk_names)

  pub walk_names-err :
      (i : ℕ) (name : Str) (names : List Str) (out : List Found) (s : S) (e : Error)
      → (lookup_dmarc_at lookup name s).0 ≡ Result.err e
      → let s' = (lookup_dmarc_at lookup name s).1 in
        walk_names lookup i (name ∷ names) out s
        ≡ (if is_no_record e then walk_names lookup (suc i) names out s' else (Result.err e, s'))
  unfolding walk_names
  walk_names-err i name names out s e h = rw (h, walk_names)

module _ {ℓ} {S : Type 0} (lookup : TxtLookup S) (answer : Str → Result (List Str))
    (Inv : S → Type ℓ)
    (answers : (name : Str) (s : S)
      → Inv s
      → ((lookup name s).0 ≡ answer name) × Inv (lookup name s).1) where
  abbrev pub at : Str → Result Dmarc
  at name = dmarc_answer name (answer (codes "_dmarc." ++ name))

  pub lookup_dmarc_at-static :
      (name : Str) (s : S)
      → Inv s
      → ((lookup_dmarc_at lookup name s).0 ≡ at name) × Inv (lookup_dmarc_at lookup name s).1
  unfolding lookup_dmarc_at
  lookup_dmarc_at-static name s inv =
      let h = answers (codes "_dmarc." ++ name) s inv in (ap (dmarc_answer name) h.0, h.1)

  pure-at : (name : Str) → (lookup_dmarc_at (pure answer) name tt).0 ≡ at name
  unfolding lookup_dmarc_at
  pure-at name = refl

  pub walk_names-static :
      (i : ℕ) (names : List Str) (out : List Found) (s : S)
      → Inv s
      → ((walk_names lookup i names out s).0 ≡ (walk_names (pure answer) i names out tt).0)
        × Inv (walk_names lookup i names out s).1
  walk_names-static i [] out s inv = unfold walk_names in (refl, inv)
  walk_names-static i (name ∷ names) out s inv =
      let here = lookup_dmarc_at-static name s inv in
      let s' : S = (lookup_dmarc_at lookup name s).1 in
      elim (Result-cases (at name)) [
        | inl (rec, e) ↦
            let out' : List Found = out ++ record { step = i; name = name; rec = rec } ∷ [] in
            rw
              (
                walk_names-ok lookup i name names out s rec (here.0 ∙ e),
                walk_names-ok (pure answer) i name names out tt rec (pure-at name ∙ e),
              )
              (ground (arith, here.1, walk_names-static (suc i) names out' s' here.1))
        | inr (er, e) ↦
            rw
              (
                walk_names-err lookup i name names out s er (here.0 ∙ e),
                walk_names-err (pure answer) i name names out tt er (pure-at name ∙ e),
              )
              (ground (arith, here.1, walk_names-static (suc i) names out s' here.1))
      ]

  pub walk-static :
      (domain : Str) (s : S)
      → Inv s
      → ((walk lookup domain s).0 ≡ (walk (pure answer) domain tt).0) × Inv (walk lookup domain s).1
  unfolding walk
  walk-static domain s inv = walk_names-static 0 (tree_walk_names domain) [] s inv
