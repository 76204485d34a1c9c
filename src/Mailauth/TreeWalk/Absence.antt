-- ===== src/Mailauth/TreeWalk/Absence.antt =====
-- When a walk reports that no DMARC record applies, and how many questions it asks.
use mailkit.Prelude.{
  ℕ, suc, ◌+◌, ◌≤◌, List, [], ◌∷◌, ◌++◌, Bool, true, false, ◌≡◌, arith, inl, inr, length,
}
use mailkit.Text.{Str, codes}
use mailkit.Dnsx.{Result, Result-cases}
use mailkit.Mailauth.Dmarc.{Dmarc}
use mailkit.Mailauth.TreeWalk.{
  TxtLookup, Found, is_no_record, dmarc_answer, lookup_dmarc_at, walk_names, walk, tree_walk_names,
  lookup_dmarc,
}
use mailkit.Mailauth.TreeWalk.Names.{length-tree_walk_names}

-- The resolver that keeps a log of the names it is asked, and may answer by it.
abbrev pub logged : (List Str → Str → Result (List Str)) → TxtLookup (List Str)
logged answer name log = (answer log name, name ∷ log)

module _ (answer : List Str → Str → Result (List Str)) where
  lookup_dmarc_at-asked :
      (domain : Str) (log : List Str)
      → length (lookup_dmarc_at (logged answer) domain log).1 ≡ length log + 1
  unfolding lookup_dmarc_at
  lookup_dmarc_at-asked domain log = omega arith

  walk_names-asked :
      (i : ℕ) (names : List Str) (out : List Found) (log : List Str)
      → length (walk_names (logged answer) i names out log).1 ≤ length log + length names
  unfolding walk_names
  walk_names-asked i [] out log = omega arith
  walk_names-asked i (name ∷ names) out log =
      let log' : List Str = (lookup_dmarc_at (logged answer) name log).1 in
      let asked = lookup_dmarc_at-asked name log in
      elim (Result-cases (lookup_dmarc_at (logged answer) name log).0) [
        | inl (rec, e) ↦
            let out' : List Found = out ++ record { step = i; name = name; rec = rec } ∷ [] in
            ground (arith, asked, walk_names-asked (suc i) names out' log')
        | inr (er, e) ↦ ground (arith, asked, walk_names-asked (suc i) names out log')
      ]

  -- A lookup of the policy for a domain asks at most eight questions.
  pub lookup_dmarc_asked : (domain : Str) → length (lookup_dmarc (logged answer) domain []).1 ≤ 8
  unfolding lookup_dmarc walk
  lookup_dmarc_asked domain =
      let log : List Str = (lookup_dmarc_at (logged answer) domain []).1 in
      let first = lookup_dmarc_at-asked domain [] in
      let few = length-tree_walk_names domain in
      ground (arith, first, few, walk_names-asked 0 (tree_walk_names domain) [] log)

abbrev pub is_absent : Result Dmarc → Bool
is_absent (Result.ok rec) = false
is_absent (Result.err e) = is_no_record e

module _ (answer : Str → Result (List Str)) where
  -- A name was asked about, and publishes no DMARC record.
  abbrev pub IsAbsent : Str → Type 0
  IsAbsent name = is_absent (dmarc_answer name (answer (codes "_dmarc." ++ name))) ≡ true
