-- ===== src/Spf/Walk/Unusable.antt =====
-- The outcomes of an answer that holds no usable record.
use mailkit.Prelude.{List, [], ◌∷◌, Bool, true, false, Option-cases, inl, inr, ◌≡◌, arith}
use mailkit.Text.{Str}
use mailkit.Dnsx.{Resolver, Result, Answer, Question, type_txt}
use mailkit.Spf.Tree.{Outcome}
use mailkit.Spf.State.{Fetched, classify, fetched_txt, fetched_answer}
use mailkit.Spf.Walk.{fetch}

abbrev pub is_unusable : Outcome → Bool
is_unusable Outcome.no_record = true
is_unusable Outcome.nx_domain = true
is_unusable Outcome.multiple = true
is_unusable _ = false

-- Any answer without a usable record has one of the three outcomes.
module _ (recs : List Str) (o : Outcome) where
  classify_unusable : (l : List Str) → classify l ≡ Fetched.unusable recs o → is_unusable o ≡ true
  unfolding classify
  classify_unusable [] h = ground arith
  classify_unusable (t ∷ []) h = cc
  classify_unusable (t ∷ u ∷ l) h = ground arith

  fetched_txt_unusable :
      (a : Result (List Str)) → fetched_txt a ≡ Fetched.unusable recs o → is_unusable o ≡ true
  unfolding fetched_txt
  fetched_txt_unusable (Result.ok txt) h = classify_unusable _ h
  fetched_txt_unusable (Result.err e) h = ground arith

  fetched_answer_unusable :
      (a : Result Answer) → fetched_answer a ≡ Fetched.unusable recs o → is_unusable o ≡ true
  unfolding fetched_answer
  fetched_answer_unusable (Result.ok a) h = ground (arith, fetched_txt_unusable (Result.ok a.txt))
  fetched_answer_unusable (Result.err e) h = fetched_txt_unusable (Result.err e) h

  pub fetch_unusable :
      (r : Resolver) (calls : List Question) (name : Str)
      → fetch r calls name ≡ Fetched.unusable recs o
      → is_unusable o ≡ true
  unfolding fetch
  fetch_unusable r calls name h = elim (Option-cases r.query) [
    | inl e ↦ fetched_txt_unusable (r.lookup_txt calls name) (rw (e, fetch) at h)
    | inr (q, e) ↦ fetched_answer_unusable (q calls name type_txt) (rw (e, fetch) at h)
  ]
