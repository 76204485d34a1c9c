-- ===== src/Mailauth/Align/Static.antt =====
-- The two memories of an Aligner beside walks that remember nothing, for resolvers that answer by
-- name alone.
use mailkit.Prelude.{
  List, map, [], ◌∷◌, Bool, true, false, ◌||◌, some, ◌≡◌, refl, sym, ◌∙◌, subst, arith, inl, inr,
  All, Option-cases, Bool-cases, if◌then◌else◌, is_empty,
}
use mailkit.Text.{Str, codes, eq_str}
use mailkit.Text.Equality.{eq_str_sound, eq_str_comm}
use mailkit.Dnsx.{Result, Result-cases}
use mailkit.Mailauth.TreeWalk.{TxtLookup, lookup_dmarc_at}
use mailkit.Mailauth.TreeWalk.Static.{pure, lookup_dmarc_at-static, walk-static, at}
use mailkit.Mailauth.Align.{
  OrgAnswer, fold_name, org_walk_from, org_walk, find, Memo, is_remembered, Aligner, memo_lookup,
  new_aligner, walked, relaxed, aligned,
}

-- The organization of a name, by a walk of its own.
unfoldable pub org_by : (Str → Result (List Str)) → Str → Result OrgAnswer
org_by answer domain = (org_walk (pure answer) domain tt).0

-- Alignment by two walks that remember nothing.
unfoldable pub aligns : (Str → Result (List Str)) → Str → Str → Str → Result Bool
aligns answer from auth mode =
    let f = fold_name from in
    let d = fold_name auth in
    if is_empty f || is_empty d
    then Result.ok false
    else if eq_str f d
    then Result.ok true
    else if eq_str mode (codes "s")
    then Result.ok false
    else elim (org_by answer (fold_name f)) [
      | Result.err e ↦ Result.err e
      | Result.ok a ↦ elim (org_by answer (fold_name d)) [
        | Result.err e ↦ Result.err e
        | Result.ok b ↦ Result.ok (eq_str a.org b.org)
      ]
    ]

module _ {S : Type 0} (lookup : TxtLookup S) where
  -- One question after another to one Aligner: the From domain, the authenticated one, and the
  -- mode.
  unfoldable pub ask_all : List (Str × Str × Str) → Aligner S → List (Result Bool)
  ask_all [] al = []
  ask_all ((from, auth, mode) ∷ qs) al =
      let (a, al') = aligned lookup from auth mode al in a ∷ ask_all qs al'

module _ {ℓ} {S : Type 0} (lookup : TxtLookup S) (answer : Str → Result (List Str))
    (Inv : S → Type ℓ)
    (answers : (name : Str) (s : S)
      → Inv s
      → ((lookup name s).0 ≡ answer name) × Inv (lookup name s).1) where
  org_walk_from-static :
      (domain : Str) (s : S)
      → Inv s
      → ((org_walk_from lookup domain s).0 ≡ (org_walk_from (pure answer) domain tt).0)
        × Inv (org_walk_from lookup domain s).1
  unfolding org_walk_from
  org_walk_from-static domain s inv =
      let here = lookup_dmarc_at-static lookup answer Inv answers domain s inv in
      let other =
        lookup_dmarc_at-static (pure answer) answer (λ t. Unit {0}) (λ n t u. (refl, tt)) domain tt
          tt in
      let rest =
        walk-static lookup answer Inv answers domain (lookup_dmarc_at lookup domain s).1 here.1 in
      elim (Result-cases (at lookup answer Inv answers domain)) [
        | inl (rec, e) ↦
            rw (here.0 ∙ e, other.0 ∙ e, org_walk_from) (ground (arith, here.1, rest.0, rest.1))
        | inr (er, e) ↦
            rw (here.0 ∙ e, other.0 ∙ e, org_walk_from) (ground (arith, here.1, rest.0, rest.1))
      ]

  pub org_walk-static :
      (domain : Str) (s : S)
      → Inv s
      → ((org_walk lookup domain s).0 ≡ org_by answer domain) × Inv (org_walk lookup domain s).1
  unfolding org_walk org_by
  org_walk-static domain s inv = org_walk_from-static (fold_name domain) s inv

-- An entry that a search finds has what all entries have.
find-All :
    {V : Type 0} (P : Str → V → Type 0) (k : Str) (m : List (Str × V)) (v : V)
    → All (λ e. P e.0 e.1) m
    → find k m ≡ some v
    → P k v
unfolding find
find-All P k [] v h e = cc
find-All P k ((j, w) ∷ m) v (p, h) e = elim (Bool-cases (eq_str j k)) [
  | inl same ↦ rw (← eq_str_sound j k same) (subst (P j) (ground arith) p)
  | inr other ↦ find-All P k m v h (ground arith)
]

module _ {S : Type 0} (lookup : TxtLookup S) (answer : Str → Result (List Str))
    (static : (name : Str) (s : S) → (lookup name s).0 ≡ answer name) where
  -- Every remembered answer is the resolver's.
  abbrev IsTrue : Memo S → Type 0
  IsTrue m = All (λ e. e.1 ≡ answer e.0) m.txt

  memo_lookup-static :
      (name : Str) (m : Memo S)
      → IsTrue m
      → ((memo_lookup lookup name m).0 ≡ answer name) × IsTrue (memo_lookup lookup name m).1
  unfolding memo_lookup
  memo_lookup-static name m h = elim (Option-cases (find name m.txt)) [
    | inl e ↦
        let fresh = static name m.inner in
        elim (Bool-cases (is_remembered (lookup name m.inner).0)) [
          | inl k ↦ rw (e, k, memo_lookup) (fresh, (fresh, h))
          | inr k ↦ rw (e, k, memo_lookup) (fresh, h)
        ]
    | inr (a, e) ↦ rw (e, memo_lookup) (find-All (λ k v. v ≡ answer k) name m.txt a h e, h)
  ]

  -- Every remembered organization is the one that a walk of its own finds.
  record IsFaithful (al : Aligner S) : Type 0 where
    memo : IsTrue al.memo
    orgs : All (λ e. org_by answer e.0 ≡ Result.ok e.1) al.orgs

  walked-static :
      (domain : Str) (al : Aligner S)
      → IsFaithful al
      → ((walked lookup domain al).0 ≡ org_by answer (fold_name domain))
        × IsFaithful (walked lookup domain al).1
  unfolding walked
  walked-static domain al h =
      let d : Str = fold_name domain in
      let run =
        org_walk-static (memo_lookup lookup) answer IsTrue memo_lookup-static d al.memo h.memo in
      elim (Option-cases (find d al.orgs)) [
        | inr (o, e) ↦
            rw (e, walked)
              (sym (find-All (λ k v. org_by answer k ≡ Result.ok v) d al.orgs o h.orgs e), h)
        | inl e ↦ elim (Result-cases (org_by answer d)) [
          | inl (o, q) ↦
              rw (e, run.0 ∙ q, walked) (sym q, record { memo = run.1; orgs = (q, h.orgs) })
          | inr (er, q) ↦ rw (e, run.0 ∙ q, walked) (sym q, record { memo = run.1; orgs = h.orgs })
        ]
      ]

  relaxed-static :
      (f d : Str) (al : Aligner S)
      → IsFaithful al
      → let (a, al') = relaxed lookup f d al in
        (a ≡ elim (org_by answer (fold_name f)) [
          | Result.err e ↦ Result.err e
          | Result.ok x ↦ elim (org_by answer (fold_name d)) [
            | Result.err e ↦ Result.err e
            | Result.ok y ↦ Result.ok (eq_str x.org y.org)
          ]
        ])
        × IsFaithful al'
  unfolding relaxed
  relaxed-static f d al h =
      let one = walked-static f al h in
      let two = walked-static d (walked lookup f al).1 one.1 in
      elim (Result-cases (org_by answer (fold_name f))) [
        | inr (er, p) ↦ rw (one.0 ∙ p, p, relaxed) (refl, one.1)
        | inl (x, p) ↦ elim (Result-cases (org_by answer (fold_name d))) [
          | inl (y, q) ↦ rw (one.0 ∙ p, p, two.0 ∙ q, q, relaxed) (refl, two.1)
          | inr (er, q) ↦ rw (one.0 ∙ p, p, two.0 ∙ q, q, relaxed) (refl, two.1)
        ]
      ]

  aligned-static :
      (from auth mode : Str) (al : Aligner S)
      → IsFaithful al
      → ((aligned lookup from auth mode al).0 ≡ aligns answer from auth mode)
        × IsFaithful (aligned lookup from auth mode al).1
  unfolding aligned aligns
  aligned-static from auth mode al h =
      let r = relaxed-static (fold_name from) (fold_name auth) al h in ground (arith, r.0, r.1, h)

  ask_all-static :
      (qs : List (Str × Str × Str)) (al : Aligner S)
      → IsFaithful al
      → ask_all lookup qs al ≡ map (λ q. aligns answer q.0 q.1 q.2) qs
  unfolding ask_all
  ask_all-static [] al h = refl
  ask_all-static ((from, auth, mode) ∷ qs) al h =
      let here = aligned-static from auth mode al h in
      cc (here.0, ask_all-static qs (aligned lookup from auth mode al).1 here.1)

  new-IsFaithful : (s : S) → IsFaithful (new_aligner lookup s)
  unfolding new_aligner
  new-IsFaithful s = record { memo = tt; orgs = tt }

  -- Any questions put to one Aligner, in any order, get the answers that walks without a memory
  -- give.
  pub aligned_memo :
      (qs : List (Str × Str × Str)) (s : S)
      → ask_all lookup qs (new_aligner lookup s) ≡ map (λ q. aligns answer q.0 q.1 q.2) qs
  aligned_memo qs s = ask_all-static qs (new_aligner lookup s) (new-IsFaithful s)

aligns_symm :
    (answer : Str → Result (List Str)) (from auth mode : Str) (b : Bool)
    → aligns answer from auth mode ≡ Result.ok b
    → aligns answer auth from mode ≡ Result.ok b
unfolding aligns
aligns_symm answer from auth mode b h =
    let f : Str = fold_name from in
    let d : Str = fold_name auth in
    elim (Result-cases (org_by answer (fold_name f))) [
      | inr (er, p) ↦ ground (arith, eq_str_comm f d)
      | inl (x, p) ↦ elim (Result-cases (org_by answer (fold_name d))) [
        | inl (y, q) ↦ ground (arith, eq_str_comm f d, eq_str_comm x.org y.org)
        | inr (er, q) ↦ ground (arith, eq_str_comm f d)
      ]
    ]

-- A verdict on two names by a new Aligner is its verdict on them the other way round.
pub aligned_symm :
    {S : Type 0} (lookup : TxtLookup S) (answer : Str → Result (List Str))
    (static : (name : Str) (s : S) → (lookup name s).0 ≡ answer name) (from auth mode : Str) (s : S)
    (b : Bool)
    → (aligned lookup from auth mode (new_aligner lookup s)).0 ≡ Result.ok b
    → (aligned lookup auth from mode (new_aligner lookup s)).0 ≡ Result.ok b
aligned_symm lookup answer static from auth mode s b h =
    let there =
      (aligned-static lookup answer static from auth mode (new_aligner lookup s)
        (new-IsFaithful lookup answer static s)).0 in
    let back =
      (aligned-static lookup answer static auth from mode (new_aligner lookup s)
        (new-IsFaithful lookup answer static s)).0 in
    back ∙ aligns_symm answer from auth mode b (sym there ∙ h)
