-- ===== src/Mailauth/Align.antt =====
-- mailauth/align.go: organizational domains for alignment, and the Aligner with its two memories.
pub mod Static
use mailkit.Prelude.{
  ℕ, suc, ◌+◌, List, [], ◌∷◌, ◌++◌, Bool, true, false, not, ◌&&◌, ◌||◌, Option, none, some, map,
  if◌then◌else◌, is_empty,
}
use mailkit.Text.{Str, codes, eq_str, to_lower, trim_end}
use mailkit.Dnsx.{Error, Result, not_found}
use mailkit.Mailauth.Dmarc.{Dmarc}
use mailkit.Mailauth.TreeWalk.{
  TxtLookup, Found, states_psd, is_no_record, tree_walk_names, organizational_domain,
  lookup_dmarc_at, walk,
}

pub record OrgAnswer : Type 0 where
  pub org : Str
  pub published : Bool

unfoldable pub fold_name : Str → Str
fold_name domain = to_lower (trim_end b'.' domain)

-- The walk numbered from the parent; the name itself is 0 here.
unfoldable pub one_up : Found → Found
one_up f = record f { step = suc f.step }

unfoldable pub org_answer : Str → List Found → List Found → OrgAnswer
org_answer domain own higher =
    let org =
      (organizational_domain (domain ∷ tree_walk_names domain) (own ++ map one_up higher)).0 in
    if is_empty org
    then record { org = domain; published = false }
    else record { org = org; published = true }

unfoldable pub org_of_walk : Str → List Found → Result (List Found) → Result OrgAnswer
org_of_walk domain own (Result.err e) = Result.err e
org_of_walk domain own (Result.ok higher) = Result.ok (org_answer domain own higher)

unfoldable pub own_found : Str → Dmarc → Found
own_found domain rec = record { step = 0; name = domain; rec = rec }

unfoldable pub own_org : Str → Dmarc → OrgAnswer
own_org domain rec = record {
  org = (organizational_domain (domain ∷ []) (own_found domain rec ∷ [])).0;
  published = true;
}

module _ {S : Type 0} (lookup : TxtLookup S) where
  -- `orgWalk` behind its first line.
  unfoldable pub org_walk_from : Str → S → Result OrgAnswer × S
  org_walk_from domain s =
      let (a, s') = lookup_dmarc_at lookup domain s in
      elim a [
        | Result.ok rec ↦
            let (w, s'') = walk lookup domain s' in
            if states_psd rec
            then (Result.ok (own_org domain rec), s')
            else (org_of_walk domain (own_found domain rec ∷ []) w, s'')
        | Result.err e ↦
            let (w, s'') = walk lookup domain s' in
            if is_no_record e then (org_of_walk domain [] w, s'') else (Result.err e, s')
      ]

  unfoldable pub org_walk : Str → S → Result OrgAnswer × S
  org_walk domain s = org_walk_from (fold_name domain) s

  -- The exported OrganizationalDomain.
  unfoldable pub organization_at : Str → S → Result Str × S
  organization_at domain s =
      let (o, s') = org_walk domain s in
      elim o [ Result.err e ↦ (Result.err e, s') | Result.ok answer ↦ (Result.ok answer.org, s') ]

-- The first entry for a key.
unfoldable pub find {ℓ} : {V : Type ℓ} → Str → List (Str × V) → Option V
find k [] = none
find k ((j, v) ∷ m) = if eq_str j k then some v else find k m

-- A resolver's state with the answers remembered so far.
pub record Memo (S : Type 0) : Type 0 where
  pub txt : List (Str × Result (List Str))
  pub inner : S

-- An answer is remembered, also "no such name"; a lookup that did not complete is not.
unfoldable pub is_remembered : Result (List Str) → Bool
is_remembered (Result.ok txts) = true
is_remembered (Result.err e) = not_found (some e)

pub record Aligner (S : Type 0) : Type 0 where
  pub memo : Memo S
  pub orgs : List (Str × OrgAnswer)

module _ {S : Type 0} (lookup : TxtLookup S) where
  -- The method `LookupTXT` of memoResolver.
  unfoldable pub memo_lookup : TxtLookup (Memo S)
  memo_lookup name m =
      let (a, s') = lookup name m.inner in
      elim (find name m.txt) [
        | some kept ↦ (kept, m)
        | none ↦
            if is_remembered a
            then (a, record { txt = (name, a) ∷ m.txt; inner = s' })
            else (a, record { txt = m.txt; inner = s' })
      ]

  unfoldable pub new_aligner : S → Aligner S
  new_aligner s = record { memo = record { txt = []; inner = s }; orgs = [] }

  unfoldable pub walked : Str → Aligner S → Result OrgAnswer × Aligner S
  walked domain al =
      let d = fold_name domain in
      let (o, m) = org_walk memo_lookup d al.memo in
      elim (find d al.orgs) [
        | some kept ↦ (Result.ok kept, al)
        | none ↦ elim o [
          | Result.err e ↦ (Result.err e, record { memo = m; orgs = al.orgs })
          | Result.ok answer ↦ (Result.ok answer, record { memo = m; orgs = (d, answer) ∷ al.orgs })
        ]
      ]

  -- The method `Org`.
  unfoldable pub organization : Str → Aligner S → Result Str × Aligner S
  organization domain al =
      let (o, al') = walked domain al in
      elim o [ Result.err e ↦ (Result.err e, al') | Result.ok answer ↦ (Result.ok answer.org, al') ]

  unfoldable pub policy_applies : Str → Aligner S → Result Bool × Aligner S
  policy_applies from al =
      let (o, al') = walked from al in
      elim o [
        | Result.err e ↦ (Result.err e, al')
        | Result.ok answer ↦ (Result.ok answer.published, al')
      ]

  -- Relaxed alignment, of names that are folded and differ.
  unfoldable pub relaxed : Str → Str → Aligner S → Result Bool × Aligner S
  relaxed f d al =
      let (fo, al') = walked f al in
      let (do_, al'') = walked d al' in
      elim fo [
        | Result.err e ↦ (Result.err e, al')
        | Result.ok a ↦ elim do_ [
          | Result.err e ↦ (Result.err e, al'')
          | Result.ok b ↦ (Result.ok (eq_str a.org b.org), al'')
        ]
      ]

  unfoldable pub aligned : Str → Str → Str → Aligner S → Result Bool × Aligner S
  aligned from auth mode al =
      let f = fold_name from in
      let d = fold_name auth in
      if is_empty f || is_empty d
      then (Result.ok false, al)
      else if eq_str f d
      then (Result.ok true, al)
      else if eq_str mode (codes "s")
      then (Result.ok false, al)
      else relaxed f d al
