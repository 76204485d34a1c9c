-- ===== src/Mailauth/TreeWalk.antt =====
-- mailauth/treewalk.go, and `LookupDMARC` of mailauth/records.go. A resolver is an operation on a
-- state of its own: what it has been asked, what it remembers.
pub mod Static
pub mod Absence
pub mod Names
use mailkit.Prelude.{
  ℕ, zero, suc, ◌+◌, ◌-◌, List, [], ◌∷◌, ◌++◌, Bool, true, false, not, ◌&&◌, ◌||◌, Option, none,
  some, ltb, ◌==◌, if◌then◌else◌, is_empty, length, drop,
}
use mailkit.Text.{Str, codes, eq_str, to_lower, trim_space, has_prefix, split, join}
use mailkit.Dnsx.{Error, Result, not_found}
use mailkit.Mailauth.Dmarc.{Dmarc, parse_dmarc}

-- LookupTXT of a resolver with the state `S`.
abbrev pub TxtLookup : Type 0 → Type 0
TxtLookup S = Str → S → Result (List Str) × S

-- errors.Is(err, ErrNoRecord)
unfoldable pub is_no_record : Error → Bool
is_no_record Error.no_record = true
is_no_record (Error.wrapped text e) = is_no_record e
is_no_record _ = false

-- strings.Trim(s, ".")
unfoldable pub trim_dots_left : Str → Str
trim_dots_left [] = []
trim_dots_left (c ∷ s) = if c == b'.' then trim_dots_left s else c ∷ s

unfoldable pub keep_dots : ℕ → Str → Str
keep_dots c [] = if c == b'.' then [] else c ∷ []
keep_dots c (d ∷ s) = c ∷ d ∷ s

unfoldable pub trim_dots_right : Str → Str
trim_dots_right [] = []
trim_dots_right (c ∷ s) = keep_dots c (trim_dots_right s)

unfoldable pub trim_dots : Str → Str
trim_dots s = trim_dots_right (trim_dots_left s)

abbrev pub max_tree_walk_labels : ℕ
max_tree_walk_labels = 7

-- The names made of the last n labels, for n from `start` down to 1.
unfoldable pub names_from : ℕ → List Str → List Str
names_from zero labels = []
names_from (suc n) labels = join b'.' (drop (length labels - suc n) labels) ∷ names_from n labels

unfoldable pub walk_start : List Str → ℕ
walk_start labels =
    let start = length labels - 1 in
    if ltb max_tree_walk_labels start then max_tree_walk_labels else start

unfoldable pub tree_walk_names : Str → List Str
tree_walk_names domain =
    let labels = split b'.' (trim_dots (to_lower domain)) in names_from (walk_start labels) labels

pub record Found : Type 0 where
  pub step : ℕ
  pub name : Str
  pub rec : Dmarc

-- Whether a record says that it is a public suffix, or that it is none.
unfoldable pub states_psd : Dmarc → Bool
states_psd d = eq_str d.psd (codes "y") || eq_str d.psd (codes "n")

-- The first TXT string that looks like a DMARC record decides.
unfoldable pub first_dmarc : List Str → Result Dmarc
first_dmarc [] = Result.err Error.no_record
first_dmarc (txt ∷ txts) =
    if has_prefix (codes "v=dmarc1") (to_lower (trim_space txt))
    then parse_dmarc txt
    else first_dmarc txts

unfoldable pub dmarc_answer : Str → Result (List Str) → Result Dmarc
dmarc_answer domain (Result.ok txts) = first_dmarc txts
dmarc_answer domain (Result.err e) =
    if not_found (some e)
    then Result.err Error.no_record
    else Result.err
        (Error.wrapped (codes "mailkit/mailauth: lookup _dmarc." ++ (domain ++ codes ": ")) e)

-- The record that a name has in `at`: the last one listed for it.
unfoldable pub found_at : Str → List Found → Option Found
found_at name [] = none
found_at name (f ∷ fs) = elim (found_at name fs) [
  | some g ↦ some g
  | none ↦ if eq_str f.name name then some f else none
]

-- names[i], empty out of range.
unfoldable pub name_at : List Str → ℕ → Str
name_at [] i = []
name_at (n ∷ ns) zero = n
name_at (n ∷ ns) (suc i) = name_at ns i

unfoldable pub below_suffix : List Str → List Found → Found → Str × Option Found
below_suffix names all f =
    let below = name_at names (f.step - 1) in
    elim (found_at below all) [ some g ↦ (below, some g) | none ↦ (below, some f) ]

-- The loop of `organizationalDomain`, longest name first, then its third rule. The record that it
-- returns is a pointer into the list of those found: here, the one found.
unfoldable pub choose : List Str → List Found → List Found → Option Found → Str × Option Found
choose names all [] none = ([], none)
choose names all [] (some last) = (last.name, some last)
choose names all (f ∷ fs) last =
    let rest = choose names all fs (some f) in
    if eq_str f.rec.psd (codes "n")
    then (f.name, some f)
    else if eq_str f.rec.psd (codes "y") && ltb 0 f.step
    then below_suffix names all f
    else rest

unfoldable pub organizational_domain : List Str → List Found → Str × Option Found
organizational_domain names records = choose names records records none

-- The record that a subdomain inherits: sp= replaces p= when it is set.
unfoldable pub inherit : Found → Dmarc
inherit f =
    let rec = record (f.rec) { inherited_from = f.name } in
    if is_empty rec.sub_policy
    then rec
    else record rec { parent_policy = rec.policy; policy = rec.sub_policy }

unfoldable pub inherited : List Str → Result (List Found) → Result Dmarc
inherited names (Result.err e) = Result.err e
inherited names (Result.ok records) = elim (organizational_domain names records).1 [
  | none ↦ Result.err Error.no_record
  | some f ↦ Result.ok (inherit f)
]

module _ {S : Type 0} (lookup : TxtLookup S) where
  unfoldable pub lookup_dmarc_at : Str → S → Result Dmarc × S
  lookup_dmarc_at domain s =
      let (a, s') = lookup (codes "_dmarc." ++ domain) s in (dmarc_answer domain a, s')

  -- The loop of `walk`: the place in the walk, the names left, and what was found so far.
  unfoldable pub walk_names : ℕ → List Str → List Found → S → Result (List Found) × S
  walk_names i [] out s = (Result.ok out, s)
  walk_names i (name ∷ names) out s =
      let (a, s') = lookup_dmarc_at name s in
      elim a [
        | Result.ok rec ↦
            let out' = out ++ record { step = i; name = name; rec = rec } ∷ [] in
            let rest = walk_names (suc i) names out' s' in
            if states_psd rec then (Result.ok out', s') else rest
        | Result.err e ↦
            let rest = walk_names (suc i) names out s' in
            if is_no_record e then rest else (Result.err e, s')
      ]

  unfoldable pub walk : Str → S → Result (List Found) × S
  walk domain s = walk_names 0 (tree_walk_names domain) [] s

  unfoldable pub lookup_dmarc : Str → S → Result Dmarc × S
  lookup_dmarc domain s =
      let (a, s') = lookup_dmarc_at domain s in
      elim a [
        | Result.ok rec ↦ (Result.ok rec, s')
        | Result.err e ↦
            let (w, s'') = walk domain s' in
            if is_no_record e
            then (inherited (tree_walk_names domain) w, s'')
            else (Result.err e, s')
      ]
