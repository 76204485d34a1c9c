-- ===== src/Mailauth/Spf.antt =====
-- mailauth/records.go: the SPF record of a domain, and what its own terms cost.
pub mod Cuts
pub mod Names
pub mod Counted
pub mod Lookups
mod Examples
use mailkit.Prelude.{
  ℕ, ◌+◌, List, [], ◌∷◌, ◌++◌, Bool, true, false, not, ◌||◌, Option, none, some, ◌==◌,
  if◌then◌else◌, is_empty, take, drop,
}
use mailkit.Text.{
  Str, codes, eq_str, mem_str, to_lower, equal_fold, trim_space, fields, index, has_prefix,
}
use mailkit.Dnsx.{Error, Result, not_found}

pub record SpfRecord : Type 0 where
  pub raw : Str
  pub all : Str
  pub lookups : ℕ
  pub includes : List Str
  pub redirect : Str
  pub has_redirect : Bool

-- The keys of the map `lookupCosting`.
unfoldable pub lookup_costing : List Str
lookup_costing = codes "include" ∷ codes "a" ∷ codes "mx" ∷ codes "ptr" ∷ codes "exists" ∷ []

-- strings.Cut at a byte: what is before it, what is behind it, and whether it is there.
unfoldable pub cut : ℕ → Str → Str × Str × Bool
cut b s = elim (index b s) [ none ↦ (s, [], false) | some i ↦ (take i s, drop (i + 1) s, true) ]

-- A qualifier is cut off; without one it is empty.
unfoldable pub cut_qualifier : Str → Str × Str
cut_qualifier [] = ([], [])
cut_qualifier (c ∷ s) =
    if c == b'+' || c == b'-' || c == b'~' || c == b'?' then (c ∷ [], s) else ([], c ∷ s)

-- The name of a term and its argument: behind "=" in the name, or else behind ":".
unfoldable pub name_and_arg : Str → Str × Str
name_and_arg term =
    let (before, arg, _) = cut b':' term in
    let name = to_lower before in
    let (k, v, there) = cut b'=' name in if there then (k, v) else (name, arg)

unfoldable pub count_lookup : SpfRecord → SpfRecord
count_lookup rec = record rec { lookups = rec.lookups + 1 }

-- The switch of the loop.
unfoldable pub read_named : Str → Str → Str → SpfRecord → SpfRecord
read_named qualifier name arg rec =
    if eq_str name (codes "all")
    then record rec { all = if is_empty qualifier then codes "+" else qualifier }
    else if eq_str name (codes "redirect")
    then count_lookup (record rec { redirect = arg; has_redirect = true })
    else if eq_str name (codes "include")
    then count_lookup (record rec { includes = rec.includes ++ arg ∷ [] })
    else if mem_str name lookup_costing
    then count_lookup rec
    else rec

unfoldable pub read_term : Str → SpfRecord → SpfRecord
read_term field rec =
    let (qualifier, term) = cut_qualifier field in
    let (name, arg) = name_and_arg term in read_named qualifier name arg rec

unfoldable pub read_terms : List Str → SpfRecord → SpfRecord
read_terms [] rec = rec
read_terms (f ∷ fs) rec = read_terms fs (read_term f rec)

unfoldable pub empty_spf : Str → SpfRecord
empty_spf raw = record {
  raw = raw;
  all = [];
  lookups = 0;
  includes = [];
  redirect = [];
  has_redirect = false;
}

unfoldable pub not_spf : Str → Error
not_spf txt = Error.other (codes "mailkit/mailauth: \"" ++ (txt ++ codes "\" is not an SPF record"))

unfoldable pub parse_spf_fields : Str → Str → List Str → Result SpfRecord
parse_spf_fields txt raw [] = Result.err (not_spf txt)
parse_spf_fields txt raw (version ∷ terms) =
    if equal_fold version (codes "v=spf1")
    then Result.ok (read_terms terms (empty_spf raw))
    else Result.err (not_spf txt)

unfoldable pub parse_spf : Str → Result SpfRecord
parse_spf txt = let raw = trim_space txt in parse_spf_fields txt raw (fields raw)

-- The loop of `LookupSPF`.
unfoldable pub first_spf : List Str → Result SpfRecord
first_spf [] = Result.err Error.no_record
first_spf (txt ∷ txts) =
    if has_prefix (codes "v=spf1") (to_lower (trim_space txt))
    then parse_spf txt
    else first_spf txts

-- LookupSPF, from the answer to its question.
unfoldable pub lookup_spf : Str → Result (List Str) → Result SpfRecord
lookup_spf domain (Result.err e) =
    if not_found (some e)
    then Result.err Error.no_record
    else Result.err
        (Error.wrapped (codes "mailkit/mailauth: lookup TXT " ++ (domain ++ codes ": ")) e)
lookup_spf domain (Result.ok txts) = first_spf txts
