-- ===== src/Mailauth/Spf/Lookups.antt =====
-- The two counts of the terms of an SPF record that cost a lookup.

use mailkit.Prelude.{
  ℕ, suc, ◌+◌, ◌≤◌, List, [], ◌∷◌, map, true, drop, if◌then◌else◌, All, ◌≡◌, subst, arith,
  Bool-cases, inl, inr,
}
use mailkit.Text.{Str, codes, trim_space, fields, equal_fold}
use mailkit.Dnsx.{Result}
use mailkit.Spf.Terms.{Term, costs_lookup, parse_term}
use mailkit.Mailauth.Spf.{
  SpfRecord, cut_qualifier, name_and_arg, read_term, read_terms, empty_spf, parse_spf_fields,
  parse_spf,
}
use mailkit.Mailauth.Spf.Names.{read_named-lookups, is_well_named}
use mailkit.Mailauth.Spf.Counted.{counted-costs_lookup}

-- How many terms cost a lookup.
unfoldable pub costing : List Term → ℕ
costing [] = 0
costing (t ∷ ts) = let rest = costing ts in if costs_lookup t then suc rest else rest

read_terms-lookups :
    (fs : List Str) (rec : SpfRecord)
    → All (λ f. is_well_named f ≡ true) fs
    → (read_terms fs rec).lookups ≤ rec.lookups + costing (map parse_term fs)
unfolding read_terms costing read_term
read_terms-lookups [] rec h = omega arith
read_terms-lookups (f ∷ fs) rec (well, h) =
    let (qualifier, term) = cut_qualifier f in
    let (name, arg) = name_and_arg term in
    let rest = read_terms-lookups fs (read_term f rec) h in
    let one = read_named-lookups qualifier name arg rec in
    let cost = counted-costs_lookup f well in ground (arith, rest, one, cost)

-- The bound, of a record if there is one.
abbrev Within : List Str → Result SpfRecord → Type 0
Within fs (Result.ok rec) = rec.lookups ≤ costing (map parse_term (drop 1 fs))
Within fs (Result.err e) = Unit

parsed-Within :
    (txt raw : Str) (fs : List Str)
    → All (λ f. is_well_named f ≡ true) (drop 1 fs)
    → Within fs (parse_spf_fields txt raw fs)
unfolding parse_spf_fields empty_spf
parsed-Within txt raw [] h = tt
parsed-Within txt raw (version ∷ fs) h = elim (Bool-cases (equal_fold version (codes "v=spf1"))) [
  | inl q ↦ rw (q) (omega (arith, read_terms-lookups fs (empty_spf raw) h))
  | inr q ↦ rw (q) tt
]

-- A record that is parsed, and whose fields are named as they should be, is not said to cost more
-- lookups than those of its terms cost which package spf reads in the same fields.
pub parse_spf-lookups :
    (txt : Str) (rec : SpfRecord)
    → parse_spf txt ≡ Result.ok rec
    → All (λ f. is_well_named f ≡ true) (drop 1 (fields (trim_space txt)))
    → rec.lookups ≤ costing (map parse_term (drop 1 (fields (trim_space txt))))
unfolding parse_spf
parse_spf-lookups txt rec e h =
    let fs = fields (trim_space txt) in
    subst (Within fs) e (parsed-Within txt (trim_space txt) fs h)
