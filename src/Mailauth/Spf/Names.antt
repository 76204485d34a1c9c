-- ===== src/Mailauth/Spf/Names.antt =====
-- The name that the parser of package mailauth reads in a field.

use mailkit.Prelude.{
  ℕ, ◌+◌, Bool, true, false, not, ◌&&◌, ◌||◌, Option, none, some, if◌then◌else◌, is_empty, ◌≡◌,
  refl, ap, ◌∙◌, arith, inl, inr, Option-cases,
}
use mailkit.Text.{Str, codes, to_lower, index, eq_str, mem_str}
use mailkit.Text.Equality.{eq_str_sound, eq_str_comm}
use mailkit.Spf.Terms.{costing_names, modifier_at, parse_term}
use mailkit.Mailauth.Spf.{
  SpfRecord, lookup_costing, cut, cut_qualifier, name_and_arg, count_lookup, read_named,
}
use mailkit.Mailauth.Spf.Cuts.{
  equals-IsCaseless, index-to_lower, take-to_lower, up_to, inside, index-up_to, modifier_of,
}

-- Whether a name is counted.
unfoldable pub is_counted : Str → Bool
is_counted name = eq_str name (codes "redirect") || mem_str name lookup_costing

pub all_is_counted : (name : Str) → eq_str name (codes "all") ≡ true → is_counted name ≡ false
unfolding is_counted eq_str mem_str lookup_costing
all_is_counted name h = ap is_counted (eq_str_sound name (codes "all") h)

-- A counted term adds one.
pub read_named-lookups :
    (qualifier name arg : Str) (rec : SpfRecord)
    → (read_named qualifier name arg rec).lookups
      ≡ (if is_counted name then rec.lookups + 1 else rec.lookups)
unfolding read_named count_lookup is_counted mem_str lookup_costing
read_named-lookups qualifier name arg rec =
    ground (arith, all_is_counted name, eq_str_comm name (codes "include"))

-- A field is named as RFC 7208 has it: a mechanism is not called redirect, and a modifier, which
-- has no qualifier, is not called like a mechanism that costs a lookup.
unfoldable pub is_well_named : Str → Bool
is_well_named f =
    let t = parse_term f in
    if t.modifier
    then is_empty (cut_qualifier f).0 && not (mem_str t.name costing_names)
    else not (eq_str t.name (codes "redirect"))

-- The name that is counted, of a field.
abbrev pub name_of : Str → Str
name_of f = (name_and_arg (cut_qualifier f).1).0

-- The text in front of the first ":".
abbrev pub before_colon : Str → Str
before_colon s = up_to (index b':' s) s

pub cut-before : (b : ℕ) (s : Str) → (cut b s).0 ≡ up_to (index b s) s
unfolding cut up_to
cut-before b s = elim (Option-cases (index b s)) [
  | inl q ↦ rw (q, cut) refl
  | inr q ↦ rw (q.1, cut) refl
]

pub up_to-to_lower : (o : Option ℕ) (s : Str) → up_to o (to_lower s) ≡ to_lower (up_to o s)
unfolding up_to
up_to-to_lower none s = refl
up_to-to_lower (some i) s = take-to_lower i s

pub name_and_arg-key :
    (s : Str)
    → let name = to_lower (cut b':' s).0 in (name_and_arg s).0 ≡ up_to (index b'=' name) name
unfolding name_and_arg up_to cut to_lower
name_and_arg-key s =
    let name = to_lower (cut b':' s).0 in
    elim (Option-cases (index b'=' name)) [ inl q ↦ rw (q, cut) refl | inr q ↦ rw (q.1, cut) refl ]

pub name_and_arg-name :
    (s : Str)
    → (name_and_arg s).0 ≡ to_lower (up_to (inside (index b'=' s) (index b':' s)) (before_colon s))
name_and_arg-name s =
    name_and_arg-key s
    ∙ rw
        (
          cut-before b':' s,
          index-to_lower b'=' equals-IsCaseless (before_colon s),
          index-up_to b'=' (index b':' s) s,
        )
        (up_to-to_lower (inside (index b'=' s) (index b':' s)) (before_colon s))

pub modifier_at-of : (f : Str) → modifier_at f ≡ modifier_of (index b'=' f) (index b':' f)
unfolding modifier_at modifier_of
modifier_at-of f = elim (Option-cases (index b'=' f)) [
  | inl q ↦ rw (q, modifier_at) refl
  | inr q ↦ elim (Option-cases (index b':' f)) [
    | inl r ↦ rw (q.1, r, modifier_at) (ground arith)
    | inr r ↦ rw (q.1, r.1, modifier_at) refl
  ]
]
