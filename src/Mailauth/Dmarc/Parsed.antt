-- ===== src/Mailauth/Dmarc/Parsed.antt =====
-- What holds of every record that the DMARC parser returns, and of the policy that is applied.
use mailkit.Prelude.{
  ℕ, ◌-◌, List, [], ◌∷◌, ◌≡◌, ◌≢◌, refl, arith, All, Option-cases, inl, inr, if◌then◌else◌, take,
  drop, ◌+◌, subst,
}
use mailkit.Text.{Str, codes, eq_str, lower, to_lower, trim_space, index, split}
use mailkit.Dnsx.{Result}
use mailkit.Mailauth.Dmarc.{
  Dmarc, nonempty_trimmed, split_uris, set_tag, read_part, read_parts, default_dmarc, parse_parts,
  parse_dmarc, applied,
}

lower-lower : (c : ℕ) → lower (lower c) ≡ lower c
unfolding lower
lower-lower c = ground arith

to_lower_twice : (s : Str) → to_lower (to_lower s) ≡ to_lower s
unfolding to_lower
to_lower_twice [] = refl
to_lower_twice (c ∷ s) = ground (arith, lower-lower c, to_lower_twice s)

-- A tag's value is in lower case, as every comparison with it expects.
abbrev pub IsLower : Str → Type 0
IsLower s = to_lower s ≡ s

nonempty_trimmed-All : (us : List Str) → All (λ u. u ≢ []) (nonempty_trimmed us)
unfolding nonempty_trimmed
nonempty_trimmed-All [] = tt
nonempty_trimmed-All (u ∷ us) = ground (arith, nonempty_trimmed-All us)

pub record IsParsed (source : Str) (d : Dmarc) : Type 0 where
  raw : d.raw ≡ source
  policy : IsLower d.policy
  sub_policy : IsLower d.sub_policy
  non_existent_policy : IsLower d.non_existent_policy
  psd : IsLower d.psd
  adkim : IsLower d.adkim
  aspf : IsLower d.aspf
  rua : All (λ u. u ≢ []) d.rua
  ruf : All (λ u. u ≢ []) d.ruf
  own : d.inherited_from ≡ []

set_tag-IsParsed : (raw k v : Str) (d : Dmarc) → IsParsed raw d → IsParsed raw (set_tag k v d)
unfolding set_tag split_uris
set_tag-IsParsed raw k v d h = record {
  raw = ground (arith, h.raw);
  policy = ground (arith, h.policy, to_lower_twice v);
  sub_policy = ground (arith, h.sub_policy, to_lower_twice v);
  non_existent_policy = ground (arith, h.non_existent_policy, to_lower_twice v);
  psd = ground (arith, h.psd, to_lower_twice v);
  adkim = ground (arith, h.adkim, to_lower_twice v);
  aspf = ground (arith, h.aspf, to_lower_twice v);
  rua = ground (arith, h.rua, nonempty_trimmed-All (split b',' v));
  ruf = ground (arith, h.ruf, nonempty_trimmed-All (split b',' v));
  own = ground (arith, h.own);
}

read_part-IsParsed : (raw part : Str) (d : Dmarc) → IsParsed raw d → IsParsed raw (read_part part d)
unfolding read_part
read_part-IsParsed raw part d h = elim (Option-cases (index b'=' (trim_space part))) [
  | inl e ↦ rw (e, read_part) h
  | inr (i, e) ↦
      let p : Str = trim_space part in
      rw (e, read_part)
        (set_tag-IsParsed raw (to_lower (trim_space (take i p))) (trim_space (drop (i + 1) p)) d h)
]

read_parts-IsParsed :
    (raw : Str) (parts : List Str) (d : Dmarc) → IsParsed raw d → IsParsed raw (read_parts parts d)
unfolding read_parts
read_parts-IsParsed raw [] d h = h
read_parts-IsParsed raw (part ∷ parts) d h =
    read_parts-IsParsed raw parts (read_part part d) (read_part-IsParsed raw part d h)

default_dmarc-IsParsed : (raw : Str) → IsParsed raw (default_dmarc raw)
unfolding default_dmarc to_lower lower
default_dmarc-IsParsed raw = record {
  raw = refl;
  policy = refl;
  sub_policy = refl;
  non_existent_policy = refl;
  psd = refl;
  adkim = refl;
  aspf = refl;
  rua = tt;
  ruf = tt;
  own = refl;
}

parse_parts-IsParsed :
    (txt raw : Str) (parts : List Str) (d : Dmarc)
    → parse_parts txt raw parts ≡ Result.ok d
    → IsParsed raw d
unfolding parse_parts
parse_parts-IsParsed txt raw [] d h = cc h
parse_parts-IsParsed txt raw (version ∷ parts) d h =
    let e : read_parts parts (default_dmarc raw) ≡ d = ground arith in
    subst (λ r. IsParsed raw r) e
      (read_parts-IsParsed raw parts (default_dmarc raw) (default_dmarc-IsParsed raw))

-- What a record that the parser returns holds: the text of the record without the space around it,
-- values in lower case in the policy tags, psd and the two alignment modes, report addresses that
-- are not empty, and no name that it is inherited from.
pub parse_dmarc-IsParsed :
    (txt : Str) (d : Dmarc) → parse_dmarc txt ≡ Result.ok d → IsParsed (trim_space txt) d
unfolding parse_dmarc
parse_dmarc-IsParsed txt d h =
    parse_parts-IsParsed txt (trim_space txt) (split b';' (trim_space txt)) d h

-- How much a policy asks for.
unfoldable pub strength : Str → ℕ
strength s = if eq_str s (codes "reject") then 2 else if eq_str s (codes "quarantine") then 1 else 0

strength_quarantine : strength (codes "quarantine") ≡ 1
unfolding strength eq_str
strength_quarantine = refl

strength_none : strength (codes "none") ≡ 0
unfolding strength eq_str
strength_none = refl

-- The applied policy asks for as much as the published one; for one level less, and never more,
-- when the record says it is being tested.
pub strength-applied :
    (d : Dmarc)
    → strength (applied d) ≡ (if d.testing then strength d.policy - 1 else strength d.policy)
unfolding applied strength
strength-applied d = ground (arith, strength_quarantine, strength_none)
