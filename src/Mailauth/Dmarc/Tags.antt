-- ===== src/Mailauth/Dmarc/Tags.antt =====
-- What the DMARC parser makes of each tag, read off the tags of the record one field at a time.
use mailkit.Prelude.{
  List, [], ◌∷◌, Bool, false, Option, none, some, ◌≡◌, refl, sym, ap, ◌∙◌, arith, Bool-cases,
  Option-cases, inl, inr, if◌then◌else◌, take, drop, ◌+◌, ℤ, not, is_empty, map,
}
use mailkit.Text.{Str, codes, eq_str, equal_fold, to_lower, trim_space, index, split}
use mailkit.Text.Equality.{eq_str_sound}
use mailkit.Sorting.{passing}
use mailkit.Dnsx.{Result}
use mailkit.Mailauth.Dmarc.{
  Dmarc, atoi, nonempty_trimmed, split_uris, set_tag, read_part, read_parts, default_dmarc,
  not_dmarc, parse_parts, parse_dmarc,
}

-- The names, in lower case, and values of the parts that have a "=", without the space around them.
abbrev pub tags : List Str → List (Str × Str)
tags [] = []
tags (part ∷ parts) =
    let p = trim_space part in
    elim (index b'=' p) [
      | none ↦ tags parts
      | some i ↦ (to_lower (trim_space (take i p)), trim_space (drop (i + 1) p)) ∷ tags parts
    ]

-- The last value of a tag that can be read; `otherwise` where there is none.
abbrev pub last_read {ℓ} : {A : Type ℓ} → (Str → Option A) → A → Str → List (Str × Str) → A
last_read read otherwise name [] = otherwise
last_read read otherwise name ((n, v) ∷ ts) =
    let here =
      if eq_str n name then elim (read v) [ none ↦ otherwise | some a ↦ a ] else otherwise in
    last_read read here name ts

abbrev pub lowered : Str → Option Str
lowered v = some (to_lower v)

abbrev pub is_yes : Str → Option Bool
is_yes v = some (equal_fold v (codes "y"))

-- The addresses between the commas that are more than space.
abbrev pub addresses : Str → Option (List Str)
addresses v = some (passing (λ u. not (is_empty u)) (map trim_space (split b',' v)))

nonempty_trimmed_lem :
    (us : List Str) → nonempty_trimmed us ≡ passing (λ u. not (is_empty u)) (map trim_space us)
unfolding nonempty_trimmed passing
nonempty_trimmed_lem [] = refl
nonempty_trimmed_lem (u ∷ us) = ground (arith, nonempty_trimmed_lem us)

-- The record that some tags make of another.
abbrev pub described : List (Str × Str) → Dmarc → Dmarc
described ts d = record {
  raw = d.raw;
  policy = last_read lowered d.policy (codes "p") ts;
  sub_policy = last_read lowered d.sub_policy (codes "sp") ts;
  non_existent_policy = last_read lowered d.non_existent_policy (codes "np") ts;
  testing = last_read is_yes d.testing (codes "t") ts;
  psd = last_read lowered d.psd (codes "psd") ts;
  pct = last_read atoi d.pct (codes "pct") ts;
  adkim = last_read lowered d.adkim (codes "adkim") ts;
  aspf = last_read lowered d.aspf (codes "aspf") ts;
  rua = last_read addresses d.rua (codes "rua") ts;
  ruf = last_read addresses d.ruf (codes "ruf") ts;
  inherited_from = d.inherited_from;
  parent_policy = d.parent_policy;
}

-- One tag alone.
abbrev one {ℓ} : {A : Type ℓ} → (Str → Option A) → Str → Str → Str → A → A
one read name k v a = last_read read a name ((k, v) ∷ [])

-- A field that its own tag sets, and no other tag changes, is set as it is described.
module _ {ℓ} {A : Type ℓ} (read : Str → Option A) (name : Str) (field : Dmarc → A)
    (own : (v : Str) (d : Dmarc)
      → field (set_tag name v d) ≡ elim (read v) [ none ↦ field d | some a ↦ a ])
    (other : (k v : Str) (d : Dmarc)
      → eq_str k name ≡ false
      → field (set_tag k v d) ≡ field d) where
  field-set_tag : (k v : Str) (d : Dmarc) → field (set_tag k v d) ≡ one read name k v (field d)
  field-set_tag k v d = elim (Bool-cases (eq_str k name)) [
    | inl e ↦ rw e (ap (λ n. field (set_tag n v d)) (eq_str_sound k name e) ∙ own v d)
    | inr e ↦ rw e (other k v d e)
  ]

  pub field-read_parts :
      (parts : List Str) (d : Dmarc)
      → field (read_parts parts d) ≡ last_read read (field d) name (tags parts)
  unfolding read_parts read_part
  field-read_parts [] d = refl
  field-read_parts (part ∷ parts) d = elim (Option-cases (index b'=' (trim_space part))) [
    | inl e ↦ rw (e, read_parts, read_part, tags) (field-read_parts parts d)
    | inr (i, e) ↦
        let p : Str = trim_space part in
        let k : Str = to_lower (trim_space (take i p)) in
        let v : Str = trim_space (drop (i + 1) p) in
        rw (e, read_parts, read_part, tags, last_read)
          (field-read_parts parts (set_tag k v d)
            ∙ ap (λ a. last_read read a name (tags parts)) (field-set_tag k v d))
  ]

-- A field that no tag changes stays as it is.
module _ {ℓ} {A : Type ℓ} (field : Dmarc → A)
    (kept : (k v : Str) (d : Dmarc) → field (set_tag k v d) ≡ field d) where
  field-kept : (parts : List Str) (d : Dmarc) → field (read_parts parts d) ≡ field d
  unfolding read_parts read_part
  field-kept [] d = refl
  field-kept (part ∷ parts) d =
      field-kept parts (read_part part d) ∙ elim (Option-cases (index b'=' (trim_space part))) [
        | inl e ↦ rw (e, read_part) refl
        | inr (i, e) ↦ rw (e, read_part) (kept _ _ d)
      ]

module _ (parts : List Str) (d : Dmarc) where
  -- A field whose value is kept in lower case.
  lowered_field :
      (name : Str) (field : Dmarc → Str)
      → ((v : Str) (e : Dmarc) → field (set_tag name v e) ≡ to_lower v)
      → ((k v : Str) (e : Dmarc) → eq_str k name ≡ false → field (set_tag k v e) ≡ field e)
      → field (read_parts parts d) ≡ last_read lowered (field d) name (tags parts)
  lowered_field name field own other = field-read_parts lowered name field own other parts d

  read_parts_lem : read_parts parts d ≡ described (tags parts) d
  unfolding set_tag eq_str split_uris
  read_parts_lem =
      let policy =
        lowered_field (codes "p") (λ x. x.policy) (λ v e. refl) (λ k v e h. ground arith) in
      let sub =
        lowered_field (codes "sp") (λ x. x.sub_policy) (λ v e. refl) (λ k v e h. ground arith) in
      let absent =
        lowered_field (codes "np") (λ x. x.non_existent_policy) (λ v e. refl)
          (λ k v e h. ground arith) in
      let testing =
        field-read_parts is_yes (codes "t") (λ x. x.testing) (λ v e. refl) (λ k v e h. ground arith)
          parts d in
      let psd = lowered_field (codes "psd") (λ x. x.psd) (λ v e. refl) (λ k v e h. ground arith) in
      let pct =
        field-read_parts atoi (codes "pct") (λ x. x.pct) (λ v e. ground arith)
          (λ k v e h. ground arith) parts d in
      let adkim =
        lowered_field (codes "adkim") (λ x. x.adkim) (λ v e. refl) (λ k v e h. ground arith) in
      let aspf =
        lowered_field (codes "aspf") (λ x. x.aspf) (λ v e. refl) (λ k v e h. ground arith) in
      let rua =
        field-read_parts addresses (codes "rua") (λ x. x.rua)
          (λ v e. nonempty_trimmed_lem (split b',' v)) (λ k v e h. ground arith) parts d in
      let ruf =
        field-read_parts addresses (codes "ruf") (λ x. x.ruf)
          (λ v e. nonempty_trimmed_lem (split b',' v)) (λ k v e h. ground arith) parts d in
      let raw = field-kept (λ x. x.raw) (λ k v e. ground arith) parts d in
      let from = field-kept (λ x. x.inherited_from) (λ k v e. ground arith) parts d in
      let parent = field-kept (λ x. x.parent_policy) (λ k v e. ground arith) parts d in
      λ i. record {
        raw = raw i;
        policy = policy i;
        sub_policy = sub i;
        non_existent_policy = absent i;
        testing = testing i;
        psd = psd i;
        pct = pct i;
        adkim = adkim i;
        aspf = aspf i;
        rua = rua i;
        ruf = ruf i;
        inherited_from = from i;
        parent_policy = parent i;
      }

-- A record without tags.
abbrev pub unset : Str → Dmarc
unset raw = record {
  raw = raw;
  policy = [];
  sub_policy = [];
  non_existent_policy = [];
  testing = false;
  psd = [];
  pct = ℤ.pos 100;
  adkim = codes "r";
  aspf = codes "r";
  rua = [];
  ruf = [];
  inherited_from = [];
  parent_policy = [];
}

-- Whether the first part of a record is its version.
abbrev pub is_marked : List Str → Bool
is_marked [] = false
is_marked (version ∷ parts) = equal_fold (trim_space version) (codes "v=DMARC1")

abbrev pub behind : List Str → List Str
behind [] = []
behind (part ∷ parts) = parts

-- What is parsed out of the parts of a text.
parse_parts_lem :
    (txt raw : Str) (parts : List Str)
    → parse_parts txt raw parts ≡ (
        if is_marked parts
        then Result.ok (described (tags (behind parts)) (unset raw))
        else Result.err (not_dmarc txt))
unfolding parse_parts default_dmarc
parse_parts_lem txt raw [] = refl
parse_parts_lem txt raw (version ∷ parts) = rw (sym (read_parts_lem parts (unset raw))) refl

-- A text is a DMARC record exactly when its first part, up to a semicolon, is the version in
-- whatever case. Each field of the record is then the last value of its own tag: in lower case for
-- p, sp, np, psd, adkim and aspf; whether it is y for t; the last that is a number for pct; the
-- addresses between commas for rua and ruf. A field without a tag is 100 for pct, r for adkim
-- and aspf, false for t, and empty otherwise; no tag touches another field.
pub parse_dmarc_lem :
    (txt : Str)
    → let raw = trim_space txt in
      let parts = split b';' raw in
      parse_dmarc txt ≡ (
        if is_marked parts
        then Result.ok (described (tags (behind parts)) (unset raw))
        else Result.err (not_dmarc txt))
unfolding parse_dmarc
parse_dmarc_lem txt = parse_parts_lem txt (trim_space txt) (split b';' (trim_space txt))
