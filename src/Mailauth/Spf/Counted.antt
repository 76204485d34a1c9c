-- ===== src/Mailauth/Spf/Counted.antt =====
-- A field that package mailauth counts costs a lookup for package spf.
use mathlib.Core.Option.{none-ne-some}
use mailkit.Prelude.{
  ℕ, [], ◌∷◌, true, false, ◌||◌, Option, none, some, ◌==◌, take, is_empty, ◌≡◌, refl, ap, sym, ◌∙◌,
  arith, Bool-cases, inl, inr, Option-cases, ◌⊎◌,
}
use mailkit.Text.{Str, codes, to_lower, index, eq_str, mem_str}
use mailkit.Text.Equality.{eq_str_sound, eq_str_comm}
use mailkit.Spf.Terms.{
  Term, costing_names, costs_lookup, modifier_at, split_qualifier, mechanism, parse_term,
}
use mailkit.Mailauth.Spf.{lookup_costing, cut_qualifier, name_and_arg}
use mailkit.Mailauth.Spf.Cuts.{
  slash-IsCaseless, index-to_lower, take-take, in_front, up_to, inside, modifier_inside,
  not_modifier, not_modifier_behind, behind, index-cons,
}
use mailkit.Mailauth.Spf.Names.{
  is_counted, is_well_named, name_of, before_colon, name_and_arg-name, modifier_at-of,
}

pub no_slash : (x name : Str) → index b'/' x ≡ none → eq_str x name ≡ true → index b'/' name ≡ none
no_slash x name e q = ap (index b'/') (sym (eq_str_sound x name q)) ∙ e

pub slashes :
    (index b'/' (codes "redirect") ≡ none)
    × (index b'/' (codes "include") ≡ none)
    × (index b'/' (codes "a") ≡ none)
    × (index b'/' (codes "mx") ≡ none)
    × (index b'/' (codes "ptr") ≡ none)
    × (index b'/' (codes "exists") ≡ none)
unfolding index
slashes = (refl, refl, refl, refl, refl, refl)

-- No counted name has a slash.
pub counted-slash : (name : Str) → is_counted name ≡ true → index b'/' name ≡ none
unfolding is_counted mem_str lookup_costing
counted-slash name h = ground (
  arith,
  h,
  no_slash (codes "redirect") name slashes.0,
  no_slash (codes "include") name slashes.1,
  no_slash (codes "a") name slashes.2,
  no_slash (codes "mx") name slashes.3,
  no_slash (codes "ptr") name slashes.4,
  no_slash (codes "exists") name slashes.5,
  eq_str_comm name (codes "redirect"),
)

pub counted-mem :
    (name : Str)
    → is_counted name ≡ true
    → eq_str name (codes "redirect") ≡ false
    → mem_str name costing_names ≡ true
unfolding is_counted lookup_costing costing_names
counted-mem name h k = ground (arith, h, k)

pub mechanism-modifier : (f q s : Str) → (mechanism f q s).modifier ≡ false
unfolding mechanism
mechanism-modifier f q s = elim (Option-cases (index b':' s)) [
  | inr r ↦ rw (r.1, mechanism) refl
  | inl r ↦ elim (Option-cases (index b'/' s)) [
    | inl t ↦ rw (r, t, mechanism) refl
    | inr t ↦ rw (r, t.1, mechanism) refl
  ]
]

pub mechanism-name :
    (f q s : Str)
    → (index b':' s ≡ none → index b'/' s ≡ none)
    → (mechanism f q s).name ≡ to_lower (before_colon s)
unfolding mechanism up_to
mechanism-name f q s whole = elim (Option-cases (index b':' s)) [
  | inr r ↦ rw (r.1, mechanism) refl
  | inl r ↦ rw (r, whole r, mechanism) refl
]

pub nothing-is_counted : is_counted [] ≡ false
unfolding is_counted mem_str lookup_costing eq_str
nothing-is_counted = refl

pub nothing_left : (s : Str) → to_lower (up_to (some 0) s) ≡ []
unfolding up_to to_lower
nothing_left s = refl

pub slash_before :
    (s : Str)
    → index b':' s ≡ none
    → index b'/' (to_lower (before_colon s)) ≡ none
    → index b'/' s ≡ none
unfolding up_to
slash_before s r h =
    let same = rw (index-to_lower b'/' slash-IsCaseless (before_colon s)) at h in rw (r) at same

-- What the parsers read of a mechanism.
pub mechanism-counted :
    (f q s : Str)
    → (inside (index b'=' s) (index b':' s) ≡ none)
      ⊎ (inside (index b'=' s) (index b':' s) ≡ some 0)
    → eq_str (mechanism f q s).name (codes "redirect") ≡ false
    → is_counted (name_and_arg s).0 ≡ true
    → costs_lookup (mechanism f q s) ≡ true
unfolding up_to costs_lookup
mechanism-counted f q s (inr z) well h =
    let name = rw (z) at (name_and_arg-name s) in
    absurd
      (ground (arith, h, ap is_counted (name ∙ nothing_left (before_colon s)), nothing-is_counted))
mechanism-counted f q s (inl z) well h =
    let name = rw (z) at (name_and_arg-name s) in
    let counted : is_counted (to_lower (before_colon s)) ≡ true = rw (name) at h in
    let whole = λ (r : index b':' s ≡ none).
      slash_before s r (counted-slash (to_lower (before_colon s)) counted) in
    let named = mechanism-name f q s whole in
    let cost = counted-mem (to_lower (before_colon s)) counted (rw (named) at well) in
    rw (mechanism-modifier f q s, named) cost

-- The two parsers cut the same qualifiers off.
pub split_qualifier-cut : (f : Str) → (split_qualifier f).1 ≡ (cut_qualifier f).1
unfolding split_qualifier cut_qualifier
split_qualifier-cut [] = refl
split_qualifier-cut (c ∷ s) = ground arith

pub unqualified : (f : Str) → is_empty (cut_qualifier f).0 ≡ true → (cut_qualifier f).1 ≡ f
unfolding cut_qualifier
unqualified [] h = refl
unqualified (c ∷ s) h = ground arith

-- A field that is no modifier, behind its qualifier.
pub place_of_mechanism :
    (f : Str)
    → modifier_at f ≡ none
    → let s = (cut_qualifier f).1 in
      (inside (index b'=' s) (index b':' s) ≡ none)
      ⊎ (inside (index b'=' s) (index b':' s) ≡ some 0)
unfolding cut_qualifier
place_of_mechanism [] h = not_modifier (index b'=' []) (index b':' []) (sym (modifier_at-of []) ∙ h)
place_of_mechanism (c ∷ s) h =
    elim (Bool-cases (c == b'+' || c == b'-' || c == b'~' || c == b'?')) [
      | inl q ↦
          let equals : index b'=' (c ∷ s) ≡ behind (index b'=' s) =
            ground (arith, index-cons b'=' c s, q) in
          let colon : index b':' (c ∷ s) ≡ behind (index b':' s) =
            ground (arith, index-cons b':' c s, q) in
          let place = sym (modifier_at-of (c ∷ s)) ∙ h in
          rw (q)
            (inl (not_modifier_behind (index b'=' s) (index b':' s) (rw (equals, colon) at place)))
      | inr q ↦ rw (q) (
          not_modifier (index b'=' (c ∷ s)) (index b':' (c ∷ s)) (sym (modifier_at-of (c ∷ s)) ∙ h))
    ]

pub take_before :
    (e k : Option ℕ) (i : ℕ) (s : Str) → inside e k ≡ some i → take i (up_to k s) ≡ take i s
unfolding inside up_to in_front
take_before e none i s h = refl
take_before none (some k) i s h = absurd (none-ne-some i h)
take_before (some e) (some k) i s h = take-take i k s (ground arith)

pub parse_term-mechanism :
    (f : Str)
    → modifier_at f ≡ none
    → parse_term f ≡ mechanism f (split_qualifier f).0 (split_qualifier f).1
unfolding parse_term
parse_term-mechanism f n = rw (n, parse_term) refl

pub parse_term-modifier :
    (f : Str) (i : ℕ)
    → modifier_at f ≡ some i
    → ((parse_term f).modifier ≡ true) × ((parse_term f).name ≡ to_lower (take i f))
unfolding parse_term
parse_term-modifier f i n = rw (n, parse_term) (refl, refl)

pub modifier_name :
    (f : Str) (i : ℕ)
    → inside (index b'=' f) (index b':' f) ≡ some i
    → (name_and_arg f).0 ≡ to_lower (take i f)
unfolding up_to
modifier_name f i within =
    (rw (within) at (name_and_arg-name f))
    ∙ ap to_lower (take_before (index b'=' f) (index b':' f) i f within)

pub counted-costs_lookup :
    (f : Str)
    → is_well_named f ≡ true
    → is_counted (name_of f) ≡ true
    → costs_lookup (parse_term f) ≡ true
unfolding is_well_named costs_lookup
counted-costs_lookup f well h = elim (Option-cases (modifier_at f)) [
  | inl n ↦
      let q = (split_qualifier f).0 in
      let s = (split_qualifier f).1 in
      let t = parse_term-mechanism f n in
      let rest = split_qualifier-cut f in
      let named : eq_str (mechanism f q s).name (codes "redirect") ≡ false = ground (
        arith,
        well,
        ap (λ (x : Term). x.modifier) t,
        mechanism-modifier f q s,
        ap (λ (x : Term). eq_str x.name (codes "redirect")) t,
      ) in
      ap costs_lookup t
      ∙ mechanism-counted f q s (rw rest (place_of_mechanism f n)) named (rw rest h)
  | inr n ↦
      let i = n.0 in
      let t = parse_term-modifier f i n.1 in
      let bare : is_empty (cut_qualifier f).0 ≡ true = ground (arith, well, t.0) in
      let within = modifier_inside (index b'=' f) (index b':' f) i (sym (modifier_at-of f) ∙ n.1) in
      let name = modifier_name f i within in
      let whole_name = ap (λ x. (name_and_arg x).0) (unqualified f bare) ∙ name in
      let counted : is_counted (to_lower (take i f)) ≡ true = sym (ap is_counted whole_name) ∙ h in
      ground (
        arith,
        well,
        t.0,
        ap (λ x. eq_str x (codes "redirect")) t.1,
        ap (λ x. mem_str x costing_names) t.1,
        counted-mem (to_lower (take i f)) counted,
      )
]
