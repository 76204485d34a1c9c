-- ===== src/Spf/Terms.antt =====
-- spf/terms.go: parsing one SPF record. Its constants and the qualifier are texts, as in the
-- source.
use mailkit.Prelude.{
  ℕ, ◌+◌, List, [], ◌∷◌, Bool, true, false, ◌&&◌, ◌||◌, Option, none, some, map, ltb, ◌==◌,
  if◌then◌else◌, take, drop,
}
use mailkit.Text.{
  Str, codes, eq_str, mem_str, to_lower, equal_fold, trim_space, fields, index, contains,
}

pub record Term : Type 0 where
  pub raw : Str
  pub qualifier : Str
  pub name : Str
  pub value : Str
  pub modifier : Bool

-- The keys of the map `costsLookup`.
unfoldable pub costing_names : List Str
costing_names = codes "include" ∷ codes "a" ∷ codes "mx" ∷ codes "ptr" ∷ codes "exists" ∷ []

unfoldable pub costs_lookup : Term → Bool
costs_lookup t =
    if t.modifier then eq_str t.name (codes "redirect") else mem_str t.name costing_names

unfoldable pub has_macro : Term → Bool
has_macro t = contains b'%' t.value

unfoldable pub is_version : Str → Bool
is_version s = equal_fold (trim_space s) (codes "v=spf1")

-- The place of "=" in a modifier: not at the start, and before any ":".
unfoldable pub modifier_at : Str → Option ℕ
modifier_at f = elim (index b'=' f) [
  | none ↦ none
  | some eq ↦
      if ltb 0 eq && elim (index b':' f) [ none ↦ true | some colon ↦ ltb eq colon ]
      then some eq
      else none
]

-- The qualifier and what stands behind it. The source reads the first byte, which every field has.
unfoldable pub split_qualifier : Str → Str × Str
split_qualifier [] = (codes "+", [])
split_qualifier (c ∷ s) =
    if c == b'+' || c == b'-' || c == b'~' || c == b'?' then (c ∷ [], s) else (codes "+", c ∷ s)

-- A mechanism, from its field, its qualifier and the rest: a value behind ":", or a CIDR length
-- behind "/", which is dropped, or neither.
unfoldable pub mechanism : Str → Str → Str → Term
mechanism f q s = elim (index b':' s) [
  | some i ↦ record {
    raw = f;
    qualifier = q;
    name = to_lower (take i s);
    value = drop (i + 1) s;
    modifier = false;
  }
  | none ↦ elim (index b'/' s) [
    | some i ↦ record {
      raw = f;
      qualifier = q;
      name = to_lower (take i s);
      value = [];
      modifier = false;
    }
    | none ↦ record { raw = f; qualifier = q; name = to_lower s; value = []; modifier = false }
  ]
]

unfoldable pub parse_term : Str → Term
parse_term f = elim (modifier_at f) [
  | some eq ↦ record {
    raw = f;
    qualifier = [];
    name = to_lower (take eq f);
    value = drop (eq + 1) f;
    modifier = true;
  }
  | none ↦ let (q, s) = split_qualifier f in mechanism f q s
]

unfoldable pub parse_fields : List Str → List Term
parse_fields [] = []
parse_fields (v ∷ fs) = if is_version v then map parse_term fs else []

-- The empty list stands for nil.
unfoldable pub parse : Str → List Term
parse r = parse_fields (fields (trim_space r))

unfoldable pub first_field : Str → Str
first_field s = elim (fields (trim_space s)) [ [] ↦ [] | f ∷ fs ↦ f ]

unfoldable pub records : List Str → List Str
records [] = []
records (t ∷ txt) =
    let rest = records txt in if is_version (first_field t) then trim_space t ∷ rest else rest
