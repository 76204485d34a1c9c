-- ===== src/Cache/Saved.antt =====
-- dnsx/cache/cache.go: what a cache writes out, and what it reads back. A file is the list of the
-- observations in it, `none` where its text is not the JSON of one. The list of entries stands in
-- the order in which the map is visited, and sort.Slice is a parameter.
pub mod Restore
pub mod Distinct
pub mod Listed
mod Examples
use mailkit.Prelude.{
  ℕ, List, [], ◌∷◌, Bool, true, false, not, ◌&&◌, ◌||◌, Option, none, some, ltb, ◌==◌,
  if◌then◌else◌, length,
}
use mailkit.Text.{Str, codes, eq_str}
use mailkit.Text.Order.{lt_str}
use mailkit.Sorting.{Slice}
use mailkit.Dnsx.{Answer}
use mailkit.Cache.{Key, Entry, Cache, entry_at, store, key_of}

-- A file that was read may hold no answer.
pub record Observation : Type 0 where
  pub kind : Str
  pub qtype : ℕ
  pub name : Str
  pub expires : ℕ
  pub observed : ℕ
  pub hits : ℕ
  pub answer : Option Answer

unfoldable pub observation : Str → Key → Entry → Observation
observation kind k e = record {
  kind = kind;
  qtype = k.qtype;
  name = k.name;
  expires = e.expires;
  observed = e.observed;
  hits = e.hits;
  answer = some e.answer;
}

unfoldable pub saved : ℕ → List (Key × Entry) → List Observation
saved now [] = []
saved now ((k, e) ∷ es) =
    let rest = saved now es in
    if e.hits == 0 || ltb e.expires now then rest else observation [] k e ∷ rest

unfoldable pub write_to : ℕ → Cache → List Observation
write_to now c = saved now c.entries

-- An observation becomes an entry, unless it is expired or without an answer.
unfoldable pub load_one : ℕ → Observation → List (Key × Entry) → List (Key × Entry)
load_one now p es = elim p.answer [
  | none ↦ es
  | some a ↦
      if ltb p.expires now
      then es
      else store (record { qtype = p.qtype; name = p.name })
          (record { answer = a; expires = p.expires; hits = p.hits; observed = p.observed }) es
]

unfoldable pub load_all : ℕ → List Observation → List (Key × Entry) → List (Key × Entry)
load_all now [] es = es
load_all now (p ∷ ps) es = load_all now ps (load_one now p es)

-- The cache behind `ReadFrom`; a text that is not read leaves it as it is.
unfoldable pub read_from : ℕ → Option (List Observation) → Cache → Cache
read_from now none c = c
read_from now (some ps) c = record c { entries = load_all now ps c.entries }

unfoldable pub len : Cache → ℕ
len c = length c.entries

abbrev pub kind_observation : Str
kind_observation = codes "observation"

pub record Retention : Type 0 where
  pub min_hits : ℕ
  pub keep_expired : Bool

unfoldable pub retained : Retention → ℕ → List (Key × Entry) → List Observation
retained r now [] = []
retained r now ((k, e) ∷ es) =
    let rest = retained r now es in
    if ltb e.hits r.min_hits
    then rest
    else if not r.keep_expired && ltb e.expires now
    then rest
    else observation kind_observation k e ∷ rest

-- The test of the sort of `Export`.
unfoldable pub listed_before : Observation → Observation → Bool
listed_before p q = if not (eq_str p.name q.name) then lt_str p.name q.name else ltb p.qtype q.qtype

unfoldable pub export : Slice Observation → Retention → ℕ → Cache → List Observation
export slice r now c = slice listed_before (retained r now c.entries)

unfoldable pub observed : Str → ℕ → Cache → Option Observation
observed name qtype c =
    let k = key_of name qtype in
    elim (entry_at k c.entries) [ none ↦ none | some e ↦ some (observation kind_observation k e) ]
