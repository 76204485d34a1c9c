-- ===== src/Cache/Saved/Restore.antt =====
-- A cache that was written out and read back.
use mailkit.Prelude.{
  ℕ, ◌≤◌, List, [], ◌∷◌, Bool, true, false, ◌||◌, Option, none, some, ltb, ◌==◌, if◌then◌else◌, ◌≡◌,
  refl, sym, ap, ◌∙◌, arith, Bool-cases, inl, inr,
}
use mailkit.Dnsx.{Answer}
use mailkit.Cache.{Key, Entry, Cache, Config, eq_key, entry_at, store, get, new}
use mailkit.Cache.Store.{eq_key_sound, entry_at-delete}
use mailkit.Cache.Saved.{observation, saved, write_to, load_one, load_all, read_from}

-- No entry has the key.
unfoldable pub is_new : Key → List (Key × Entry) → Bool
is_new k [] = true
is_new k ((j, e) ∷ es) = if eq_key j k then false else is_new k es

-- The keys of the entries differ, as those of a map do.
abbrev pub AreDistinct : List (Key × Entry) → Type 0
AreDistinct [] = Unit
AreDistinct ((k, e) ∷ es) = (is_new k es ≡ true) × AreDistinct es

-- What reading back finds for a key: the entry, if it was served and neither then nor now expired.
unfoldable pub reusable : ℕ → ℕ → Option Entry → Option Entry
reusable now later none = none
reusable now later (some e) =
    if e.hits == 0 || (ltb e.expires now || ltb e.expires later) then none else some e

pub is_new-entry_at :
    (k : Key) (es : List (Key × Entry)) → is_new k es ≡ true → entry_at k es ≡ none
unfolding is_new entry_at
is_new-entry_at k [] h = refl
is_new-entry_at k ((j, e) ∷ es) h = ground (arith, is_new-entry_at k es)

entry_at-store :
    (j k : Key) (e : Entry) (es : List (Key × Entry))
    → entry_at j (store k e es) ≡ (if eq_key k j then some e else entry_at j es)
unfolding entry_at store
entry_at-store j k e es = elim (Bool-cases (eq_key k j)) [
  | inl q ↦ rw (q) refl
  | inr q ↦ rw (q) (entry_at-delete j k es q)
]

entry_at-load_one :
    (later : ℕ) (j k : Key) (e : Entry) (fs : List (Key × Entry))
    → entry_at k (load_one later (observation [] j e) fs) ≡ (
        if ltb e.expires later then entry_at k fs else if eq_key j k then some e else entry_at k fs)
unfolding load_one observation
entry_at-load_one later j k e fs = elim (Bool-cases (ltb e.expires later)) [
  | inl q ↦ rw (q) refl
  | inr q ↦ rw (q) (entry_at-store k j e fs)
]

-- What the file says of a key goes before what the cache said of it.
unfoldable pub or_else : Option Entry → Option Entry → Option Entry
or_else none f = f
or_else (some e) f = some e

module _ (now later : ℕ) (e : Entry) where
  reusable_not : (e.hits == 0 || ltb e.expires now) ≡ true → reusable now later (some e) ≡ none
  unfolding reusable
  reusable_not h = ground arith

  reusable_kept :
      (e.hits == 0 || ltb e.expires now) ≡ false
      → reusable now later (some e) ≡ (if ltb e.expires later then none else some e)
  unfolding reusable
  reusable_kept h = ground arith

  -- The entry that an observation became, in front of those of before.
  or_else-kept :
      (h : (e.hits == 0 || ltb e.expires now) ≡ false) (f : Option Entry)
      → (if ltb e.expires later then f else some e) ≡ or_else (reusable now later (some e)) f
  unfolding or_else
  or_else-kept h f = elim (Bool-cases (ltb e.expires later)) [
    | inl q ↦ rw (reusable_kept h, q) refl
    | inr q ↦ rw (reusable_kept h, q) refl
  ]

both : (b : Bool) (o : Option Entry) → (if b then o else o) ≡ o
both true o = refl
both false o = refl

load_all-saved :
    (now later : ℕ) (k : Key) (es fs : List (Key × Entry))
    → AreDistinct es
    → entry_at k (load_all later (saved now es) fs)
      ≡ or_else (reusable now later (entry_at k es)) (entry_at k fs)
unfolding load_all saved reusable or_else entry_at
load_all-saved now later k [] fs d = refl
load_all-saved now later k ((j, e) ∷ es) fs (fresh, d) =
    let gone = λ (q : eq_key j k ≡ true).
      is_new-entry_at k es (sym (ap (λ x. is_new x es) (eq_key_sound j k q)) ∙ fresh) in
    elim (Bool-cases (e.hits == 0 || ltb e.expires now)) [
      | inl out ↦
          let rest = load_all-saved now later k es fs d in
          elim (Bool-cases (eq_key j k)) [
            | inl q ↦ rw (out, q, reusable_not now later e out) (rw (gone q) at rest)
            | inr q ↦ rw (out, q) rest
          ]
      | inr kept ↦
          let fs' = load_one later (observation [] j e) fs in
          let rest = load_all-saved now later k es fs' d in
          let one = entry_at-load_one later j k e fs in
          elim (Bool-cases (eq_key j k)) [
            | inl q ↦
                let first = rw (gone q) at rest in
                let here = rw (q) at one in
                rw (kept, q) (first ∙ here ∙ or_else-kept now later e kept (entry_at k fs))
            | inr q ↦
                let here = rw (q) at one in
                let same = here ∙ both (ltb e.expires later) (entry_at k fs) in
                rw (kept, q) (rw same at rest)
          ]
    ]

-- The answer that `get` gives, from the entry.
unfoldable answer_at : ℕ → Option Entry → Option Answer
answer_at later none = none
answer_at later (some e) = if ltb e.expires later then none else some e.answer

get-answer_at :
    (k : Key) (later : ℕ) (c : Cache) → (get k later c).0 ≡ answer_at later (entry_at k c.entries)
unfolding get answer_at
get-answer_at k later c = ground arith

-- Whether an entry was ever served.
unfoldable pub was_served : Option Entry → Bool
was_served none = false
was_served (some e) = ltb 0 e.hits

answer_at-reusable :
    (now later : ℕ) (o : Option Entry)
    → now ≤ later
    → answer_at later (or_else (reusable now later o) none)
      ≡ (if was_served o then answer_at later o else none)
unfolding answer_at or_else reusable was_served
answer_at-reusable now later none h = refl
answer_at-reusable now later (some e) h = ground arith

-- A new cache that reads what another wrote out before answers a key as that one would at the same
-- time, if that one had served it, and no other key.
pub read_from-write_to :
    (cfg : Config) (c : Cache) (k : Key) (now later : ℕ)
    → AreDistinct c.entries
    → now ≤ later
    → (get k later (read_from later (some (write_to now c)) (new cfg))).0
      ≡ (if was_served (entry_at k c.entries) then (get k later c).0 else none)
unfolding read_from write_to new entry_at
read_from-write_to cfg c k now later d h =
    let restored = read_from later (some (write_to now c)) (new cfg) in
    get-answer_at k later restored
    ∙ ap (answer_at later) (load_all-saved now later k c.entries [] d)
    ∙ rw (get-answer_at k later c) (answer_at-reusable now later (entry_at k c.entries) h)
