-- ===== src/Cache/Saved/Listed.antt =====
-- An export does not show the order in which the map was visited.
use mathlib.Core.List.{Perm, Mem, mem-cons, not-mem-nil, filter_map}
use mathlib.Core.List.Perm
use mathlib.Core.Logic.Or
use mathlib.Core.Option.{none-ne-some, some-injective}
use mailkit.Prelude.{
  ℕ, List, [], ◌∷◌, true, false, not, ◌&&◌, Option, none, some, ltb, if◌then◌else◌, ◌≡◌, ◌⊎◌, refl,
  sym, ap, ◌∙◌, arith, Bool-cases, inl, inr,
}
use mailkit.Text.{Str, eq_str}
use mailkit.Text.Equality.{eq_str_sound, eq_str_comm, eq_str_refl}
use mailkit.Text.Order.{lt_str, lt_str_asymm, lt_str_trans, lt_str_antisymm}
use mailkit.Sorting.{IsOrder, Slice, IsSlice}
use mailkit.Sorting.Unique.{IsOrdered-eq_of_mem}
use mailkit.Cache.{Key, Entry, Cache, eq_key, entry_at}
use mailkit.Cache.Store.{eq_key_refl, eq_key_sound}
use mailkit.Cache.Saved.{
  Observation, Retention, observation, kind_observation, retained, listed_before, export,
}
use mailkit.Cache.Saved.Restore.{is_new, AreDistinct, is_new-entry_at}

-- The loop of `Export` for one entry.
unfoldable line_of : Retention → ℕ → Key × Entry → Option Observation
line_of r now (k, e) =
    if ltb e.hits r.min_hits
    then none
    else if not r.keep_expired && ltb e.expires now
    then none
    else some (observation kind_observation k e)

retained-filter_map :
    (r : Retention) (now : ℕ) (es : List (Key × Entry))
    → retained r now es ≡ filter_map (line_of r now) es
unfolding retained line_of filter_map
retained-filter_map r now [] = refl
retained-filter_map r now ((k, e) ∷ es) = ground (arith, retained-filter_map r now es)

retained-perm :
    (r : Retention) (now : ℕ) {es fs : List (Key × Entry)}
    → Perm es fs
    → Perm (retained r now es) (retained r now fs)
retained-perm r now {es} {fs} p =
    rw (retained-filter_map r now es, retained-filter_map r now fs)
      (Perm.filter_map (line_of r now) p)

listed_before_asymm : (p q : Observation) → listed_before p q ≡ true → listed_before q p ≡ false
unfolding listed_before
listed_before_asymm p q h = ground (arith, lt_str_asymm p.name q.name, eq_str_comm p.name q.name)

-- Texts that are not equal are one before the other.
lt_str_total : (s t : Str) → eq_str s t ≡ false → lt_str s t ≡ false → lt_str t s ≡ true
lt_str_total s t h k = elim (Bool-cases (lt_str t s)) [
  | inl q ↦ q
  | inr q ↦
      let same = lt_str_antisymm s t k q in
      absurd (ground (arith, h, eq_str_refl s, ap (eq_str s) same))
]

same_lt_str : (s t u : Str) → eq_str s t ≡ true → lt_str s u ≡ lt_str t u
same_lt_str s t u h = ap (λ x. lt_str x u) (eq_str_sound s t h)

same_eq_str : (s t u : Str) → eq_str s t ≡ true → eq_str s u ≡ eq_str t u
same_eq_str s t u h = ap (λ x. eq_str x u) (eq_str_sound s t h)

eq_lt_str : (s t : Str) → eq_str s t ≡ true → lt_str s t ≡ false
eq_lt_str s t h =
    let same = eq_str_sound s t h in
    elim (Bool-cases (lt_str s t)) [
      | inl q ↦
          absurd
            (ground (arith, q, lt_str_asymm s t, ap (lt_str s) same, ap (λ x. lt_str x s) same))
      | inr q ↦ q
    ]

listed_before_trans :
    (p q r : Observation)
    → listed_before q p ≡ false
    → listed_before r q ≡ false
    → listed_before r p ≡ false
unfolding listed_before
listed_before_trans p q r h k = ground (
  arith,
  h,
  k,
  eq_lt_str q.name p.name,
  eq_lt_str r.name q.name,
  lt_str_trans p.name q.name r.name,
  lt_str_total q.name p.name,
  same_lt_str r.name p.name q.name,
  same_eq_str r.name p.name q.name,
  eq_str_comm p.name q.name,
)

listed_before-IsOrder : IsOrder listed_before
listed_before-IsOrder = record { asymm = listed_before_asymm; trans = listed_before_trans }

abbrev key_in : Observation → Key
key_in p = record { qtype = p.qtype; name = p.name }

listed_before_antisymm :
    (p q : Observation)
    → listed_before p q ≡ false
    → listed_before q p ≡ false
    → key_in p ≡ key_in q
unfolding listed_before
listed_before_antisymm p q h k =
    let n : p.name ≡ q.name = ground (
      arith,
      eq_str_sound p.name q.name,
      eq_str_comm p.name q.name,
      lt_str_antisymm p.name q.name,
    ) in
    let t : p.qtype ≡ q.qtype =
      ground (arith, h, k, eq_str_refl p.name, ap (eq_str p.name) n, eq_str_comm p.name q.name) in
    cc (n, t)

-- What an export says of a key.
unfoldable shown : List (Key × Entry) → Key → Option Observation
shown es k = elim (entry_at k es) [ none ↦ none | some e ↦ some (observation kind_observation k e) ]

-- An entry in front, of a key that is new, changes nothing of the others.
later :
    (k : Key) (e : Entry) (es : List (Key × Entry)) {p : Observation}
    → is_new k es ≡ true
    → shown es (key_in p) ≡ some p
    → shown ((k, e) ∷ es) (key_in p) ≡ some p
unfolding shown entry_at
later k e es {p} fresh h = elim (Bool-cases (eq_key k (key_in p))) [
  | inl q ↦
      let gone : entry_at (key_in p) es ≡ none =
        ap (λ x. entry_at x es) (sym (eq_key_sound k (key_in p) q)) ∙ is_new-entry_at k es fresh in
      absurd (none-ne-some p (rw (gone, shown) at h))
  | inr q ↦ rw (q, shown) h
]

shown-head :
    (k : Key) (e : Entry) (es : List (Key × Entry))
    → shown ((k, e) ∷ es) k ≡ some (observation kind_observation k e)
unfolding shown entry_at
shown-head k e es = rw (eq_key_refl k, shown) refl

-- What the loop does for an entry.
retained-cases :
    (r : Retention) (now : ℕ) (k : Key) (e : Entry) (es : List (Key × Entry))
    → (retained r now ((k, e) ∷ es) ≡ retained r now es)
      ⊎ (retained r now ((k, e) ∷ es) ≡ (observation kind_observation k e ∷ retained r now es))
unfolding retained
retained-cases r now k e es = elim (Bool-cases (ltb e.hits r.min_hits)) [
  | inl few ↦ inl (rw (few) refl)
  | inr enough ↦ elim (Bool-cases (not r.keep_expired && ltb e.expires now)) [
    | inl old ↦ inl (ground (arith, enough, old))
    | inr valid ↦ inr (ground (arith, enough, valid))
  ]
]

nothing : (r : Retention) (now : ℕ) {p : Observation} → Mem p (retained r now []) → ⊥
unfolding retained
nothing r now m = not-mem-nil m

mem-shown :
    (r : Retention) (now : ℕ) (es : List (Key × Entry)) {p : Observation}
    → AreDistinct es
    → Mem p (retained r now es)
    → shown es (key_in p) ≡ some p
unfolding observation
mem-shown r now [] d m = absurd (nothing r now m)
mem-shown r now ((k, e) ∷ es) {p} (fresh, d) m =
    let rest = λ (n : Mem p (retained r now es)). later k e es fresh (mem-shown r now es d n) in
    elim (retained-cases r now k e es) [
      | inl q ↦ rest (rw q at m)
      | inr q ↦
          Or.elim (hlevel) (mem-cons.0 (rw q at m))
            (λ (s : p ≡ observation kind_observation k e). rw s (shown-head k e es)) rest
    ]

-- Two caches with the same entries export the same list, in whatever order their maps are visited.
pub export-perm :
    (slice : Slice Observation) (r : Retention) (now : ℕ) (c c' : Cache)
    → IsSlice slice
    → AreDistinct c.entries
    → Perm c.entries c'.entries
    → export slice r now c ≡ export slice r now c'
unfolding export
export-perm slice r now c c' law d p =
    let l = retained r now c.entries in
    let l' = retained r now c'.entries in
    IsOrdered-eq_of_mem listed_before listed_before-IsOrder (slice listed_before l)
      (slice listed_before l')
      (λ a b m n h k. some-injective a b (
        sym (mem-shown r now c.entries d ((Perm.mem_iff (law.rearranges listed_before l)).0 m))
        ∙ ap (shown c.entries) (listed_before_antisymm a b h k)
        ∙ mem-shown r now c.entries d ((Perm.mem_iff (law.rearranges listed_before l)).0 n)))
      (law.orders listed_before l listed_before-IsOrder)
      (law.orders listed_before l' listed_before-IsOrder)
      (Perm.trans (law.rearranges listed_before l)
        (Perm.trans (retained-perm r now p) (Perm.symm (law.rearranges listed_before l'))))
