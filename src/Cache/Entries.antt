-- ===== src/Cache/Entries.antt =====
-- dnsx/cache/cache.go: what holds of every entry, and is kept by the operations.
use mailkit.Prelude.{
  ℕ, ◌+◌, ◌≤◌, List, [], ◌∷◌, some, ltb, leb, length, ◌/◌, ◌≡◌, sym, subst, arith, Bool-cases,
  Option-cases, inl, inr, All,
}
use mathlib.Core.Option.{some-injective}
use mailkit.Dnsx.{Answer}
use mailkit.Cache.{
  Key, Entry, Cache, eq_key, entry_at, delete, store, missed, served, get, unexpired, drop_to,
  evict, note_negative, make_room, put, life,
}
use mailkit.Cache.Store.{eq_key_sound}

-- The entry that an answer makes.
abbrev pub entry_of : Cache → Answer → ℕ → Entry
entry_of c a now = record { answer = a; expires = now + life c.cfg a; hits = 0; observed = now }

module _ {ℓ} (P : Key × Entry → Type ℓ) where
  pub entry_at-All :
      (k : Key) (e : Entry) (es : List (Key × Entry)) → All P es → entry_at k es ≡ some e → P (k, e)
  unfolding entry_at
  entry_at-All k e [] h q = cc
  entry_at-All k e ((j, d) ∷ es) (t, h) q = elim (Bool-cases (eq_key j k)) [
    | inl s ↦
        let found : some d ≡ some e = ground (arith, q, s) in
        subst (λ x. P (k, x)) (some-injective d e found)
          (subst (λ x. P (x, d)) (eq_key_sound j k s) t)
    | inr s ↦ entry_at-All k e es h (ground (arith, q, s))
  ]

  pub delete-All : (k : Key) (es : List (Key × Entry)) → All P es → All P (delete k es)
  unfolding delete
  delete-All k [] h = tt
  delete-All k ((j, d) ∷ es) (t, h) =
      let rest = delete-All k es h in
      elim (Bool-cases (eq_key j k)) [
        | inl s ↦ rw (s, delete) rest
        | inr s ↦ rw (s, delete) (t, rest)
      ]

  unexpired-All : (now : ℕ) (es : List (Key × Entry)) → All P es → All P (unexpired now es)
  unfolding unexpired
  unexpired-All now [] h = tt
  unexpired-All now ((j, d) ∷ es) (t, h) =
      let rest = unexpired-All now es h in
      elim (Bool-cases (ltb d.expires now)) [
        | inl s ↦ rw (s, unexpired) rest
        | inr s ↦ rw (s, unexpired) (t, rest)
      ]

  drop_to-All :
      (target : ℕ) (ks : List Key) (es : List (Key × Entry))
      → All P es
      → All P (drop_to target ks es)
  unfolding drop_to
  drop_to-All target [] es h = h
  drop_to-All target (k ∷ ks) es h =
      let rest = drop_to-All target ks (delete k es) (delete-All k es h) in
      elim (Bool-cases (leb (length es) target)) [
        | inl s ↦ rw (s, drop_to) h
        | inr s ↦ rw (s, drop_to) rest
      ]

  make_room-All :
      (now : ℕ) (order : List Key) (c : Cache)
      → All P c.entries
      → All P (make_room now order c).entries
  unfolding make_room evict
  make_room-All now order c h =
      let left =
        drop_to-All (c.cfg.max_entries / 2) order (unexpired now c.entries)
          (unexpired-All now c.entries h) in
      elim (Bool-cases (leb c.cfg.max_entries (length c.entries))) [
        | inl full ↦ rw (full, make_room) left
        | inr room ↦ rw (room, make_room) h
      ]

  -- A write keeps what holds of every entry, if it holds of the new one.
  pub put-All :
      (k : Key) (a : Answer) (now : ℕ) (order : List Key) (c : Cache)
      → P (k, entry_of c a now)
      → All P c.entries
      → All P (put k a now order c).entries
  unfolding put store
  put-All k a now order c t h =
      let same : (note_negative a c).entries ≡ c.entries = unfold note_negative in ground arith in
      (
        t,
        delete-All k _
            (make_room-All now order (note_negative a c) (subst (λ l. All P l) (sym same) h)),
      )

  -- A read counts a hit in the entry that it serves, and changes no other.
  pub get-All :
      (k : Key) (now : ℕ) (c : Cache)
      → ((e : Entry) → P (k, e) → P (k, record e { hits = e.hits + 1 }))
      → All P c.entries
      → All P (get k now c).1.entries
  unfolding get missed served store
  get-All k now c bump h = elim (Option-cases (entry_at k c.entries)) [
    | inl q ↦ rw (q, get) h
    | inr (e, q) ↦
        let fewer = delete-All k c.entries h in
        elim (Bool-cases (ltb e.expires now)) [
          | inl s ↦ rw (q, s, get) fewer
          | inr s ↦ rw (q, s, get) (bump e (entry_at-All k e c.entries h q), fewer)
        ]
  ]

  -- What is served is the answer of an entry that has not expired.
  pub get-served :
      (k : Key) (now : ℕ) (c : Cache) (a : Answer)
      → All P c.entries
      → (get k now c).0 ≡ some a
      → (e : Entry) × P (k, e) × (e.answer ≡ a) × (now ≤ e.expires)
  unfolding get
  get-served k now c a h g = elim (Option-cases (entry_at k c.entries)) [
    | inl q ↦ absurd (ground (arith, g, q))
    | inr (e, q) ↦
        let same : some e.answer ≡ some a = ground (arith, g, q) in
        (e, entry_at-All k e c.entries h q, some-injective e.answer a same, ground (arith, g, q))
  ]
