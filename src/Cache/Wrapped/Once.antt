-- ===== src/Cache/Wrapped/Once.antt =====
-- dnsx/cache/cache.go: how often the wrapped resolver is asked the same.
use mailkit.Prelude.{
  ℕ, suc, ◌+◌, ◌≤◌, ◌<◌, List, [], ◌∷◌, true, false, none, some, ltb, leb, length, if◌then◌else◌,
  ◌≡◌, sym, ap, ◌∙◌, subst, arith, Bool-cases, Option-cases, inl, inr,
}
use mathlib.Core.Option.{some-injective}
use mailkit.Dnsx.{Answer, Result}
use mailkit.Cache.{
  Key, Entry, Cache, eq_key, entry_at, delete, store, missed, served, get, make_room, note_negative,
  put, is_waited, claim, release, query, life,
}
use mailkit.Cache.Store.{eq_key_sound, entry_at-delete, delete-length}
use mailkit.Cache.Bound.{get-length}
use mailkit.Cache.Flight.{IsAlone, get-waiters, put-waiters}
use mailkit.Cache.Query.{claim-release, get_cfg, query-hit, query-ok, entries, settings}
use mailkit.Cache.Entries.{entry_of}
use mailkit.Cache.Fresh.{put_cfg}

entry_at-store :
    (j k : Key) (e : Entry) (es : List (Key × Entry))
    → entry_at j (store k e es) ≡ (if eq_key k j then some e else entry_at j es)
unfolding entry_at store
entry_at-store j k e es = ground (arith, entry_at-delete j k es)

-- Two equal keys have the same entry.
same_entry :
    (j k : Key) (d e : Entry) (es : List (Key × Entry))
    → eq_key k j ≡ true
    → entry_at j es ≡ some d
    → entry_at k es ≡ some e
    → d ≡ e
same_entry j k d e es q f g =
    some-injective d e (sym f ∙ ap (λ x. entry_at x es) (sym (eq_key_sound k j q)) ∙ g)

module _ (latest : ℕ) where
  -- A key has an entry that has not expired at the latest time.
  unfoldable pub IsKept : Key → List (Key × Entry) → Type 0
  IsKept k es = (e : Entry) × (entry_at k es ≡ some e) × (latest ≤ e.expires)

  IsKept-store :
      (j k : Key) (e : Entry) (es : List (Key × Entry))
      → (eq_key k j ≡ true → latest ≤ e.expires)
      → (eq_key k j ≡ false → IsKept j es)
      → IsKept j (store k e es)
  unfolding IsKept
  IsKept-store j k e es here other = elim (Bool-cases (eq_key k j)) [
    | inl q ↦ (e, ground (arith, entry_at-store j k e es, q), here q)
    | inr q ↦ let (d, f, l) = other q in (d, ground (arith, entry_at-store j k e es, q, f), l)
  ]

  IsKept-delete :
      (j k : Key) (es : List (Key × Entry))
      → eq_key k j ≡ false
      → IsKept j es
      → IsKept j (delete k es)
  unfolding IsKept
  IsKept-delete j k es q (d, f, l) = (d, entry_at-delete j k es q ∙ f, l)

  -- A read of a key keeps the others, and it too if it is kept.
  get-IsKept :
      (j k : Key) (now : ℕ) (c : Cache)
      → (eq_key k j ≡ true → now ≤ latest)
      → IsKept j c.entries
      → IsKept j (get k now c).1.entries
  unfolding get missed served IsKept
  get-IsKept j k now c soon (d, f, l) = elim (Option-cases (entry_at k c.entries)) [
    | inl q ↦ rw (q, get) (d, f, l)
    | inr (e, q) ↦ elim (Bool-cases (ltb e.expires now)) [
      | inl old ↦ elim (Bool-cases (eq_key k j)) [
        | inl same ↦
            let one : d.expires ≡ e.expires =
              ap (λ (x : Entry). x.expires) (same_entry j k d e c.entries same f q) in
            let now_or_before = soon same in absurd (ground (arith, old, one, l, now_or_before))
        | inr other ↦ rw (q, old, get) (IsKept-delete j k c.entries other (d, f, l))
      ]
      | inr live ↦
          rw (q, live, get)
            (IsKept-store j k (record e { hits = e.hits + 1 }) c.entries
              (λ same.
                let one : d.expires ≡ e.expires =
                  ap (λ (x : Entry). x.expires) (same_entry j k d e c.entries same f q) in
                omega (arith, one, l))
              (λ other. (d, f, l)))
    ]
  ]

  -- A key that is kept is found.
  get-found :
      (k : Key) (now : ℕ) (c : Cache)
      → now ≤ latest
      → IsKept k c.entries
      → (a : Answer) × ((get k now c).0 ≡ some a)
  unfolding get IsKept
  get-found k now c soon (e, f, l) = (e.answer, ground (arith, f, l, soon))

  -- Nothing is in flight, every key that was asked about is kept, and none was asked about twice.
  pub record IsCovered (c : Cache) (log : List Key) : Type 0 where
    pub kept : (k : Key) → is_waited k log ≡ true → IsKept k c.entries
    pub idle : c.waiters ≡ []
    pub alone : IsAlone log

  -- A write into a cache with room keeps the keys that are kept, and its own.
  put-IsKept :
      (j k : Key) (a : Answer) (now : ℕ) (order : List Key) (c : Cache)
      → length c.entries < c.cfg.max_entries
      → (eq_key k j ≡ true → latest ≤ now + life c.cfg a)
      → (eq_key k j ≡ false → IsKept j c.entries)
      → IsKept j (put k a now order c).entries
  unfolding put make_room note_negative
  put-IsKept j k a now order c room here other =
      let roomy : leb c.cfg.max_entries (length c.entries) ≡ false = ground arith in
      let same : (make_room now order (note_negative a c)).entries ≡ c.entries =
        ground (arith, roomy) in
      subst (λ l. IsKept j (store k (entry_of c a now) l)) (sym same)
        (IsKept-store j k (entry_of c a now) c.entries here other)

  put-grown :
      (k : Key) (a : Answer) (now : ℕ) (order : List Key) (c : Cache)
      → length c.entries < c.cfg.max_entries
      → length (put k a now order c).entries ≤ suc (length c.entries)
  unfolding put make_room note_negative store
  put-grown k a now order c room = ground (arith, room, delete-length k c.entries)

  module _ (inner : Key → Result Answer) (k : Key) (now : ℕ) (order : List Key) (c : Cache)
      (log : List Key) (h : IsCovered c log) (soon : now ≤ latest)
      (room : length c.entries < c.cfg.max_entries) where
    hit-IsCovered : IsCovered (get k now c).1 log
    hit-IsCovered = record {
      kept = λ j w. get-IsKept j k now c (λ _. soon) (h.kept j w);
      idle = get-waiters k now c ∙ h.idle;
      alone = h.alone;
    }

    new_key : (get k now c).0 ≡ none → is_waited k log ≡ false
    new_key miss = elim (Bool-cases (is_waited k log)) [
      | inl w ↦
          let (a, found) = get-found k now c soon (h.kept k w) in
          absurd (ground (arith, miss, found))
      | inr q ↦ q
    ]

    module _ (miss : (get k now c).0 ≡ none) where
      unwaited : is_waited k c.waiters ≡ false
      unfolding is_waited
      unwaited = ap (λ l. is_waited k l) h.idle

      abbrev free : Cache
      free = release k (claim k (get k now c).1).1

      free_entries : free.entries ≡ (get k now c).1.entries
      free_entries = entries inner k now order c log miss unwaited

      free_cfg : free.cfg ≡ c.cfg
      free_cfg = settings inner k now order c log miss unwaited

      free_room : length free.entries < free.cfg.max_entries
      free_room =
          let less = (get-length k now c).0 in
          let same : length free.entries ≡ length (get k now c).1.entries =
            ap length free_entries in
          let bound : free.cfg.max_entries ≡ c.cfg.max_entries = ap (λ x. x.max_entries) free_cfg in
          omega (arith, less, same, bound, room)

      miss-IsCovered :
          (a : Answer) → latest ≤ now + life c.cfg a → IsCovered (put k a now order free) (k ∷ log)
      unfolding is_waited
      miss-IsCovered a long = record {
        kept = λ j w.
            put-IsKept j k a now order free free_room
              (λ _. subst (λ x. latest ≤ now + life x a) (sym free_cfg) long)
              (λ other.
                subst (λ l. IsKept j l) (sym free_entries)
                  (get-IsKept j k now c (λ _. soon) (h.kept j (ground (arith, w, other)))));
        idle =
            put-waiters k a now order free
            ∙ claim-release k (get k now c).1 (get-waiters k now c ∙ h.idle);
        alone = (new_key miss, h.alone);
      }

    -- A question is put to the wrapped resolver only if it was not before, and is kept then.
    pub query-IsCovered :
        (a : Answer)
        → inner k ≡ Result.ok a
        → latest ≤ now + life c.cfg a
        → let t = query inner k now order (c, log) in
          IsCovered t.1 t.2 × (length t.1.entries ≤ suc (length c.entries)) × (t.1.cfg ≡ c.cfg)
    query-IsCovered a answers long = elim (Option-cases (get k now c).0) [
      | inl miss ↦
          let less = (get-length k now c).0 in
          let same : length (free miss).entries ≡ length (get k now c).1.entries =
            ap length (free_entries miss) in
          let grown = put-grown k a now order (free miss) (free_room miss) in
          rw (query-ok inner k now order c log miss (unwaited miss) a answers) (
            miss-IsCovered miss a long,
            omega (arith, less, same, grown),
            put_cfg k a now order (free miss) ∙ free_cfg miss,
          )
      | inr (b, hit) ↦
          let less = (get-length k now c).0 in
          rw (query-hit inner k now order c log b hit)
            (hit-IsCovered, omega (arith, less), get_cfg k now c)
    ]
