-- ===== src/Cache/Saved/Distinct.antt =====
-- The entries of a cache have different keys, as those of a Go map do.
use mailkit.Prelude.{
  ℕ, ◌+◌, ◌/◌, List, [], if◌then◌else◌, Option-cases, ◌∷◌, true, Option, none, some, leb, ltb, ◌≡◌,
  refl, arith, Bool-cases, inl, inr, length,
}
use mailkit.Dnsx.{Answer}
use mailkit.Cache.{
  Key, Entry, Cache, Config, eq_key, entry_at, delete, store, get, new, unexpired, drop_to, evict,
  make_room, note_negative, life, is_waited, put, served, missed, claim, release,
}
use mailkit.Cache.Flight.{IsReached}
use mailkit.Cache.Flight.IsReached.{fresh, looked, claimed, released, written}
use mailkit.Cache.Saved.{Observation, load_one, load_all, read_from}
use mailkit.Cache.Saved.Restore.{is_new, AreDistinct}

is_new-delete :
    (j k : Key) (es : List (Key × Entry)) → is_new j es ≡ true → is_new j (delete k es) ≡ true
unfolding is_new delete
is_new-delete j k [] h = refl
is_new-delete j k ((i, e) ∷ es) h = ground (arith, is_new-delete j k es)

deleted-is_new : (k : Key) (es : List (Key × Entry)) → is_new k (delete k es) ≡ true
unfolding is_new delete
deleted-is_new k [] = refl
deleted-is_new k ((i, e) ∷ es) = ground (arith, deleted-is_new k es)

delete-AreDistinct :
    (k : Key) (es : List (Key × Entry)) → AreDistinct es → AreDistinct (delete k es)
unfolding delete
delete-AreDistinct k [] d = tt
delete-AreDistinct k ((i, e) ∷ es) (new_key, d) =
    let rest = delete-AreDistinct k es d in
    elim (Bool-cases (eq_key i k)) [
      | inl q ↦ rw (q) rest
      | inr q ↦ rw (q) (is_new-delete i k es new_key, rest)
    ]

store-AreDistinct :
    (k : Key) (e : Entry) (es : List (Key × Entry)) → AreDistinct es → AreDistinct (store k e es)
unfolding store
store-AreDistinct k e es d = (deleted-is_new k es, delete-AreDistinct k es d)

is_new-unexpired :
    (j : Key) (now : ℕ) (es : List (Key × Entry))
    → is_new j es ≡ true
    → is_new j (unexpired now es) ≡ true
unfolding is_new unexpired
is_new-unexpired j now [] h = refl
is_new-unexpired j now ((i, e) ∷ es) h = ground (arith, is_new-unexpired j now es)

unexpired-AreDistinct :
    (now : ℕ) (es : List (Key × Entry)) → AreDistinct es → AreDistinct (unexpired now es)
unfolding unexpired
unexpired-AreDistinct now [] d = tt
unexpired-AreDistinct now ((i, e) ∷ es) (new_key, d) =
    let rest = unexpired-AreDistinct now es d in
    elim (Bool-cases (ltb e.expires now)) [
      | inl q ↦ rw (q) rest
      | inr q ↦ rw (q) (is_new-unexpired i now es new_key, rest)
    ]

drop_to-AreDistinct :
    (target : ℕ) (ks : List Key) (es : List (Key × Entry))
    → AreDistinct es
    → AreDistinct (drop_to target ks es)
unfolding drop_to
drop_to-AreDistinct target [] es d = d
drop_to-AreDistinct target (k ∷ ks) es d = elim (Bool-cases (leb (length es) target)) [
  | inl q ↦ rw (q) d
  | inr q ↦ rw (q) (drop_to-AreDistinct target ks (delete k es) (delete-AreDistinct k es d))
]

make_room-AreDistinct :
    (now : ℕ) (order : List Key) (c : Cache)
    → AreDistinct c.entries
    → AreDistinct (make_room now order c).entries
unfolding make_room evict
make_room-AreDistinct now order c d = elim (Bool-cases (leb c.cfg.max_entries (length c.entries))) [
  | inl q ↦ rw (q) (
      drop_to-AreDistinct (c.cfg.max_entries / 2) order (unexpired now c.entries)
        (unexpired-AreDistinct now c.entries d))
  | inr q ↦ rw (q) d
]

note_negative-entries : (a : Answer) (c : Cache) → (note_negative a c).entries ≡ c.entries
unfolding note_negative
note_negative-entries a c = ground arith

put-AreDistinct :
    (k : Key) (a : Answer) (now : ℕ) (order : List Key) (c : Cache)
    → AreDistinct c.entries
    → AreDistinct (put k a now order c).entries
unfolding put note_negative
put-AreDistinct k a now order c d =
    store-AreDistinct k
      (record { answer = a; expires = now + life c.cfg a; hits = 0; observed = now })
      (make_room now order (note_negative a c)).entries
      (make_room-AreDistinct now order (note_negative a c) (rw (note_negative-entries a c) d))

no_entry :
    (k : Key) (now : ℕ) (c : Cache) → entry_at k c.entries ≡ none → (get k now c).1 ≡ missed c
unfolding get
no_entry k now c h = rw (h, get) refl

some_entry :
    (k : Key) (now : ℕ) (c : Cache) (e : Entry)
    → entry_at k c.entries ≡ some e
    → (get k now c).1 ≡ (
        if ltb e.expires now
        then missed (record c { entries = delete k c.entries })
        else served k e c)
unfolding get
some_entry k now c e h = ground (arith, h)

get-AreDistinct :
    (k : Key) (now : ℕ) (c : Cache) → AreDistinct c.entries → AreDistinct (get k now c).1.entries
unfolding served missed
get-AreDistinct k now c d = elim (Option-cases (entry_at k c.entries)) [
  | inl q ↦ rw (no_entry k now c q) d
  | inr q ↦
      let e = q.0 in
      elim (Bool-cases (ltb e.expires now)) [
        | inl old ↦ rw (some_entry k now c e q.1, old) (delete-AreDistinct k c.entries d)
        | inr valid ↦
            rw (some_entry k now c e q.1, valid)
              (store-AreDistinct k (record e { hits = e.hits + 1 }) c.entries d)
      ]
]

load_one-AreDistinct :
    (now : ℕ) (p : Observation) (es : List (Key × Entry))
    → AreDistinct es
    → AreDistinct (load_one now p es)
unfolding load_one
load_one-AreDistinct now p es d = elim (Option-cases p.answer) [
  | inl q ↦ rw (q) d
  | inr q ↦ elim (Bool-cases (ltb p.expires now)) [
    | inl old ↦ rw (q.1, old) d
    | inr valid ↦
        rw (q.1, valid)
          (store-AreDistinct (record { qtype = p.qtype; name = p.name })
            (record { answer = q.0; expires = p.expires; hits = p.hits; observed = p.observed }) es
            d)
  ]
]

load_all-AreDistinct :
    (now : ℕ) (ps : List Observation) (es : List (Key × Entry))
    → AreDistinct es
    → AreDistinct (load_all now ps es)
unfolding load_all
load_all-AreDistinct now [] es d = d
load_all-AreDistinct now (p ∷ ps) es d =
    load_all-AreDistinct now ps (load_one now p es) (load_one-AreDistinct now p es d)

-- Reading a file keeps the keys different.
pub read_from-AreDistinct :
    (now : ℕ) (file : Option (List Observation)) (c : Cache)
    → AreDistinct c.entries
    → AreDistinct (read_from now file c).entries
unfolding read_from
read_from-AreDistinct now none c d = d
read_from-AreDistinct now (some ps) c d = load_all-AreDistinct now ps c.entries d

-- So do all steps of goroutines.
pub reached-AreDistinct :
    (cfg : Config) (c : Cache) (asking : List Key) → IsReached cfg c asking → AreDistinct c.entries
unfolding new claim release
reached-AreDistinct cfg _ _ fresh = tt
reached-AreDistinct cfg _ _ (looked k now c asking h) =
    get-AreDistinct k now c (reached-AreDistinct cfg c asking h)
reached-AreDistinct cfg _ _ (claimed k c asking h) =
    let d = reached-AreDistinct cfg c asking h in
    elim (Bool-cases (is_waited k c.waiters)) [ inl q ↦ rw (q) d | inr q ↦ rw (q) d ]
reached-AreDistinct cfg _ _ (released k c asking h w) = reached-AreDistinct cfg c asking h
reached-AreDistinct cfg _ _ (written k a now order c asking h v) =
    put-AreDistinct k a now order c (reached-AreDistinct cfg c asking h)
