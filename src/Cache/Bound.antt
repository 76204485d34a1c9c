-- ===== src/Cache/Bound.antt =====
-- How many entries the operations leave.
use mailkit.Prelude.{
  ℕ, ◌/◌, ◌≤◌, ◌<◌, List, [], ◌∷◌, true, some, length, ◌≡◌, refl, arith, inl, inr, Bool-cases,
  Option-cases, All,
}
use mailkit.Dnsx.{Answer}
use mailkit.Cache.{
  Key, Entry, Cache, eq_key, entry_at, delete, store, missed, served, get, unexpired, drop_to,
  evict, make_room, note_negative, put, is_waited,
}
use mailkit.Cache.Store.{eq_key_comm, delete-length}

-- A visit in this order sees every entry.
abbrev pub IsVisit : List Key → List (Key × Entry) → Type 0
IsVisit order es = All (λ e. is_waited e.0 order ≡ true) es

unexpired-length : (now : ℕ) (es : List (Key × Entry)) → length (unexpired now es) ≤ length es
unfolding unexpired
unexpired-length now [] = omega arith
unexpired-length now ((k, e) ∷ es) = ground (arith, unexpired-length now es)

unexpired-IsVisit :
    (now : ℕ) (order : List Key) (es : List (Key × Entry))
    → IsVisit order es
    → IsVisit order (unexpired now es)
unfolding unexpired
unexpired-IsVisit now order [] h = tt
unexpired-IsVisit now order ((k, e) ∷ es) h =
    ground (arith, h.0, unexpired-IsVisit now order es h.1)

-- The entries that a visit has still to see.
delete-IsVisit :
    (k : Key) (ks : List Key) (es : List (Key × Entry))
    → IsVisit (k ∷ ks) es
    → IsVisit ks (delete k es)
unfolding delete is_waited
delete-IsVisit k ks [] h = tt
delete-IsVisit k ks ((j, e) ∷ es) h =
    let rest = delete-IsVisit k ks es h.1 in
    elim (Bool-cases (eq_key j k)) [
      | inl q ↦ rw (q, delete) rest
      | inr q ↦ rw (q, delete) (ground (arith, q, h.0, eq_key_comm j k), rest)
    ]

drop_to-length :
    (target : ℕ) (order : List Key) (es : List (Key × Entry))
    → IsVisit order es
    → length (drop_to target order es) ≤ target
unfolding drop_to
drop_to-length target [] [] h = omega arith
drop_to-length target [] (e ∷ es) h = unfold is_waited in absurd (cc (h.0))
drop_to-length target (k ∷ ks) es h =
    ground (arith, drop_to-length target ks (delete k es) (delete-IsVisit k ks es h))

make_room-length :
    (now : ℕ) (order : List Key) (c : Cache)
    → 0 < c.cfg.max_entries
    → length c.entries ≤ c.cfg.max_entries
    → IsVisit order c.entries
    → length (make_room now order c).entries < c.cfg.max_entries
unfolding make_room evict
make_room-length now order c pos h v =
    let dropped =
      drop_to-length (c.cfg.max_entries / 2) order (unexpired now c.entries)
        (unexpired-IsVisit now order c.entries v) in
    ground (arith, pos, h, dropped)

pub put-length :
    (k : Key) (a : Answer) (now : ℕ) (order : List Key) (c : Cache)
    → 0 < c.cfg.max_entries
    → length c.entries ≤ c.cfg.max_entries
    → IsVisit order c.entries
    → (length (put k a now order c).entries ≤ c.cfg.max_entries)
      × ((put k a now order c).cfg ≡ c.cfg)
unfolding put store note_negative make_room evict
put-length k a now order c pos h v =
    let room = make_room-length now order (note_negative a c) in
    ground
      (arith, room, pos, h, v, delete-length k (make_room now order (note_negative a c)).entries)

delete-length_found :
    (k : Key) (es : List (Key × Entry)) (e : Entry)
    → entry_at k es ≡ some e
    → length (delete k es) < length es
unfolding entry_at delete
delete-length_found k [] e h = cc
delete-length_found k ((j, f) ∷ es) e h =
    let rest = delete-length_found k es e in ground (arith, rest, h, delete-length k es)

pub get-length :
    (k : Key) (now : ℕ) (c : Cache)
    → (length (get k now c).1.entries ≤ length c.entries) × ((get k now c).1.cfg ≡ c.cfg)
unfolding get served missed store
get-length k now c = elim (Option-cases (entry_at k c.entries)) [
  | inl e ↦ rw (e, get) (omega arith, refl)
  | inr (x, e) ↦
      let less = delete-length_found k c.entries x e in rw (e, get) (ground (arith, less))
]
