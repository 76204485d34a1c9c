-- ===== src/Cache/Store.antt =====
-- The map of entries, and what a lookup finds behind a write.
use mailkit.Prelude.{
  ℕ, ◌+◌, ◌≤◌, ◌<◌, List, [], ◌∷◌, true, false, none, some, leb, if◌then◌else◌, length, ◌≡◌, ◌≢◌,
  refl, ◌∙◌, ap, arith, inl, inr, Bool-cases,
}
use mailkit.Text.Equality.{eq_str_refl, eq_str_sound, eq_str_comm}
use mailkit.Dnsx.{Answer, is_void}
use mailkit.Cache.{
  Key, Entry, Cache, Settings, eq_key, entry_at, delete, store, get, life, make_room, note_negative,
  put,
}

pub eq_key_refl : (k : Key) → eq_key k k ≡ true
unfolding eq_key
eq_key_refl k = ground (arith, eq_str_refl k.name)

pub eq_key_sound : (j k : Key) → eq_key j k ≡ true → j ≡ k
unfolding eq_key
eq_key_sound j k h =
    let t : j.qtype ≡ k.qtype = ground arith in
    let n : j.name ≡ k.name = eq_str_sound j.name k.name (ground arith) in cc (t, n)

pub eq_key_comm : (j k : Key) → eq_key j k ≡ eq_key k j
unfolding eq_key
eq_key_comm j k = ground (arith, eq_str_comm j.name k.name)

pub delete-length : (k : Key) (es : List (Key × Entry)) → length (delete k es) ≤ length es
unfolding delete
delete-length k [] = omega arith
delete-length k ((j, e) ∷ es) = ground (arith, delete-length k es)

pub entry_at-delete :
    (j k : Key) (es : List (Key × Entry))
    → eq_key k j ≡ false
    → entry_at j (delete k es) ≡ entry_at j es
unfolding entry_at delete
entry_at-delete j k [] h = refl
entry_at-delete j k ((i, e) ∷ es) h =
    let rest = entry_at-delete j k es h in
    elim (Bool-cases (eq_key i k)) [
      | inl q ↦
          let same : eq_key i j ≡ false = ap (λ x. eq_key x j) (eq_key_sound i k q) ∙ h in
          rw (q, same) rest
      | inr q ↦ ground (arith, rest)
    ]

-- A key that was just written is found, with its answer, until its life is over; then it is not.
pub get-put :
    (k : Key) (a : Answer) (now later : ℕ) (order : List Key) (c : Cache)
    → (get k later (put k a now order c)).0
      ≡ (if leb later (now + life c.cfg a) then some a else none)
unfolding get put entry_at store
get-put k a now later order c = ground (arith, eq_key_refl k)

-- While there is room, a write changes what is found for no other key.
pub get-put_other :
    (j k : Key) (a : Answer) (now later : ℕ) (order : List Key) (c : Cache)
    → j ≢ k
    → length c.entries < c.cfg.max_entries
    → (get j later (put k a now order c)).0 ≡ (get j later c).0
unfolding get put entry_at store make_room note_negative
get-put_other j k a now later order c differ room =
    let h : eq_key k j ≡ false = ground (arith, differ, eq_key_sound k j) in
    ground (arith, h, room, entry_at-delete j k c.entries h)

-- An answer with records in it is kept for at least the least and at most the greatest life that is
-- configured, and any other answer for the negative one.
pub life_bounds :
    (cfg : Settings) (a : Answer)
    → (is_void (some a) ≡ true → life cfg a ≡ cfg.negative_ttl)
      × (is_void (some a) ≡ false
          → (life cfg a ≤ cfg.max_ttl) × (cfg.min_ttl ≤ cfg.max_ttl → cfg.min_ttl ≤ life cfg a))
unfolding life
life_bounds cfg a = ground arith
