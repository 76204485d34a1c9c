-- ===== src/Cache/Flight.antt =====
-- A cache that goroutines share: the stretches that hold its lock, in any interleaving.
use mailkit.Prelude.{
  ℕ, ◌≤◌, ◌<◌, List, [], ◌∷◌, true, false, if◌then◌else◌, length, ◌≡◌, refl, sym, ◌∙◌, ap, subst,
  arith, inl, inr, Bool-cases, ℤ,
}
use mailkit.Dnsx.{Answer}
use mailkit.Cache.{
  Config, Key, Cache, eq_key, get, put, make_room, evict, note_negative, missed, served, is_waited,
  without, claim, release, new, with_defaults, positive_or,
}
use mailkit.Cache.Store.{eq_key_sound}
use mailkit.Cache.Bound.{IsVisit, get-length, put-length}

unfoldable pub leave : Key → List Key → List Key
leave k [] = []
leave k (j ∷ js) = let rest = leave k js in if eq_key j k then js else j ∷ rest

-- A cache and the keys that are being asked, one for each goroutine that asks: what is reached from
-- a new cache when goroutines take the lock in any order, each to look, to claim, to release what
-- it asked, or to write an answer.
pub data IsReached (cfg : Config) : Cache → List Key → Type 0 where
  fresh : IsReached cfg (new cfg) []
  looked :
      (k : Key) (now : ℕ) (c : Cache) (asking : List Key)
      → IsReached cfg c asking
      → IsReached cfg (get k now c).1 asking
  claimed :
      (k : Key) (c : Cache) (asking : List Key)
      → IsReached cfg c asking
      → IsReached cfg (claim k c).1 (if (claim k c).0 then k ∷ asking else asking)
  released :
      (k : Key) (c : Cache) (asking : List Key)
      → IsReached cfg c asking
      → is_waited k asking ≡ true
      → IsReached cfg (release k c) (leave k asking)
  written :
      (k : Key) (a : Answer) (now : ℕ) (order : List Key) (c : Cache) (asking : List Key)
      → IsReached cfg c asking
      → IsVisit order c.entries
      → IsReached cfg (put k a now order c) asking

positive_or-positive : (d : ℕ) (z : ℤ) → 0 < d → 0 < positive_or d z
unfolding positive_or
positive_or-positive d z h = ground arith

record IsFit (cfg : Config) (c : Cache) : Type 0 where
  settings : c.cfg ≡ with_defaults cfg
  entries : length c.entries ≤ c.cfg.max_entries

max_entries_positive : (cfg : Config) → 0 < (with_defaults cfg).max_entries
unfolding with_defaults
max_entries_positive cfg = positive_or-positive 200000 cfg.max_entries (omega arith)

get-IsFit : (cfg : Config) (k : Key) (now : ℕ) (c : Cache) → IsFit cfg c → IsFit cfg (get k now c).1
get-IsFit cfg k now c h =
    let g = get-length k now c in
    record { settings = g.1 ∙ h.settings; entries = rw g.1 (omega (arith, g.0, h.entries)) }

claim-IsFit : (cfg : Config) (k : Key) (c : Cache) → IsFit cfg c → IsFit cfg (claim k c).1
unfolding claim
claim-IsFit cfg k c h = record {
  settings = ground (arith, h.settings);
  entries = ground (arith, h.entries);
}

release-IsFit : (cfg : Config) (k : Key) (c : Cache) → IsFit cfg c → IsFit cfg (release k c)
unfolding release
release-IsFit cfg k c h = record { settings = h.settings; entries = h.entries }

put-IsFit :
    (cfg : Config) (k : Key) (a : Answer) (now : ℕ) (order : List Key) (c : Cache)
    → IsFit cfg c
    → IsVisit order c.entries
    → IsFit cfg (put k a now order c)
put-IsFit cfg k a now order c h v =
    let pos : 0 < c.cfg.max_entries = rw h.settings (max_entries_positive cfg) in
    let p = put-length k a now order c pos h.entries v in
    record { settings = p.1 ∙ h.settings; entries = rw p.1 p.0 }

-- No key stands twice.
abbrev pub IsAlone : List Key → Type 0
IsAlone [] = Unit
IsAlone (k ∷ ks) = (is_waited k ks ≡ false) × IsAlone ks

without-absent : (k : Key) (ks : List Key) → is_waited k ks ≡ false → without k ks ≡ ks
unfolding without is_waited
without-absent k [] h = refl
without-absent k (j ∷ js) h = ground (arith, without-absent k js)

leave-without : (k : Key) (ks : List Key) → IsAlone ks → leave k ks ≡ without k ks
unfolding leave without
leave-without k [] h = refl
leave-without k (j ∷ js) h =
    let rest = leave-without k js h.1 in
    elim (Bool-cases (eq_key j k)) [
      | inl q ↦
          let same : j ≡ k = eq_key_sound j k q in
          let absent = without-absent k js (subst (λ x. is_waited x js ≡ false) same h.0) in
          ground (arith, q, absent)
      | inr q ↦ ground (arith, q, rest)
    ]

is_waited-without :
    (j k : Key) (ks : List Key) → is_waited j ks ≡ false → is_waited j (without k ks) ≡ false
unfolding is_waited without
is_waited-without j k [] h = refl
is_waited-without j k (i ∷ is) h = ground (arith, is_waited-without j k is, h)

without-IsAlone : (k : Key) (ks : List Key) → IsAlone ks → IsAlone (without k ks)
unfolding without
without-IsAlone k [] h = tt
without-IsAlone k (j ∷ js) h =
    let rest = without-IsAlone k js h.1 in
    elim (Bool-cases (eq_key j k)) [
      | inl q ↦ rw (q, without) rest
      | inr q ↦ rw (q, without) (is_waited-without j k js h.0, rest)
    ]

pub get-waiters : (k : Key) (now : ℕ) (c : Cache) → (get k now c).1.waiters ≡ c.waiters
unfolding get missed served
get-waiters k now c = ground arith

pub put-waiters :
    (k : Key) (a : Answer) (now : ℕ) (order : List Key) (c : Cache)
    → (put k a now order c).waiters ≡ c.waiters
unfolding put make_room note_negative evict
put-waiters k a now order c = ground arith

claim-waiters :
    (k : Key) (c : Cache)
    → IsAlone c.waiters
    → ((claim k c).1.waiters ≡ (if (claim k c).0 then k ∷ c.waiters else c.waiters))
      × IsAlone (claim k c).1.waiters
unfolding claim
claim-waiters k c h = elim (Bool-cases (is_waited k c.waiters)) [
  | inl w ↦ rw (w, claim) (refl, h)
  | inr w ↦ rw (w, claim) (refl, (w, h))
]

record IsSingle (c : Cache) (asking : List Key) : Type 0 where
  same : c.waiters ≡ asking
  alone : IsAlone c.waiters

reached-IsFit :
    (cfg : Config) (c : Cache) (asking : List Key) → IsReached cfg c asking → IsFit cfg c
reached-IsFit cfg _ _ fresh = unfold new in record { settings = refl; entries = omega arith }
reached-IsFit cfg _ _ (looked k now c asking h) =
    get-IsFit cfg k now c (reached-IsFit cfg c asking h)
reached-IsFit cfg _ _ (claimed k c asking h) = claim-IsFit cfg k c (reached-IsFit cfg c asking h)
reached-IsFit cfg _ _ (released k c asking h w) =
    release-IsFit cfg k c (reached-IsFit cfg c asking h)
reached-IsFit cfg _ _ (written k a now order c asking h v) =
    put-IsFit cfg k a now order c (reached-IsFit cfg c asking h) v

release-IsSingle :
    (k : Key) (c : Cache) (asking : List Key)
    → IsSingle c asking
    → IsSingle (release k c) (leave k asking)
unfolding release
release-IsSingle k c asking h = record {
  same = sym (leave-without k c.waiters h.alone) ∙ ap (λ l. leave k l) h.same;
  alone = without-IsAlone k c.waiters h.alone;
}

kept :
    (c c' : Cache) (asking : List Key)
    → c'.waiters ≡ c.waiters
    → IsSingle c asking
    → IsSingle c' asking
kept c c' asking e h = record { same = e ∙ h.same; alone = subst (λ l. IsAlone l) (sym e) h.alone }

reached-IsSingle :
    (cfg : Config) (c : Cache) (asking : List Key) → IsReached cfg c asking → IsSingle c asking
reached-IsSingle cfg _ _ fresh = unfold new in record { same = refl; alone = tt }
reached-IsSingle cfg _ _ (looked k now c asking h) =
    kept c (get k now c).1 asking (get-waiters k now c) (reached-IsSingle cfg c asking h)
reached-IsSingle cfg _ _ (claimed k c asking h) =
    let before = reached-IsSingle cfg c asking h in
    let after = claim-waiters k c before.alone in
    record {
      same = after.0 ∙ ap (λ l. if (claim k c).0 then k ∷ l else l) before.same;
      alone = after.1;
    }
reached-IsSingle cfg _ _ (released k c asking h w) =
    release-IsSingle k c asking (reached-IsSingle cfg c asking h)
reached-IsSingle cfg _ _ (written k a now order c asking h v) =
    kept c (put k a now order c) asking (put-waiters k a now order c)
      (reached-IsSingle cfg c asking h)

-- What holds of a cache that has read no file and that any number of goroutines share, whatever the
-- order of their steps: it never holds more entries than it may, the keys that it has in
-- flight are those that some goroutine asks the wrapped resolver about, and no two goroutines ask
-- about the same.
pub IsReached-bounded :
    (cfg : Config) (c : Cache) (asking : List Key)
    → IsReached cfg c asking
    → (length c.entries ≤ (with_defaults cfg).max_entries) × (c.waiters ≡ asking) × IsAlone asking
IsReached-bounded cfg c asking h =
    let fit = reached-IsFit cfg c asking h in
    let single = reached-IsSingle cfg c asking h in
    (
      rw (sym (ap (λ x. x.max_entries) fit.settings)) fit.entries,
      single.same,
      subst (λ l. IsAlone l) single.same single.alone,
    )
