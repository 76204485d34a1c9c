-- ===== src/Cache/Examples.antt =====
-- A small cache at work.
use mailkit.Prelude.{ℕ, ◌+◌, ◌≤◌, [], ◌∷◌, none, some, leb, if◌then◌else◌, length, ◌≡◌, refl, ℤ}
use mailkit.Text.{codes, eq_str}
use mailkit.Dnsx.{Answer, is_void}
use mailkit.Cache.{
  Config, Key, Cache, positive_or, with_defaults, eq_key, new, entry_at, delete, store, missed,
  served, get, life, unexpired, drop_to, evict, note_negative, make_room, put, is_waited, claim,
  without, release, query,
}
use mailkit.Cache.Store.{get-put}
use mailkit.Cache.Flight.{IsReached, fresh, looked, claimed, IsAlone, IsReached-bounded}
use mailkit.Cache.Fresh.{Write, IsRun, started, written, IsRun-fresh}
use mathlib.Core.List.{Mem}

-- What a run of the cache computes with.
running : Unit {0}
unfolding positive_or with_defaults eq_key new entry_at delete store missed served get life
    unexpired drop_to evict note_negative make_room put is_waited claim without release query
    is_void eq_str
running = tt

abbrev small : Config
small = record {
  min_ttl = ℤ.pos 0;
  max_ttl = ℤ.negsuc 4;
  negative_ttl = ℤ.pos 7;
  max_entries = ℤ.pos 2;
}

abbrev one : Key
one = record { qtype = 16; name = codes "a.example" }

abbrev two : Key
two = record { qtype = 16; name = codes "b.example" }

abbrev three : Key
three = record { qtype = 1; name = codes "a.example" }

abbrev text : Answer
text = record { rcode = 0; ttl = 300; txt = codes "v=spf1 -all" ∷ []; mx = []; hosts = [] }

abbrev kept_two : Cache
kept_two = put two text 6 [] (put one text 5 [] (new small))

-- A third entry makes room by dropping down to half of the bound first.
evicted :
    (length (put three text 7 (one ∷ two ∷ []) kept_two).entries ≡ 2)
    × ((put three text 7 (one ∷ two ∷ []) kept_two).stats.evictions ≡ 1)
unfolding running
evicted = (refl, refl)

get-put_example :
    (get one 100 (put one text 5 [] (new small))).0
    ≡ (if leb 100 (5 + life (new small).cfg text) then some text else none)
get-put_example = get-put one text 5 100 [] (new small)

abbrev claimed_one : Cache
claimed_one = (claim one (get one 5 (new small)).1).1

claimed_one_asked : IsReached small claimed_one (one ∷ [])
unfolding running
claimed_one_asked = claimed one (get one 5 (new small)).1 [] (looked one 5 (new small) [] fresh)

IsReached-bounded_example :
    (length claimed_one.entries ≤ (with_defaults small).max_entries)
    × (claimed_one.waiters ≡ one ∷ [])
    × IsAlone (one ∷ [])
IsReached-bounded_example = IsReached-bounded small claimed_one (one ∷ []) claimed_one_asked

abbrev kept_one : Cache
kept_one = put one text 5 [] (new small)

abbrev one_write : Write
one_write = record { key = one; answer = text; at = 5 }

kept_one-IsRun : IsRun small kept_one (one_write ∷ [])
kept_one-IsRun = written one text 5 [] (new small) [] started

one_served : (get one 50 kept_one).0 ≡ some text
unfolding running
one_served = refl

IsRun-fresh_example :
    (t : ℕ) × Mem (record { key = one; answer = text; at = t }) (one_write ∷ [])
    × (50 ≤ t + life (with_defaults small) text)
IsRun-fresh_example =
    IsRun-fresh small kept_one (one_write ∷ []) one 50 text kept_one-IsRun one_served
