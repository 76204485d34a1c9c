-- ===== src/Cache/Saved/Examples.antt =====
-- A cache of two entries, of which one was served.

use mathlib.Core.List.Perm
use mailkit.Prelude.{ℕ, [], ◌∷◌, true, none, some, if◌then◌else◌, ◌≡◌, refl, arith, ℤ}
use mailkit.Text.{
  codes, eq_str, is_space, lower, to_lower, trim_left, keep, trim_right, trim_space, cons_head,
  index, last_index, contains, index_any, has_prefix, index_str, trim_end, split,
}
use mailkit.Text.Order.{lt_str}
use mailkit.Sorting.{insert, insertion, Slice, IsSlice}
use mailkit.Sorting.Laws.{insertion-perm, insertion-IsOrdered}
use mailkit.Dnsx.{
  Answer, is_void, after_scheme, before_path, after_user, before_port, trim_www, normalize_host,
  normalize,
}
use mailkit.Cache.{
  Config, Key, Entry, Cache, positive_or, with_defaults, eq_key, new, entry_at, delete, store,
  missed, served, get, life, note_negative, make_room, put, key_of,
}
use mailkit.Cache.Saved.{
  Observation, observation, saved, write_to, load_one, load_all, read_from, len, Retention,
  retained, listed_before, export, observed, kind_observation,
}
use mailkit.Cache.Saved.Restore.{is_new, AreDistinct, was_served, read_from-write_to}
use mailkit.Cache.Saved.Listed.{export-perm}

running : Unit {0}
unfolding positive_or with_defaults eq_key new entry_at delete store missed served get life
    note_negative make_room put is_void eq_str lt_str insert insertion observation saved write_to
    load_one load_all read_from len retained listed_before export observed is_new was_served key_of
    is_space lower to_lower trim_left keep trim_right trim_space cons_head index last_index contains
    index_any has_prefix index_str trim_end split after_scheme before_path after_user before_port
    trim_www normalize_host normalize
running = tt

abbrev tiny : Config
tiny = record {
  min_ttl = ℤ.pos 1;
  max_ttl = ℤ.pos 100;
  negative_ttl = ℤ.pos 7;
  max_entries = ℤ.pos 1;
}

abbrev one : Key
one = record { qtype = 16; name = codes "a.example" }

abbrev two : Key
two = record { qtype = 16; name = codes "b.example" }

abbrev text : Answer
text = record { rcode = 0; ttl = 300; txt = codes "v=spf1 -all" ∷ []; mx = []; hosts = [] }

abbrev entry : ℕ → Entry
entry hits = record { answer = text; expires = 50; hits = hits; observed = 5 }

abbrev two_entries : Cache
two_entries = record (new tiny) { entries = (two, entry 0) ∷ (one, entry 3) ∷ [] }

two_entries-AreDistinct : AreDistinct two_entries.entries
unfolding running
two_entries-AreDistinct = (refl, (refl, tt))

-- Only the entry that was served is written.
written : write_to 9 two_entries ≡ observation [] one (entry 3) ∷ []
unfolding running
written = refl

-- Reading does not mind the bound of the cache.
over_bound :
    ((new tiny).cfg.max_entries ≡ 1)
    × (len (
          read_from 9
            (some (observation [] one (entry 3) ∷ observation [] two (entry 1) ∷ []))
            (new tiny))
        ≡ 2)
unfolding running
over_bound = (refl, refl)

asked :
    observed (codes "B.example.") 16 two_entries ≡ some (observation kind_observation two (entry 0))
unfolding running
asked = refl

read_from-write_to_example :
    (get one 20 (read_from 20 (some (write_to 9 two_entries)) (new tiny))).0
    ≡ (if was_served (entry_at one two_entries.entries) then (get one 20 two_entries).0 else none)
read_from-write_to_example =
    read_from-write_to tiny two_entries one 9 20 two_entries-AreDistinct (omega arith)

abbrev slice : Slice Observation
slice less l = insertion less l

slice-IsSlice : IsSlice slice
slice-IsSlice = record {
  rearranges = λ less l. insertion-perm less l;
  orders = λ less l o. insertion-IsOrdered less o l;
}

abbrev everything : Retention
everything = record { min_hits = 0; keep_expired = true }

abbrev other_way : Cache
other_way = record (new tiny) { entries = (one, entry 3) ∷ (two, entry 0) ∷ [] }

exported :
    export slice everything 70 two_entries
    ≡ observation kind_observation one (entry 3) ∷ observation kind_observation two (entry 0) ∷ []
unfolding running
exported = refl

export-perm_example : export slice everything 70 two_entries ≡ export slice everything 70 other_way
export-perm_example =
    export-perm slice everything 70 two_entries other_way slice-IsSlice two_entries-AreDistinct
      (Perm.swap (one, entry 3) (two, entry 0) [])
