-- ===== src/Cache.antt =====
-- dnsx/cache/cache.go: the entries, what is in flight, and the operations that run under the lock.
-- Times are nanoseconds, and an operation reads the clock once.
pub mod Store
pub mod Bound
pub mod Flight
pub mod Entries
pub mod Fresh
pub mod Query
pub mod Plain
pub mod Saved
pub mod Wrapped
mod Examples
use mailkit.Prelude.{
  ℕ, zero, suc, ◌+◌, ◌-◌, ◌*◌, List, [], ◌∷◌, Bool, true, false, not, ◌&&◌, ◌||◌, Option, none,
  some, ltb, leb, ◌==◌, if◌then◌else◌, length, ◌/◌, ℤ, is_empty,
}
use mailkit.Text.{Str, codes, eq_str}
use mailkit.Dnsx.{Answer, Mx, Error, Result, is_void, normalize, rcode_name_error}

-- What a caller configures; a value that is not positive asks for the default.
pub record Config : Type 0 where
  pub min_ttl : ℤ
  pub max_ttl : ℤ
  pub negative_ttl : ℤ
  pub max_entries : ℤ

pub record Settings : Type 0 where
  pub min_ttl : ℕ
  pub max_ttl : ℕ
  pub negative_ttl : ℕ
  pub max_entries : ℕ

unfoldable pub positive_or : ℕ → ℤ → ℕ
positive_or default (ℤ.pos zero) = default
positive_or default (ℤ.pos (suc n)) = suc n
positive_or default (ℤ.negsuc n) = default

abbrev pub second : ℕ
second = 1000000000

unfoldable pub with_defaults : Config → Settings
with_defaults c = record {
  min_ttl = positive_or (60 * second) c.min_ttl;
  max_ttl = positive_or (3600 * second) c.max_ttl;
  negative_ttl = positive_or (300 * second) c.negative_ttl;
  max_entries = positive_or 200000 c.max_entries;
}

pub record Stats : Type 0 where
  pub hits : ℕ
  pub misses : ℕ
  pub negative : ℕ
  pub evictions : ℕ
  pub collapsed : ℕ

pub record Entry : Type 0 where
  pub answer : Answer
  pub expires : ℕ
  pub hits : ℕ
  pub observed : ℕ

pub record Key : Type 0 where
  pub qtype : ℕ
  pub name : Str

unfoldable pub eq_key : Key → Key → Bool
eq_key j k = j.qtype == k.qtype && eq_str j.name k.name

-- The map of entries, and the set of keys in flight.
pub record Cache : Type 0 where
  pub cfg : Settings
  pub entries : List (Key × Entry)
  pub waiters : List Key
  pub stats : Stats

unfoldable pub new : Config → Cache
new cfg = record {
  cfg = with_defaults cfg;
  entries = [];
  waiters = [];
  stats = record { hits = 0; misses = 0; negative = 0; evictions = 0; collapsed = 0 };
}

-- Reading, deleting and writing a map.
unfoldable pub entry_at : Key → List (Key × Entry) → Option Entry
entry_at k [] = none
entry_at k ((j, e) ∷ es) = if eq_key j k then some e else entry_at k es

unfoldable pub delete : Key → List (Key × Entry) → List (Key × Entry)
delete k [] = []
delete k ((j, e) ∷ es) = let rest = delete k es in if eq_key j k then rest else (j, e) ∷ rest

unfoldable pub store : Key → Entry → List (Key × Entry) → List (Key × Entry)
store k e es = (k, e) ∷ delete k es

unfoldable pub missed : Cache → Cache
missed c = record c { stats = record (c.stats) { misses = c.stats.misses + 1 } }

unfoldable pub served : Key → Entry → Cache → Cache
served k e c = record c {
  entries = store k (record e { hits = e.hits + 1 }) c.entries;
  stats = record (c.stats) { hits = c.stats.hits + 1 };
}

unfoldable pub get : Key → ℕ → Cache → Option Answer × Cache
get k now c = elim (entry_at k c.entries) [
  | none ↦ (none, missed c)
  | some e ↦
      if ltb e.expires now
      then (none, missed (record c { entries = delete k c.entries }))
      else (some e.answer, served k e c)
]

-- How long an answer is kept.
unfoldable pub life : Settings → Answer → ℕ
life cfg a =
    let ttl = a.ttl * second in
    let floored = if ltb ttl cfg.min_ttl then cfg.min_ttl else ttl in
    if is_void (some a)
    then cfg.negative_ttl
    else if ltb cfg.max_ttl floored
    then cfg.max_ttl
    else floored

unfoldable pub unexpired : ℕ → List (Key × Entry) → List (Key × Entry)
unexpired now [] = []
unexpired now ((k, e) ∷ es) =
    let rest = unexpired now es in if ltb e.expires now then rest else (k, e) ∷ rest

-- The second loop of `evictLocked`. A map is visited in no fixed order: `order` is the one it has.
unfoldable pub drop_to : ℕ → List Key → List (Key × Entry) → List (Key × Entry)
drop_to target [] es = es
drop_to target (k ∷ ks) es =
    let rest = drop_to target ks (delete k es) in if leb (length es) target then es else rest

unfoldable pub evict : ℕ → List Key → Cache → Cache
evict now order c =
    let es = drop_to (c.cfg.max_entries / 2) order (unexpired now c.entries) in
    record c {
      entries = es;
      stats = record (c.stats) { evictions = c.stats.evictions + (length c.entries - length es) };
    }

unfoldable pub note_negative : Answer → Cache → Cache
note_negative a c =
    if is_void (some a)
    then record c { stats = record (c.stats) { negative = c.stats.negative + 1 } }
    else c

unfoldable pub make_room : ℕ → List Key → Cache → Cache
make_room now order c = if leb c.cfg.max_entries (length c.entries) then evict now order c else c

unfoldable pub put : Key → Answer → ℕ → List Key → Cache → Cache
put k a now order c =
    let c' = make_room now order (note_negative a c) in
    let e : Entry = record { answer = a; expires = now + life c.cfg a; hits = 0; observed = now } in
    record c' { entries = store k e c'.entries }

unfoldable pub is_waited : Key → List Key → Bool
is_waited k [] = false
is_waited k (j ∷ js) = eq_key j k || is_waited k js

-- Whether the caller is the one to ask, and the state behind that.
unfoldable pub claim : Key → Cache → Bool × Cache
claim k c =
    if is_waited k c.waiters
    then (false, record c { stats = record (c.stats) { collapsed = c.stats.collapsed + 1 } })
    else (true, record c { waiters = k ∷ c.waiters })

unfoldable pub without : Key → List Key → List Key
without k [] = []
without k (j ∷ js) = let rest = without k js in if eq_key j k then rest else j ∷ rest

unfoldable pub release : Key → Cache → Cache
release k c = record c { waiters = without k c.waiters }

unfoldable pub key_of : Str → ℕ → Key
key_of name qtype = record { qtype = qtype; name = normalize name }

-- A turn of the loop of `Query` for a goroutine that nobody disturbs, from the answer that the
-- wrapped resolver would give and its questions so far: `none` is a wait for another goroutine.
unfoldable pub query :
    (Key → Result Answer)
    → Key
    → ℕ
    → List Key
    → Cache × List Key
    → Option (Result Answer) × Cache × List Key
query inner k now order (c, log) =
    let (found, c') = get k now c in
    let (leader, c'') = claim k c' in
    elim found [
      | some a ↦ (some (Result.ok a), c', log)
      | none ↦
          if leader
          then elim (inner k) [
            | Result.err e ↦ (some (Result.err e), release k c'', k ∷ log)
            | Result.ok a ↦ (some (Result.ok a), put k a now order (release k c''), k ∷ log)
          ]
          else (none, c'', log)
    ]

-- `notFound`, and what LookupTXT, LookupMX and LookupHost make of the outcome of `Query`.
unfoldable pub no_such_host : Str → Error
no_such_host name = Error.dns (codes "no such host") name [] true

unfoldable pub txt_answer : Str → Result Answer → Result (List Str)
txt_answer name (Result.err e) = Result.err e
txt_answer name (Result.ok a) =
    if a.rcode == rcode_name_error then Result.err (no_such_host name) else Result.ok a.txt

unfoldable pub mx_answer : Str → Result Answer → Result (List Mx)
mx_answer name (Result.err e) = Result.err e
mx_answer name (Result.ok a) =
    if a.rcode == rcode_name_error then Result.err (no_such_host name) else Result.ok a.mx

unfoldable pub host_answer : Str → Result Answer → Result (List Str)
host_answer name (Result.err e) = Result.err e
host_answer name (Result.ok a) =
    if a.rcode == rcode_name_error || is_empty a.hosts
    then Result.err (no_such_host name)
    else Result.ok a.hosts
