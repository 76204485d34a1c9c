-- ===== src/Cache/Query.antt =====
-- A question put to a cache twice: when the wrapped resolver is asked again.
use mailkit.Prelude.{ℕ, ◌+◌, ◌≤◌, List, [], ◌∷◌, true, false, none, some, ◌≡◌, refl, ◌∙◌, ap, arith}
use mailkit.Dnsx.{Answer, Error, Result}
use mailkit.Cache.{
  Key, Entry, Cache, get, put, missed, served, delete, entry_at, is_waited, claim, release, life,
  query, without,
}
use mailkit.Cache.Store.{eq_key_refl, get-put}
use mailkit.Cache.Flight.{get-waiters}

pub get_cfg : (k : Key) (now : ℕ) (c : Cache) → (get k now c).1.cfg ≡ c.cfg
unfolding get missed served
get_cfg k now c = ground arith

entry_at-delete_same : (k : Key) (es : List (Key × Entry)) → entry_at k (delete k es) ≡ none
unfolding entry_at delete
entry_at-delete_same k [] = refl
entry_at-delete_same k ((j, e) ∷ es) = ground (arith, entry_at-delete_same k es)

-- A key that is not found is not among the entries behind that.
get_missed :
    (k : Key) (now : ℕ) (c : Cache)
    → (get k now c).0 ≡ none
    → entry_at k (get k now c).1.entries ≡ none
unfolding get missed
get_missed k now c h = ground (arith, h, entry_at-delete_same k c.entries)

get_absent : (k : Key) (now : ℕ) (c : Cache) → entry_at k c.entries ≡ none → (get k now c).0 ≡ none
unfolding get
get_absent k now c h = ground (arith, h)

pub query-hit :
    (inner : Key → Result Answer) (k : Key) (now : ℕ) (order : List Key) (c : Cache)
    (log : List Key) (a : Answer)
    → (get k now c).0 ≡ some a
    → query inner k now order (c, log) ≡ (some (Result.ok a), (get k now c).1, log)
unfolding query
query-hit inner k now order c log a h = rw (h, query) refl

-- A key that is claimed and released again leaves nothing in flight.
pub claim-release : (k : Key) (c : Cache) → c.waiters ≡ [] → (release k (claim k c).1).waiters ≡ []
unfolding claim release is_waited without
claim-release k c h = rw (h) (ground (arith, eq_key_refl k))

module _ (inner : Key → Result Answer) (k : Key) (now : ℕ) (order : List Key) (c : Cache)
    (log : List Key) (miss : (get k now c).0 ≡ none) (alone : is_waited k c.waiters ≡ false) where
  unwaited : is_waited k (get k now c).1.waiters ≡ false
  unwaited = rw (get-waiters k now c) alone

  asks : (claim k (get k now c).1).0 ≡ true
  unfolding claim
  asks = ground (arith, unwaited)

  pub settings : (release k (claim k (get k now c).1).1).cfg ≡ c.cfg
  unfolding claim release
  settings = ground (arith, get_cfg k now c)

  pub query-ok :
      (a : Answer)
      → inner k ≡ Result.ok a
      → query inner k now order (c, log)
        ≡ (some (Result.ok a), put k a now order (release k (claim k (get k now c).1).1), k ∷ log)
  unfolding query
  query-ok a h = rw (miss, asks, h, query) refl

  pub query-err :
      (e : Error)
      → inner k ≡ Result.err e
      → query inner k now order (c, log)
        ≡ (some (Result.err e), release k (claim k (get k now c).1).1, k ∷ log)
  unfolding query
  query-err e h = rw (miss, asks, h, query) refl

  pub entries : (release k (claim k (get k now c).1).1).entries ≡ (get k now c).1.entries
  unfolding claim release
  entries = ground arith

  -- For a goroutine that meets no other: an answer that was not kept is asked for once, and within
  -- its life a second query gets it without another question.
  pub query_twice :
      (a : Answer) (later : ℕ) (order' : List Key)
      → inner k ≡ Result.ok a
      → later ≤ now + life c.cfg a
      → let first = query inner k now order (c, log) in
        let again = query inner k later order' (first.1, first.2) in
        (first.0 ≡ some (Result.ok a)) × (again.0 ≡ some (Result.ok a)) × (again.2 ≡ k ∷ log)
  query_twice a later order' h within =
      let free : Cache = release k (claim k (get k now c).1).1 in
      let found = get-put k a now later order free in
      let hit : (get k later (put k a now order free)).0 ≡ some a =
        ground (arith, found, settings, within) in
      rw (query-ok a h) (
        rw (query-hit inner k later order' (put k a now order free) (k ∷ log) a hit)
          (refl, refl, refl))

  -- For a goroutine that meets no other: a question that fails returns the failure, and nothing is
  -- kept for it, so that the next query does not find it.
  pub query_failed :
      (e : Error) (later : ℕ)
      → inner k ≡ Result.err e
      → let first = query inner k now order (c, log) in
        (first.0 ≡ some (Result.err e)) × ((get k later first.1).0 ≡ none)
  query_failed e later h = rw (query-err e h) (
    refl,
    get_absent k later (release k (claim k (get k now c).1).1)
        (ap (λ l. entry_at k l) entries ∙ get_missed k now c miss),
  )
