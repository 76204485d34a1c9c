-- ===== src/Cache/Wrapped/Kept.antt =====
-- dnsx/cache/cache.go: what a cache keeps is what the wrapped resolver answers.
use mailkit.Prelude.{
  ℕ, List, [], false, none, some, ◌≡◌, refl, sym, ap, ◌∙◌, subst, Option-cases, inl, inr, All,
}
use mailkit.Dnsx.{Answer, Result, Result-cases}
use mailkit.Cache.{Key, Entry, Cache, get, put, is_waited, claim, release, query}
use mailkit.Cache.Flight.{get-waiters, put-waiters}
use mailkit.Cache.Entries.{get-All, get-served, put-All}
use mailkit.Cache.Query.{claim-release, entries, query-hit, query-ok, query-err}

module _ (inner : Key → Result Answer) where
  -- An entry holds what the wrapped resolver answers for its key.
  abbrev pub IsTrue : Key × Entry → Type 0
  IsTrue (k, e) = inner k ≡ Result.ok e.answer

  -- Nothing is in flight, and every entry is true.
  pub record IsHonest (c : Cache) : Type 0 where
    pub entries : All IsTrue c.entries
    pub idle : c.waiters ≡ []

  get-IsHonest : (k : Key) (now : ℕ) (c : Cache) → IsHonest c → IsHonest (get k now c).1
  get-IsHonest k now c h = record {
    entries = get-All IsTrue k now c (λ e t. t) h.entries;
    idle = get-waiters k now c ∙ h.idle;
  }

  get-IsTrue :
      (k : Key) (now : ℕ) (c : Cache) (a : Answer)
      → IsHonest c
      → (get k now c).0 ≡ some a
      → inner k ≡ Result.ok a
  get-IsTrue k now c a h g =
      let (e, t, same, within) = get-served IsTrue k now c a h.entries g in
      t ∙ ap (λ x. Result.ok x) same

  put-IsHonest :
      (k : Key) (a : Answer) (now : ℕ) (order : List Key) (c : Cache)
      → inner k ≡ Result.ok a
      → IsHonest c
      → IsHonest (put k a now order c)
  put-IsHonest k a now order c t h = record {
    entries = put-All IsTrue k a now order c t h.entries;
    idle = put-waiters k a now order c ∙ h.idle;
  }

  module _ (k : Key) (now : ℕ) (order : List Key) (c : Cache) (log : List Key)
      (h : IsHonest c) where
    asking-IsHonest : (get k now c).0 ≡ none → IsHonest (release k (claim k (get k now c).1).1)
    unfolding is_waited
    asking-IsHonest miss =
        let before = get-IsHonest k now c h in
        record {
          entries =
              subst (λ l. All IsTrue l)
                (sym (entries inner k now order c log miss (ap (λ l. is_waited k l) h.idle)))
                before.entries;
          idle = claim-release k (get k now c).1 before.idle;
        }

    -- The answer of an honest cache is that of the wrapped resolver, and the cache stays honest.
    pub query-IsHonest :
        ((query inner k now order (c, log)).0 ≡ some (inner k))
        × IsHonest (query inner k now order (c, log)).1
    query-IsHonest = elim (Option-cases (get k now c).0) [
      | inl miss ↦
          let alone : is_waited k c.waiters ≡ false =
            unfold is_waited in ap (λ l. is_waited k l) h.idle in
          let free = asking-IsHonest miss in
          elim (Result-cases (inner k)) [
            | inl (a, q) ↦
                rw (query-ok inner k now order c log miss alone a q, q)
                  (refl, put-IsHonest k a now order (release k (claim k (get k now c).1).1) q free)
            | inr (e, q) ↦ rw (query-err inner k now order c log miss alone e q, q) (refl, free)
          ]
      | inr (a, hit) ↦
          rw (query-hit inner k now order c log a hit)
            (ap (λ x. some x) (sym (get-IsTrue k now c a h hit)), get-IsHonest k now c h)
    ]
