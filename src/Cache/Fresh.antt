-- ===== src/Cache/Fresh.antt =====
-- dnsx/cache/cache.go: the answers that goroutines find in a cache that they share, and their age.
use mathlib.Core.List.{Mem, mem-cons_self, mem-cons_of_mem}
use mailkit.Prelude.{
  ℕ, ◌+◌, ◌≤◌, List, [], ◌∷◌, some, ◌≡◌, refl, sym, ap, ◌∙◌, subst, arith, All, All-map,
}
use mailkit.Dnsx.{Answer}
use mailkit.Cache.{
  Config, Key, Entry, Cache, Settings, with_defaults, new, get, claim, release, put, life,
  make_room, note_negative, evict,
}
use mailkit.Cache.Query.{get_cfg}
use mailkit.Cache.Entries.{get-All, get-served, put-All}

-- An answer that was kept for a key, and when.
pub record Write : Type 0 where
  pub key : Key
  pub answer : Answer
  pub at : ℕ

-- A cache behind the steps of any number of goroutines, in any order, and the writes among these,
-- the newest first.
pub data IsRun (cfg : Config) : Cache → List Write → Type 0 where
  started : IsRun cfg (new cfg) []
  looked :
      (k : Key) (now : ℕ) (c : Cache) (ws : List Write)
      → IsRun cfg c ws
      → IsRun cfg (get k now c).1 ws
  claimed : (k : Key) (c : Cache) (ws : List Write) → IsRun cfg c ws → IsRun cfg (claim k c).1 ws
  released : (k : Key) (c : Cache) (ws : List Write) → IsRun cfg c ws → IsRun cfg (release k c) ws
  written :
      (k : Key) (a : Answer) (now : ℕ) (order : List Key) (c : Cache) (ws : List Write)
      → IsRun cfg c ws
      → IsRun cfg (put k a now order c) (record { key = k; answer = a; at = now } ∷ ws)

-- An entry stands for a write, and expires when the life of its answer is over.
abbrev IsDated : Settings → List Write → Key × Entry → Type 0
IsDated cfg ws (k, e) =
    Mem (record { key = k; answer = e.answer; at = e.observed }) ws
    × (e.expires ≡ e.observed + life cfg e.answer)

record IsTimed (cfg : Config) (c : Cache) (ws : List Write) : Type 0 where
  settings : c.cfg ≡ with_defaults cfg
  entries : All (IsDated (with_defaults cfg) ws) c.entries

pub put_cfg :
    (k : Key) (a : Answer) (now : ℕ) (order : List Key) (c : Cache)
    → (put k a now order c).cfg ≡ c.cfg
unfolding put make_room note_negative evict
put_cfg k a now order c = ground arith

IsDated-cons :
    (cfg : Settings) (w : Write) (ws : List Write) (es : List (Key × Entry))
    → All (IsDated cfg ws) es
    → All (IsDated cfg (w ∷ ws)) es
IsDated-cons cfg w ws es h =
    All-map (IsDated cfg ws) (IsDated cfg (w ∷ ws)) (λ x (m, e). (mem-cons_of_mem w m, e)) es h

new-IsTimed : (cfg : Config) → IsTimed cfg (new cfg) []
unfolding new
new-IsTimed cfg = record { settings = refl; entries = tt }

claim-IsTimed :
    (cfg : Config) (k : Key) (c : Cache) (ws : List Write)
    → IsTimed cfg c ws
    → IsTimed cfg (claim k c).1 ws
unfolding claim
claim-IsTimed cfg k c ws t =
    let same : (claim k c).1.entries ≡ c.entries = ground arith in
    record {
      settings = ground (arith, t.settings);
      entries = subst (λ l. All (IsDated (with_defaults cfg) ws) l) (sym same) t.entries;
    }

release-IsTimed :
    (cfg : Config) (k : Key) (c : Cache) (ws : List Write)
    → IsTimed cfg c ws
    → IsTimed cfg (release k c) ws
unfolding release
release-IsTimed cfg k c ws t = record { settings = t.settings; entries = t.entries }

IsRun-IsTimed : (cfg : Config) (c : Cache) (ws : List Write) → IsRun cfg c ws → IsTimed cfg c ws
IsRun-IsTimed cfg _ _ started = new-IsTimed cfg
IsRun-IsTimed cfg _ _ (looked k now c ws h) =
    let t = IsRun-IsTimed cfg c ws h in
    record {
      settings = get_cfg k now c ∙ t.settings;
      entries = get-All (IsDated (with_defaults cfg) ws) k now c (λ e d. d) t.entries;
    }
IsRun-IsTimed cfg _ _ (claimed k c ws h) = claim-IsTimed cfg k c ws (IsRun-IsTimed cfg c ws h)
IsRun-IsTimed cfg _ _ (released k c ws h) = release-IsTimed cfg k c ws (IsRun-IsTimed cfg c ws h)
IsRun-IsTimed cfg _ _ (written k a now order c ws h) =
    let t = IsRun-IsTimed cfg c ws h in
    let w : Write = record { key = k; answer = a; at = now } in
    record {
      settings = put_cfg k a now order c ∙ t.settings;
      entries =
          put-All (IsDated (with_defaults cfg) (w ∷ ws)) k a now order c
            (mem-cons_self, ap (λ s. now + life s a) t.settings)
            (IsDated-cons (with_defaults cfg) w ws c.entries t.entries);
    }

-- Whatever the order in which goroutines share a cache that has read no file, an answer that it
-- serves was kept for the same key, and its life, which its records and the configuration fix, is
-- not over.
pub IsRun-fresh :
    (cfg : Config) (c : Cache) (ws : List Write) (k : Key) (now : ℕ) (a : Answer)
    → IsRun cfg c ws
    → (get k now c).0 ≡ some a
    → (t : ℕ) × Mem (record { key = k; answer = a; at = t }) ws
      × (now ≤ t + life (with_defaults cfg) a)
IsRun-fresh cfg c ws k now a h g =
    let timed = IsRun-IsTimed cfg c ws h in
    let (e, (m, until), same, within) =
      get-served (IsDated (with_defaults cfg) ws) k now c a timed.entries g in
    (
      e.observed,
      subst (λ x. Mem (record { key = k; answer = x; at = e.observed }) ws) same m,
      subst (λ x. now ≤ e.observed + life (with_defaults cfg) x) same
          (omega (arith, within, until)),
    )
