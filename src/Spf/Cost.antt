-- ===== src/Spf/Cost.antt =====
-- The reference count: what RFC 7208 section 4.6.4 counts in an SPF tree, by recursion over the
-- records of a zone, with no state, limit or early end. It models no code.
use mailkit.Prelude.{
  ℕ, zero, suc, ◌+◌, List, [], ◌∷◌, ◌++◌, Bool, false, not, ◌&&◌, ◌||◌, Option, none, some,
  if◌then◌else◌, is_empty,
}
use mailkit.Text.{Str, codes, eq_str, mem_str}
use mailkit.Dnsx.{normalize}
use mailkit.Spf.Terms.{Term, costs_lookup, parse}

-- The "all" mechanism.
abbrev pub is_all : Term → Bool
is_all t = not t.modifier && eq_str t.name (codes "all")

-- The terms that are read: those before the first "all".
abbrev pub before_all : List Term → List Term
before_all [] = []
before_all (t ∷ ts) = if is_all t then [] else t ∷ before_all ts

abbrev pub has_all : List Term → Bool
has_all [] = false
has_all (t ∷ ts) = is_all t || has_all ts

abbrev pub is_redirect : Term → Bool
is_redirect t = t.modifier && eq_str t.name (codes "redirect")

-- The last redirect among some terms, or the given one.
abbrev pub last_redirect : Option Term → List Term → Option Term
last_redirect o [] = o
last_redirect o (t ∷ ts) = last_redirect (if is_redirect t then some t else o) ts

module _ (zone : Str → Option Str) where
  -- What stands below a target: nothing if it is empty, on the path already, or without a record.
  abbrev pub target_cost : (Str → List Str → ℕ) → List Str → Str → ℕ
  target_cost sub path value =
      let target = normalize value in
      if is_empty target || mem_str target path
      then 0
      else elim (zone target) [ none ↦ 0 | some raw ↦ sub raw (path ++ target ∷ []) ]

  -- A mechanism that costs a lookup counts one, and an include also what stands below its target.
  abbrev pub mechanism_cost : (Str → List Str → ℕ) → List Str → Term → ℕ
  mechanism_cost sub path t =
      if t.modifier || not (costs_lookup t)
      then 0
      else 1 + (if eq_str t.name (codes "include") then target_cost sub path t.value else 0)

  abbrev pub mechanisms_cost : (Str → List Str → ℕ) → List Str → List Term → ℕ
  mechanisms_cost sub path [] = 0
  mechanisms_cost sub path (t ∷ ts) = mechanism_cost sub path t + mechanisms_cost sub path ts

  abbrev pub redirect_cost : (Str → List Str → ℕ) → List Str → Option Term → ℕ
  redirect_cost sub path none = 0
  redirect_cost sub path (some t) = 1 + target_cost sub path t.value

  -- A record's own count: its mechanisms before "all", and its redirect if it has no "all".
  abbrev pub terms_cost : (Str → List Str → ℕ) → List Str → List Term → Option Term → ℕ
  terms_cost sub path ts redirect =
      mechanisms_cost sub path (before_all ts)
      + (if has_all ts then 0 else redirect_cost sub path (last_redirect redirect ts))

  -- The count for a record, down to `bound` records deep.
  unfoldable pub cost : ℕ → Str → List Str → ℕ
  cost zero raw path = 0
  cost (suc bound) raw path = terms_cost (cost bound) path (parse raw) none

  unfoldable pub policy_cost : ℕ → Str → ℕ
  policy_cost bound domain = elim (zone domain) [
    | none ↦ 0
    | some raw ↦ cost bound raw (domain ∷ [])
  ]
