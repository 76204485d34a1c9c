-- ===== src/Mx/Flagged.antt =====
-- What the flags of a routing say of its hosts.

use mathlib.Core.List.Perm
use mailkit.Prelude.{
  List, [], ◌∷◌, ◌++◌, map, Bool, true, false, not, ◌||◌, some, is_empty, ◌≡◌, refl, arith, All,
  All-map, All-concat, Bool-cases, inl, inr,
}
use mailkit.Text.{Str, mem_str}
use mailkit.Text.Equality.{eq_str_refl, mem_str-append}
use mailkit.Text.Order.{lt_str}
use mailkit.Sorting.{insert, insertion, Slice, IsSlice}
use mailkit.Sorting.Rearranged.{All-perm}
use mailkit.Dnsx.{Mx, Error, Result, Resolver, Question, not_found, normalize}
use mailkit.Mx.{
  Host, Flags, Routing, no_flags, unfinished, sort_strings, host_before, sort_ips, sort_hosts,
  implicit_mx, host_of, note_unresolvable, resolved, visit, visit_all, is_null, finish,
  implicit_lookup, routes, lookup,
}

-- A host has an address, or the flags say why not: it is an address itself, or it does not resolve,
-- or a lookup did not answer.
unfoldable pub is_accounted : Flags → Host → Bool
is_accounted f h =
    not (is_empty h.ips)
    || mem_str h.host f.ip_literal
    || mem_str h.host f.unresolvable
    || f.incomplete

module _ (f : Flags) (h : Host) where
  unresolvable_old :
      (g : Host) → is_accounted f g ≡ true → is_accounted (note_unresolvable h.host f) g ≡ true
  unfolding is_accounted note_unresolvable
  unresolvable_old g k = ground (arith, k, mem_str-append g.host f.unresolvable (h.host ∷ []))

  unresolvable_new : is_accounted (note_unresolvable h.host f) h ≡ true
  unfolding is_accounted note_unresolvable mem_str
  unresolvable_new =
      ground (arith, mem_str-append h.host f.unresolvable (h.host ∷ []), eq_str_refl h.host)

  abbrev literal : Flags
  literal = record f { ip_literal = f.ip_literal ++ h.host ∷ [] }

  literal_old : (g : Host) → is_accounted f g ≡ true → is_accounted literal g ≡ true
  unfolding is_accounted
  literal_old g k = ground (arith, k, mem_str-append g.host f.ip_literal (h.host ∷ []))

  literal_new : is_accounted literal h ≡ true
  unfolding is_accounted mem_str
  literal_new = ground (arith, mem_str-append h.host f.ip_literal (h.host ∷ []), eq_str_refl h.host)

unfinished_any : (e : Error) (f : Flags) (g : Host) → is_accounted (unfinished e f) g ≡ true
unfolding is_accounted unfinished
unfinished_any e f g = ground arith

with_address :
    (f : Flags) (h : Host) (ip : Str) (ips : List Str)
    → is_accounted f (record h { ips = ip ∷ ips }) ≡ true
unfolding is_accounted
with_address f h ip ips = refl

-- Every host so far is accounted for.
abbrev AreAccounted : Routing → Type 0
AreAccounted s = All (λ g. is_accounted s.flags g ≡ true) s.hosts

grown :
    (s : Routing) (f : Flags) (h : Host)
    → ((g : Host) → is_accounted s.flags g ≡ true → is_accounted f g ≡ true)
    → is_accounted f h ≡ true
    → AreAccounted s
    → All (λ g. is_accounted f g ≡ true) (s.hosts ++ h ∷ [])
grown s f h old here k =
    All-concat (λ g. is_accounted f g ≡ true) s.hosts
      (All-map (λ g. is_accounted s.flags g ≡ true) (λ g. is_accounted f g ≡ true) old s.hosts k)
      here

unresolvable_grown :
    (s : Routing) (h : Host)
    → AreAccounted s
    → All (λ g. is_accounted (note_unresolvable h.host s.flags) g ≡ true) (s.hosts ++ h ∷ [])
unresolvable_grown s h k =
    grown s (note_unresolvable h.host s.flags) h (unresolvable_old s.flags h)
      (unresolvable_new s.flags h) k

resolved-AreAccounted :
    (h : Host) (a : Result (List Str)) (s : Routing)
    → AreAccounted s
    → AreAccounted (resolved h a s)
unfolding resolved
resolved-AreAccounted h (Result.err e) s k = elim (Bool-cases (not_found (some e))) [
  | inl q ↦ rw (q, resolved) (unresolvable_grown s h k)
  | inr q ↦
      rw (q, resolved)
        (grown s (unfinished e s.flags) h (λ g _. unfinished_any e s.flags g)
          (unfinished_any e s.flags h) k)
]
resolved-AreAccounted h (Result.ok []) s k = unresolvable_grown s h k
resolved-AreAccounted h (Result.ok (ip ∷ ips)) s k =
    grown s s.flags (record h { ips = ip ∷ ips }) (λ g q. q) (with_address s.flags h ip ips) k

module _ (is_ip : Str → Bool) (r : Resolver) where
  visit-AreAccounted : (m : Mx) (s : Routing) → AreAccounted s → AreAccounted (visit is_ip r m s)
  unfolding visit
  visit-AreAccounted m s k =
      let h : Host = host_of m in
      elim (Bool-cases (is_ip h.host)) [
        | inl e ↦
            rw (e, visit)
              (grown s (literal s.flags h) h (literal_old s.flags h) (literal_new s.flags h) k)
        | inr e ↦
            rw (e, visit)
              (resolved-AreAccounted h (r.lookup_host s.calls h.host)
                (record s { calls = Question.lookup_host h.host ∷ s.calls }) k)
      ]

  visit_all-AreAccounted :
      (ms : List Mx) (s : Routing) → AreAccounted s → AreAccounted (visit_all is_ip r ms s)
  unfolding visit_all
  visit_all-AreAccounted [] s k = k
  visit_all-AreAccounted (m ∷ ms) s k =
      visit_all-AreAccounted ms (visit is_ip r m s) (visit-AreAccounted m s k)

insert-is_empty : (x : Str) (l : List Str) → is_empty (insert lt_str x l) ≡ false
unfolding insert
insert-is_empty x [] = refl
insert-is_empty x (y ∷ l) = ground arith

sort_strings-is_empty : (l : List Str) → is_empty (sort_strings l) ≡ is_empty l
unfolding sort_strings insertion
sort_strings-is_empty [] = refl
sort_strings-is_empty (x ∷ l) = insert-is_empty x (insertion lt_str l)

-- Sorting the addresses of a host leaves one, if there was one.
sort_ips-accounted :
    (f : Flags) (h : Host) → is_accounted f h ≡ true → is_accounted f (sort_ips h) ≡ true
unfolding is_accounted sort_ips
sort_ips-accounted f h k = ground (arith, k, sort_strings-is_empty h.ips)

map-accounted :
    (f : Flags) (hs : List Host)
    → All (λ g. is_accounted f g ≡ true) hs
    → All (λ g. is_accounted f g ≡ true) (map sort_ips hs)
map-accounted f [] k = tt
map-accounted f (h ∷ hs) (q, k) = (sort_ips-accounted f h q, map-accounted f hs k)

implicit-accounted :
    (domain : Str) (a : Result (List Str)) (calls : List Question)
    → AreAccounted (implicit_mx domain a calls)
unfolding implicit_mx is_accounted
implicit-accounted domain (Result.err e) calls = ground arith
implicit-accounted domain (Result.ok []) calls = tt
implicit-accounted domain (Result.ok (ip ∷ ips)) calls =
    (ground (arith, sort_strings-is_empty (ip ∷ ips)), tt)

module _ (is_ip : Str → Bool) (r : Resolver) (slice : Slice Host) (law : IsSlice slice) where
  finish-accounted : (s : Routing) → AreAccounted s → AreAccounted (finish slice s)
  unfolding finish sort_hosts is_accounted
  finish-accounted s k = map-accounted s.flags (slice host_before s.hosts) (
      All-perm (is_accounted s.flags) s.hosts (slice host_before s.hosts)
        (Perm.symm (law.rearranges host_before s.hosts)) k)

  routes-accounted :
      (domain : Str) (a : Result (List Mx)) (calls : List Question)
      → AreAccounted (routes is_ip r slice domain a calls)
  unfolding routes implicit_lookup
  routes-accounted domain (Result.err e) calls = elim (Bool-cases (not_found (some e))) [
    | inl q ↦
        rw (q, routes)
          (implicit-accounted domain (r.lookup_host calls domain)
            (Question.lookup_host domain ∷ calls))
    | inr q ↦ rw (q, routes) tt
  ]
  routes-accounted domain (Result.ok mxs) calls = elim (Bool-cases (is_empty mxs)) [
    | inl q ↦
        rw (q, routes)
          (implicit-accounted domain (r.lookup_host calls domain)
            (Question.lookup_host domain ∷ calls))
    | inr q ↦ elim (Bool-cases (is_null mxs)) [
      | inl n ↦ rw (q, n, routes) tt
      | inr n ↦
          rw (q, n, routes)
            (finish-accounted
              (visit_all is_ip r mxs (record { hosts = []; flags = no_flags; calls = calls }))
              (visit_all-AreAccounted is_ip r mxs
                (record { hosts = []; flags = no_flags; calls = calls }) tt))
    ]
  ]

-- Every host that a lookup returns has an address, or is listed as an address itself, or is listed
-- as one that does not resolve, unless the routing says that a lookup did not answer.
pub lookup-accounted :
    (is_ip : Str → Bool) (r : Resolver) (slice : Slice Host)
    → IsSlice slice
    → (domain : Str)
    → All
        (λ h. is_accounted (lookup is_ip r slice domain).flags h ≡ true)
        (lookup is_ip r slice domain).hosts
unfolding lookup
lookup-accounted is_ip r slice law domain =
    let d : Str = normalize domain in
    routes-accounted is_ip r slice law d (r.lookup_mx [] d) (Question.lookup_mx d ∷ [])
