-- ===== src/Mx/Reported.antt =====
-- The flags of a routing that count its hosts.
use mailkit.Prelude.{
  List, [], ◌∷◌, map, Bool, false, not, ◌||◌, ◌&&◌, ◌==◌, some, is_empty, length, ◌≡◌, ◌≢◌, refl,
  sym, ap, ◌∙◌, arith, Bool-cases, inl, inr, length-map,
}
use mailkit.Text.{Str}
use mailkit.Sorting.Rearranged.{length-perm}
use mailkit.Sorting.{Slice, IsSlice}
use mailkit.Dnsx.{Mx, Result, Resolver, Question, not_found, normalize}
use mailkit.Mx.{
  Host, Routing, no_flags, unfinished, host_before, sort_ips, sort_hosts, implicit_mx, host_of,
  note_unresolvable, resolved, visit, visit_all, is_null, finish, implicit_lookup, routes, lookup,
}
use mailkit.Mx.Order.{place, target, visit_all-hosts}

-- The flags that say there is no mail host are as they were.
abbrev KeepsNone : Routing → Type 0
KeepsNone s = (s.flags.missing ≡ false) × (s.flags.null ≡ false)

resolved-KeepsNone :
    (h : Host) (a : Result (List Str)) (s : Routing) → KeepsNone s → KeepsNone (resolved h a s)
unfolding resolved unfinished note_unresolvable
resolved-KeepsNone h (Result.err e) s k = elim (Bool-cases (not_found (some e))) [
  | inl q ↦ rw (q, resolved) k
  | inr q ↦ rw (q, resolved) k
]
resolved-KeepsNone h (Result.ok []) s k = k
resolved-KeepsNone h (Result.ok (ip ∷ ips)) s k = k

module _ (is_ip : Str → Bool) (r : Resolver) where
  visit-KeepsNone : (m : Mx) (s : Routing) → KeepsNone s → KeepsNone (visit is_ip r m s)
  unfolding visit
  visit-KeepsNone m s k = elim (Bool-cases (is_ip (host_of m).host)) [
    | inl e ↦ rw (e, visit) k
    | inr e ↦
        rw (e, visit)
          (resolved-KeepsNone (host_of m) (r.lookup_host s.calls (host_of m).host)
            (record s { calls = Question.lookup_host (host_of m).host ∷ s.calls }) k)
  ]

  visit_all-KeepsNone :
      (ms : List Mx) (s : Routing) → KeepsNone s → KeepsNone (visit_all is_ip r ms s)
  unfolding visit_all
  visit_all-KeepsNone [] s k = k
  visit_all-KeepsNone (m ∷ ms) s k =
      visit_all-KeepsNone ms (visit is_ip r m s) (visit-KeepsNone m s k)

  -- One host for each target.
  visit_all-length :
      (ms : List Mx) (calls : List Question)
      → length (visit_all is_ip r ms (record { hosts = []; flags = no_flags; calls = calls })).hosts
        ≡ length ms
  visit_all-length ms calls =
      let fresh : Routing = record { hosts = []; flags = no_flags; calls = calls } in
      let after = (visit_all is_ip r ms fresh).hosts in
      sym (length-map place after)
      ∙ ap length (visit_all-hosts is_ip r ms fresh)
      ∙ length-map target ms

-- What the flags say of the number of hosts.
abbrev IsReported : Routing → Type 0
IsReported s =
    (s.flags.single_host ≡ (length s.hosts == 1))
    × ((s.flags.missing || s.flags.null) ≡ (is_empty s.hosts && not s.flags.incomplete))

implicit-IsReported :
    (domain : Str) (a : Result (List Str)) (calls : List Question)
    → IsReported (implicit_mx domain a calls)
unfolding implicit_mx unfinished
implicit-IsReported domain (Result.err e) calls = elim (Bool-cases (not_found (some e))) [
  | inl q ↦ rw (q, implicit_mx) (refl, refl)
  | inr q ↦ rw (q, implicit_mx) (refl, refl)
]
implicit-IsReported domain (Result.ok []) calls = (refl, refl)
implicit-IsReported domain (Result.ok (ip ∷ ips)) calls = (refl, refl)

is_empty-length : {A : Type 0} → (l : List A) → length l ≢ 0 → is_empty l ≡ false
is_empty-length [] h = absurd (h refl)
is_empty-length (x ∷ l) h = refl

module _ (is_ip : Str → Bool) (r : Resolver) (slice : Slice Host) (law : IsSlice slice) where
  finish-IsReported : (s : Routing) → KeepsNone s → length s.hosts ≢ 0 → IsReported (finish slice s)
  unfolding finish sort_hosts
  finish-IsReported s k h =
      let same : length (map sort_ips (slice host_before s.hosts)) ≡ length s.hosts =
        length-map sort_ips (slice host_before s.hosts)
        ∙ length-perm (law.rearranges host_before s.hosts) in
      let some_host =
        is_empty-length (map sort_ips (slice host_before s.hosts)) (λ e. h (sym same ∙ e)) in
      (ap (λ n. n == 1) (sym same), rw (k.0, k.1, some_host) refl)

  routes-IsReported :
      (domain : Str) (a : Result (List Mx)) (calls : List Question)
      → IsReported (routes is_ip r slice domain a calls)
  unfolding routes implicit_lookup unfinished
  routes-IsReported domain (Result.err e) calls = elim (Bool-cases (not_found (some e))) [
    | inl q ↦
        rw (q, routes)
          (implicit-IsReported domain (r.lookup_host calls domain)
            (Question.lookup_host domain ∷ calls))
    | inr q ↦ rw (q, routes) (refl, refl)
  ]
  routes-IsReported domain (Result.ok []) calls =
      implicit-IsReported domain (r.lookup_host calls domain) (Question.lookup_host domain ∷ calls)
  routes-IsReported domain (Result.ok (m ∷ ms)) calls =
      let fresh : Routing = record { hosts = []; flags = no_flags; calls = calls } in
      elim (Bool-cases (is_null (m ∷ ms))) [
        | inl n ↦ rw (n, routes) (refl, refl)
        | inr n ↦
            rw (n, routes)
              (finish-IsReported (visit_all is_ip r (m ∷ ms) fresh)
                (visit_all-KeepsNone is_ip r (m ∷ ms) fresh (refl, refl))
                (ground (arith, visit_all-length is_ip r (m ∷ ms) calls)))
      ]

-- A routing is of a single host exactly when its list has one host, and the flags say that the
-- domain has no mail host, missing or refused, exactly when the list is empty and no lookup failed.
pub lookup-IsReported :
    (is_ip : Str → Bool) (r : Resolver) (slice : Slice Host)
    → IsSlice slice
    → (domain : Str) → IsReported (lookup is_ip r slice domain)
unfolding lookup
lookup-IsReported is_ip r slice law domain =
    let d : Str = normalize domain in
    routes-IsReported is_ip r slice law d (r.lookup_mx [] d) (Question.lookup_mx d ∷ [])
