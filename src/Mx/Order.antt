-- ===== src/Mx/Order.antt =====
-- The order of the hosts, whatever the order of the answer that names them.
use mathlib.Core.List.{Perm, append-nil, map-append}
use mathlib.Core.List.Perm
use mailkit.Prelude.{
  List, [], ◌∷◌, ◌++◌, map, Bool, true, is_empty, ◌≡◌, ◌≢◌, refl, sym, ap, ◌∙◌, arith, Bool-cases,
  inl, inr, append_assoc,
}
use mailkit.Text.{Str, trim_end}
use mailkit.Sorting.{IsOrder, Slice, IsSlice}
use mailkit.Sorting.Unique.{map-eq_of_perm}
use mailkit.Sorting.Place.{Place, before, before-IsOrder, before_antisymm}
use mailkit.Sorting.Rearranged.{length-perm, All-perm}
use mailkit.Dnsx.{Mx, Result, Resolver, Question, normalize}
use mailkit.Mx.{
  Host, Routing, no_flags, host_before, sort_ips, sort_hosts, host_of, resolved, visit, visit_all,
  is_null, finish, routes, lookup,
}

abbrev pub place : Host → Place
place h = (h.pref, h.host)

-- The order as the code writes it.
host_before-IsOrder : IsOrder host_before
unfolding host_before before
host_before-IsOrder = record {
  asymm = λ a b h. before-IsOrder.asymm (place a) (place b) h;
  trans = λ a b c h k. before-IsOrder.trans (place a) (place b) (place c) h k;
}

map-sort_ips : (l : List Host) → map place (map sort_ips l) ≡ map place l
unfolding sort_ips
map-sort_ips [] = refl
map-sort_ips (h ∷ l) = ap (λ ps. place h ∷ ps) (map-sort_ips l)

-- What the code keeps of a target.
abbrev pub target : Mx → Place
target m = (m.pref, trim_end b'.' m.host)

map-append_one :
    (hs : List Host) (h g : Host)
    → place h ≡ place g
    → map place (hs ++ h ∷ []) ≡ map place (hs ++ g ∷ [])
map-append_one [] h g e = ap (λ p. p ∷ []) e
map-append_one (k ∷ hs) h g e = ap (λ ps. place k ∷ ps) (map-append_one hs h g e)

resolved-hosts :
    (h : Host) (a : Result (List Str)) (s : Routing)
    → map place (resolved h a s).hosts ≡ map place (s.hosts ++ h ∷ [])
unfolding resolved
resolved-hosts h (Result.err e) s = ground arith
resolved-hosts h (Result.ok []) s = refl
resolved-hosts h (Result.ok (ip ∷ ips)) s =
    map-append_one s.hosts (record h { ips = ip ∷ ips }) h refl

visit-hosts :
    (is_ip : Str → Bool) (r : Resolver) (m : Mx) (s : Routing)
    → map place (visit is_ip r m s).hosts ≡ map place (s.hosts ++ host_of m ∷ [])
unfolding visit
visit-hosts is_ip r m s = elim (Bool-cases (is_ip (host_of m).host)) [
  | inl e ↦ rw (e, visit) refl
  | inr e ↦
      rw (e, visit)
        (resolved-hosts (host_of m) (r.lookup_host s.calls (host_of m).host)
          (record s { calls = Question.lookup_host (host_of m).host ∷ s.calls }))
]

pub visit_all-hosts :
    (is_ip : Str → Bool) (r : Resolver) (ms : List Mx) (s : Routing)
    → map place (visit_all is_ip r ms s).hosts ≡ map place s.hosts ++ map target ms
unfolding visit_all host_of
visit_all-hosts is_ip r [] s = sym (append-nil (map place s.hosts))
visit_all-hosts is_ip r (m ∷ ms) s =
    visit_all-hosts is_ip r ms (visit is_ip r m s)
    ∙ ap (λ l. l ++ map target ms)
        (visit-hosts is_ip r m s ∙ map-append place s.hosts (host_of m ∷ []))
    ∙ append_assoc (map place s.hosts) (target m ∷ []) (map target ms)

is_null-perm : (l r : List Mx) → Perm l r → is_null l ≡ is_null r
unfolding is_null
is_null-perm [] [] p = refl
is_null-perm [] (n ∷ r) p = absurd (omega (arith, length-perm p))
is_null-perm (m ∷ []) [] p = absurd (omega (arith, length-perm p))
is_null-perm (m ∷ []) (n ∷ []) p =
    let test = λ (x : Mx). is_empty (trim_end b'.' x.host) in
    let there = λ (h : test m ≡ true). (All-perm test (m ∷ []) (n ∷ []) p (h, tt)).0 in
    let back = λ (h : test n ≡ true). (All-perm test (n ∷ []) (m ∷ []) (Perm.symm p) (h, tt)).0 in
    elim (Bool-cases (test m)) [
      | inl e ↦ e ∙ sym (there e)
      | inr e ↦ elim (Bool-cases (test n)) [ inl g ↦ back g ∙ sym g | inr g ↦ e ∙ sym g ]
    ]
is_null-perm (m ∷ []) (n ∷ o ∷ r) p = absurd (omega (arith, length-perm p))
is_null-perm (m ∷ k ∷ l) [] p = absurd (omega (arith, length-perm p))
is_null-perm (m ∷ k ∷ l) (n ∷ []) p = absurd (omega (arith, length-perm p))
is_null-perm (m ∷ k ∷ l) (n ∷ o ∷ r) p = refl

module _ (slice : Slice Host) (law : IsSlice slice) where
  sort_hosts-perm :
      (l r : List Host)
      → Perm (map place l) (map place r)
      → map place (sort_hosts slice l) ≡ map place (sort_hosts slice r)
  unfolding sort_hosts host_before before
  sort_hosts-perm l r p =
      map-sort_ips (slice host_before l)
      ∙ map-eq_of_perm place before before-IsOrder before_antisymm (slice host_before l)
          (slice host_before r) (law.orders host_before l host_before-IsOrder)
          (law.orders host_before r host_before-IsOrder)
          (Perm.trans (Perm.map place (law.rearranges host_before l))
            (Perm.trans p (Perm.symm (Perm.map place (law.rearranges host_before r)))))
      ∙ sym (map-sort_ips (slice host_before r))

  module _ (is_ip : Str → Bool) (r r' : Resolver) where
    routes-perm :
        (domain : Str) (ms ms' : List Mx) (calls : List Question)
        → Perm ms ms'
        → ms ≢ []
        → map place (routes is_ip r slice domain (Result.ok ms) calls).hosts
          ≡ map place (routes is_ip r' slice domain (Result.ok ms') calls).hosts
    unfolding routes finish
    routes-perm domain [] ms' calls p some_host = absurd (some_host refl)
    routes-perm domain (m ∷ ms) [] calls p some_host = absurd (omega (arith, length-perm p))
    routes-perm domain (m ∷ ms) (m' ∷ ms') calls p some_host =
        let same = is_null-perm (m ∷ ms) (m' ∷ ms') p in
        let fresh : Routing = record { hosts = []; flags = no_flags; calls = calls } in
        let left = visit_all-hosts is_ip r (m ∷ ms) fresh in
        let right = visit_all-hosts is_ip r' (m' ∷ ms') fresh in
        let sorted =
          sort_hosts-perm (visit_all is_ip r (m ∷ ms) fresh).hosts
            (visit_all is_ip r' (m' ∷ ms') fresh).hosts (rw (left, right) (Perm.map target p)) in
        elim (Bool-cases (is_null (m ∷ ms))) [
          | inl e ↦ rw (e, sym same ∙ e, routes) refl
          | inr e ↦ rw (e, sym same ∙ e, routes, finish) sorted
        ]

    -- The order in which a resolver lists the targets, and what it says of their addresses, does
    -- not show in the hosts that are returned, by preference and name: two resolvers whose MX
    -- answers hold the same targets, at least one, give the same hosts in the same order.
    pub lookup-perm :
        (domain : Str) (ms ms' : List Mx)
        → r.lookup_mx [] (normalize domain) ≡ Result.ok ms
        → r'.lookup_mx [] (normalize domain) ≡ Result.ok ms'
        → Perm ms ms'
        → ms ≢ []
        → map place (lookup is_ip r slice domain).hosts
          ≡ map place (lookup is_ip r' slice domain).hosts
    unfolding lookup
    lookup-perm domain ms ms' h h' p some_host =
        let d : Str = normalize domain in
        rw (h, h', lookup) (routes-perm d ms ms' (Question.lookup_mx d ∷ []) p some_host)
