-- ===== src/Finding/Order.antt =====
-- What does not depend on the order of a set of findings, and its worst severity.
use mathlib.Core.List.{Perm}
use mathlib.Core.List.Perm
use mailkit.Prelude.{
  map, ◌⊎◌, ◌≤◌, List, [], ◌∷◌, true, ◌||◌, ltb, if◌then◌else◌, is_empty, ◌≡◌, refl, arith, All,
  inl,
}
use mailkit.Text.{Str, eq_str, mem_str}
use mailkit.Text.Equality.{eq_str_refl}
use mailkit.Sorting.{IsOrder, insertion}
use mailkit.Sorting.Laws.{insertion-perm, insertion-IsOrdered}
use mailkit.Sorting.Unique.{map-eq_of_perm}
use mailkit.Sorting.Place.{Place, before, before-IsOrder, before_antisymm}
use mailkit.Finding.{Finding, rank, worst, worst_from, more_severe, sort_by_severity}

abbrev pub place : Finding → Place
place f = (rank f.severity, f.code)

-- The order as the code writes it, by the severity's rank and then the code.
more_severe-IsOrder : IsOrder more_severe
unfolding more_severe before
more_severe-IsOrder = record {
  asymm = λ f g h. before-IsOrder.asymm (place f) (place g) h;
  trans = λ f g h a b. before-IsOrder.trans (place f) (place g) (place h) a b;
}

-- Two sets with the same findings, in whatever order, show the same severities and codes in the
-- same order once they are sorted.
pub sort_by_severity-perm :
    (s t : List Finding)
    → Perm s t
    → map place (sort_by_severity s) ≡ map place (sort_by_severity t)
unfolding sort_by_severity more_severe before
sort_by_severity-perm s t p =
    map-eq_of_perm place before before-IsOrder before_antisymm (insertion more_severe s)
      (insertion more_severe t) (insertion-IsOrdered more_severe more_severe-IsOrder s)
      (insertion-IsOrdered more_severe more_severe-IsOrder t)
      (Perm.map place (
        Perm.trans (insertion-perm more_severe s)
          (Perm.trans p (Perm.symm (insertion-perm more_severe t)))))

rank_bound : (s : Str) → rank s ≤ 3
unfolding rank
rank_bound s = ground arith

rank_empty : (s : Str) → is_empty s ≡ true → rank s ≡ 3
unfolding rank eq_str
rank_empty [] h = refl
rank_empty (c ∷ s) h = cc

abbrev taken : Str → Finding → Str
taken w f = if is_empty w || ltb (rank f.severity) (rank w) then f.severity else w

taken_bound :
    (w : Str) (f : Finding) → (rank (taken w f) ≤ rank w) × (rank (taken w f) ≤ rank f.severity)
taken_bound w f = ground (arith, rank_bound f.severity, rank_empty w)

worst_from_bound :
    (w : Str) (s : List Finding)
    → (rank (worst_from w s) ≤ rank w) × All (λ f. rank (worst_from w s) ≤ rank f.severity) s
unfolding worst_from
worst_from_bound w [] = (omega arith, tt)
worst_from_bound w (f ∷ s) =
    let rest = worst_from_bound (taken w f) s in
    let here = taken_bound w f in
    (omega (arith, rest.0, here.0), (omega (arith, rest.0, here.1), rest.1))

abbrev pub severities : List Finding → List Str
severities s = map (λ f. f.severity) s

worst_from-mem :
    (w : Str) (s : List Finding)
    → (worst_from w s ≡ w) ⊎ (mem_str (worst_from w s) (severities s) ≡ true)
unfolding worst_from mem_str
worst_from-mem w [] = inl refl
worst_from-mem w (f ∷ s) = ground (arith, worst_from-mem (taken w f) s, eq_str_refl f.severity)

-- The worst severity of a set with a finding is the severity of one of its findings, and no finding
-- ranks before it.
pub worst_lem :
    (f : Finding) (s : List Finding)
    → (mem_str (worst (f ∷ s)) (severities (f ∷ s)) ≡ true)
      × All (λ g. rank (worst (f ∷ s)) ≤ rank g.severity) (f ∷ s)
unfolding worst worst_from mem_str
worst_lem f s = (
  ground (arith, worst_from-mem f.severity s, eq_str_refl f.severity),
  (worst_from_bound [] (f ∷ s)).1,
)
