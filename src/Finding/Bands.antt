-- ===== src/Finding/Bands.antt =====
-- Sorting by severity as one sort by code for each severity.
use mailkit.Prelude.{
  ℕ, zero, suc, ◌+◌, ◌≤◌, ◌<◌, List, [], ◌∷◌, ◌++◌, append-nil, Bool, true, false, not, ◌||◌, ◌==◌,
  ◌≡◌, refl, sym, ap, ◌∙◌, arith, All, All-map, All-append, Bool-cases, inl, inr,
}
use mailkit.Text.{Str, codes, eq_str}
use mailkit.Text.Equality.{eq_str_sound}
use mailkit.Text.Order.{lt_str}
use mailkit.Sorting.{insert, insertion, passing}
use mailkit.Sorting.Laws.{insertion-All}
use mailkit.Finding.{Finding, rank, more_severe, sort_by_severity}

-- Where an element is put when all before it stay before, or when none behind it has to.
module _ {ℓ} {A : Type ℓ} (less : A → A → Bool) (x : A) where
  insert-behind :
      (ys zs : List A)
      → All (λ y. less y x ≡ true) ys
      → insert less x (ys ++ zs) ≡ ys ++ insert less x zs
  unfolding insert
  insert-behind [] zs h = refl
  insert-behind (y ∷ ys) zs (e, h) = rw (e, insert) (ap (λ l. y ∷ l) (insert-behind ys zs h))

  insert-first : (zs : List A) → All (λ y. less y x ≡ false) zs → insert less x zs ≡ x ∷ zs
  unfolding insert
  insert-first [] h = refl
  insert-first (z ∷ zs) (e, h) = ground (arith, e)

  insert-before :
      (less' : A → A → Bool) (ys zs : List A)
      → All (λ y. less y x ≡ less' y x) ys
      → All (λ y. less y x ≡ false) zs
      → insert less x (ys ++ zs) ≡ insert less' x ys ++ zs
  unfolding insert
  insert-before less' [] zs _ h = insert-first zs h
  insert-before less' (y ∷ ys) zs (e, g) h = rw e (ground (arith, insert-before less' ys zs g h))

passing-All {ℓ} : {A : Type ℓ} (p : A → Bool) (l : List A) → All (λ x. p x ≡ true) (passing p l)
unfolding passing
passing-All p [] = tt
passing-All p (x ∷ xs) = elim (Bool-cases (p x)) [
  | inl e ↦ rw (e, passing) (e, passing-All p xs)
  | inr e ↦ rw (e, passing) (passing-All p xs)
]

passing-ext {ℓ} :
    {A : Type ℓ} (p q : A → Bool) → ((x : A) → p x ≡ q x) → (l : List A) → passing p l ≡ passing q l
unfolding passing
passing-ext p q h [] = refl
passing-ext p q h (x ∷ xs) = rw (h x, passing-ext p q h xs) refl

abbrev pub code_before : Finding → Finding → Bool
code_before f g = lt_str f.code g.code

abbrev at_rank : ℕ → Finding → Bool
at_rank k f = rank f.severity == k

-- The findings of some ranks, from `k` on, by code within each.
abbrev band : ℕ → List Finding → List Finding
band k s = insertion code_before (passing (at_rank k) s)

abbrev bands : ℕ → ℕ → List Finding → List Finding
bands k zero s = []
bands k (suc n) s = band k s ++ bands (suc k) n s

band-All : (k : ℕ) (s : List Finding) → All (λ f. at_rank k f ≡ true) (band k s)
band-All k s =
    insertion-All code_before (λ f. at_rank k f ≡ true) (passing (at_rank k) s)
      (passing-All (at_rank k) s)

bands-All : (k n : ℕ) (s : List Finding) → All (λ f. k ≤ rank f.severity) (bands k n s)
bands-All k zero s = tt
bands-All k (suc n) s =
    let here =
      All-map (λ f. at_rank k f ≡ true) (λ f. k ≤ rank f.severity) (λ f h. ground arith) (band k s)
        (band-All k s) in
    let rest =
      All-map (λ f. suc k ≤ rank f.severity) (λ f. k ≤ rank f.severity) (λ f h. omega arith)
        (bands (suc k) n s) (bands-All (suc k) n s) in
    All-append (λ f. k ≤ rank f.severity) (band k s) (bands (suc k) n s) here rest

module _ (x : Finding) (s : List Finding) where
  band-other : (k : ℕ) → at_rank k x ≡ false → band k (x ∷ s) ≡ band k s
  unfolding passing
  band-other k h = rw h refl

  band-own : (k : ℕ) → at_rank k x ≡ true → band k (x ∷ s) ≡ insert code_before x (band k s)
  unfolding passing insertion
  band-own k h = rw h refl

  bands-above : (k n : ℕ) → rank x.severity < k → bands k n (x ∷ s) ≡ bands k n s
  bands-above k zero h = refl
  bands-above k (suc n) h =
      rw (band-other k (ground arith), bands-above (suc k) n (omega arith)) refl

  insert-bands :
      (k n : ℕ)
      → k ≤ rank x.severity
      → rank x.severity < k + n
      → insert more_severe x (bands k n s) ≡ bands k n (x ∷ s)
  unfolding more_severe
  insert-bands k zero low high = absurd (omega arith)
  insert-bands k (suc n) low high = elim (Bool-cases (at_rank k x)) [
    | inl e ↦
        let own =
          All-map (λ f. at_rank k f ≡ true) (λ f. more_severe f x ≡ code_before f x)
            (λ f h. ground (arith, e)) (band k s) (band-All k s) in
        let behind =
          All-map (λ f. suc k ≤ rank f.severity) (λ f. more_severe f x ≡ false)
            (λ f h. ground (arith, e)) (bands (suc k) n s) (bands-All (suc k) n s) in
        insert-before more_severe x code_before (band k s) (bands (suc k) n s) own behind
        ∙ rw (band-own k e, bands-above (suc k) n (ground (arith, e))) refl
    | inr e ↦
        let before =
          All-map (λ f. at_rank k f ≡ true) (λ f. more_severe f x ≡ true) (λ f h. ground (arith, e))
            (band k s) (band-All k s) in
        insert-behind more_severe x (band k s) (bands (suc k) n s) before
        ∙ rw (band-other k e, insert-bands (suc k) n (ground (arith, e)) (omega arith)) refl
  ]

rank_bound : (s : Str) → rank s < 4
unfolding rank
rank_bound s = ground arith

sorted-bands : (s : List Finding) → sort_by_severity s ≡ bands 0 4 s
unfolding sort_by_severity insertion passing
sorted-bands [] = refl
sorted-bands (x ∷ s) =
    ap (insert more_severe x) (sorted-bands s)
    ∙ insert-bands x s 0 4 (omega arith) (omega (arith, rank_bound x.severity))

-- The findings of one severity, by code; those of the same code stay as they were.
abbrev pub of_severity : Str → List Finding → List Finding
of_severity severity s = insertion code_before (passing (λ f. eq_str f.severity severity) s)

abbrev pub is_other : Finding → Bool
is_other f = not (
    eq_str f.severity (codes "critical")
    || eq_str f.severity (codes "warning")
    || eq_str f.severity (codes "info"))

-- The findings of any other severity, by code.
abbrev pub of_other : List Finding → List Finding
of_other s = insertion code_before (passing is_other s)

severity_cases :
    (s : Str)
    → ((rank s == 0) ≡ eq_str s (codes "critical"))
      × ((rank s == 1) ≡ eq_str s (codes "warning"))
      × ((rank s == 2) ≡ eq_str s (codes "info"))
unfolding rank eq_str
severity_cases s = elim (Bool-cases (eq_str s (codes "critical"))) [
  | inl e ↦ rw (eq_str_sound s (codes "critical") e) (refl, refl, refl)
  | inr e ↦ elim (Bool-cases (eq_str s (codes "warning"))) [
    | inl f ↦ rw (eq_str_sound s (codes "warning") f) (refl, refl, refl)
    | inr f ↦ ground arith
  ]
]

other_rank : (f : Finding) → at_rank 3 f ≡ is_other f
unfolding rank
other_rank f = ground arith

-- Sorting by severity gives the critical findings, then the warnings, then those for information,
-- then any of another severity: each part is in the order of the codes, and findings of the same
-- severity and code stay in the order in which they were.
pub sort_by_severity_lem :
    (s : List Finding)
    → sort_by_severity s
      ≡ of_severity (codes "critical") s
        ++ (of_severity (codes "warning") s ++ (of_severity (codes "info") s ++ of_other s))
sort_by_severity_lem s =
    let same = λ (p q : Finding → Bool) (h : (f : Finding) → p f ≡ q f).
      ap (insertion code_before) (passing-ext p q h s) in
    sorted-bands s
    ∙ rw
        (
          sym (same (at_rank 0) _ (λ f. (severity_cases f.severity).0)),
          sym (same (at_rank 1) _ (λ f. (severity_cases f.severity).1)),
          sym (same (at_rank 2) _ (λ f. (severity_cases f.severity).2)),
          sym (same (at_rank 3) is_other other_rank),
          append-nil,
        )
        refl
