-- ===== src/Dnsx/Names.antt =====
-- dnsx/dnsx.go: names by their labels.
use mailkit.Prelude.{
  ℕ, ◌<◌, List, [], ◌∷◌, ◌++◌, true, false, ◌||◌, ◌≡◌, ◌≢◌, ◌↔◌, refl, sym, ◌∙◌, ap, arith, inl,
  inr, ◌⊎◌, length, Bool-cases, is_empty,
}
use mathlib.Core.List.{append_assoc}
use mailkit.Text.{Str, eq_str, has_suffix, split, cons_head, join, separated}
use mailkit.Text.Equality.{eq_str_sound, eq_str_refl}
use mailkit.Text.Split.{join-split, length-split}
use mailkit.Dnsx.{normalize, is_subdomain_of, labels}

pub has_suffix_sound : (t s : Str) → has_suffix t s ≡ true → (p : Str) × (s ≡ p ++ t)
unfolding has_suffix
has_suffix_sound [] [] h = ([], refl)
has_suffix_sound (b ∷ t) [] h = cc
has_suffix_sound t (c ∷ s) h =
    let rest = has_suffix_sound t s in
    elim (Bool-cases (eq_str (c ∷ s) t)) [
      | inl e ↦ ([], eq_str_sound (c ∷ s) t e)
      | inr e ↦ let (p, q) = rest (ground arith) in (c ∷ p, ap (λ (l : Str). c ∷ l) q)
    ]

pub has_suffix_append : (t p : Str) → has_suffix t (p ++ t) ≡ true
unfolding has_suffix
has_suffix_append [] [] = refl
has_suffix_append (b ∷ t) [] = ground (arith, eq_str_refl (b ∷ t))
has_suffix_append t (c ∷ p) = ground (arith, has_suffix_append t p)

cons_head-append :
    (c : ℕ) (ps qs : List Str) → 0 < length ps → cons_head c ps ++ qs ≡ cons_head c (ps ++ qs)
unfolding cons_head
cons_head-append c [] qs h = absurd (omega arith)
cons_head-append c (p ∷ ps) qs h = refl

split-append : (b : ℕ) (p s : Str) → split b (p ++ b ∷ s) ≡ split b p ++ split b s
unfolding split
split-append b [] s = ground arith
split-append b (c ∷ p) s =
    ground
      (arith, split-append b p s, cons_head-append c (split b p) (split b s) (length-split b p))

separated-append :
    (b : ℕ) (ps qs : List Str) → separated b (ps ++ qs) ≡ separated b ps ++ separated b qs
unfolding separated
separated-append b [] qs = refl
separated-append b (p ∷ ps) qs =
    ap (λ l. b ∷ l)
      (ap (λ l. p ++ l) (separated-append b ps qs)
        ∙ sym (append_assoc p (separated b ps) (separated b qs)))

join-append :
    (b : ℕ) (p : Str) (ps qs : List Str)
    → 0 < length qs
    → join b (p ∷ (ps ++ qs)) ≡ join b (p ∷ ps) ++ b ∷ join b qs
unfolding join
join-append b p ps [] h = absurd (omega arith)
join-append b p ps (q ∷ qs) h =
    unfold separated in
    (ap (λ l. p ++ l) (separated-append b ps (q ∷ qs))
      ∙ sym (append_assoc p (separated b ps) (separated b (q ∷ qs))))

empty_cases : (s : Str) → (s ≡ []) ⊎ ((s ≢ []) × (is_empty s ≡ false))
empty_cases [] = inl refl
empty_cases (c ∷ s) = inr ((λ h. cc), refl)

suffix_of :
    (h n : Str) (above : List Str)
    → split b'.' h ≡ above ++ split b'.' n
    → (eq_str h n || has_suffix (b'.' ∷ n) h) ≡ true
suffix_of h n [] e =
    let same : h ≡ n = sym (join-split b'.' h) ∙ ap (λ l. join b'.' l) e ∙ join-split b'.' n in
    rw same (ground (arith, eq_str_refl n))
suffix_of h n (p ∷ ps) e =
    let whole =
      sym (join-split b'.' h)
      ∙ ap (λ l. join b'.' l) e
      ∙ join-append b'.' p ps (split b'.' n) (length-split b'.' n)
      ∙ ap (λ l. join b'.' (p ∷ ps) ++ b'.' ∷ l) (join-split b'.' n) in
    ground (arith, has_suffix_append (b'.' ∷ n) (join b'.' (p ∷ ps)), whole)

-- A text ends with a name at a label's boundary exactly when its labels end with those of the name.
suffix_iff :
    (h n : Str)
    → ((eq_str h n || has_suffix (b'.' ∷ n) h) ≡ true)
      ↔ ((above : List Str) × (split b'.' h ≡ above ++ split b'.' n))
suffix_iff h n = (
  λ e. elim (Bool-cases (eq_str h n)) [
    | inl same ↦ ([], ap (λ s. split b'.' s) (eq_str_sound h n same))
    | inr other ↦
        let (p, q) = has_suffix_sound (b'.' ∷ n) h (ground arith) in
        (split b'.' p, ap (λ s. split b'.' s) q ∙ split-append b'.' p n)
  ],
  λ x. suffix_of h n x.0 x.1,
)

labels_full :
    (name : Str) → is_empty (normalize name) ≡ false → labels name ≡ split b'.' (normalize name)
unfolding labels
labels_full name h = ground (arith, h)

not_inside : (host name : Str) → normalize host ≡ [] → is_subdomain_of host name ≢ true
unfolding is_subdomain_of
not_inside host name e = rw (e) (λ h. cc h)

not_inside_empty : (host name : Str) → normalize name ≡ [] → is_subdomain_of host name ≢ true
unfolding is_subdomain_of
not_inside_empty host name e =
    let empty : is_empty (normalize name) ≡ true = ap (λ (s : Str). is_empty s) e in
    ground (arith, empty)

-- A host is inside a name exactly when neither is empty once normalized, and the labels of the name
-- are the last labels of the host.
pub is_subdomain_of_iff :
    (host name : Str)
    → (is_subdomain_of host name ≡ true) ↔ (
        (normalize host ≢ [])
        × (normalize name ≢ [])
        × (above : List Str) × (labels host ≡ above ++ labels name))
unfolding is_subdomain_of
is_subdomain_of_iff host name = elim (empty_cases (normalize host)) [
  | inl e ↦ ((λ s. absurd (not_inside host name e s)), λ s. absurd (s.0 e))
  | inr (e, he) ↦ elim (empty_cases (normalize name)) [
    | inl g ↦ ((λ s. absurd (not_inside_empty host name g s)), λ s. absurd (s.1 g))
    | inr (g, ge) ↦
        rw (labels_full host he, labels_full name ge, he, ge)
          (let iff = suffix_iff (normalize host) (normalize name) in
            ((λ s. (e, g, (iff.0 s).0, (iff.0 s).1)), λ s. iff.1 (s.2, s.3)))
  ]
]
