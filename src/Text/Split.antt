-- ===== src/Text/Split.antt =====
-- strings.Split and strings.Join.
use mailkit.Prelude.{ℕ, ◌<◌, List, [], ◌∷◌, ◌≡◌, refl, arith, length}
use mailkit.Text.{Str, split, join, separated, cons_head}

pub length-split : (b : ℕ) (s : Str) → 0 < length (split b s)
unfolding split cons_head
length-split b [] = omega arith
length-split b (c ∷ s) = ground (arith, length-split b s)

join-nil_cons : (b : ℕ) (ps : List Str) → 0 < length ps → join b ([] ∷ ps) ≡ b ∷ join b ps
unfolding join separated
join-nil_cons b [] h = absurd (omega arith)
join-nil_cons b (p ∷ ps) h = refl

join-cons_head : (b c : ℕ) (ps : List Str) → 0 < length ps → join b (cons_head c ps) ≡ c ∷ join b ps
unfolding join cons_head
join-cons_head b c [] h = absurd (omega arith)
join-cons_head b c (p ∷ ps) h = refl

-- Joining what a split gave restores the text.
pub join-split : (b : ℕ) (s : Str) → join b (split b s) ≡ s
unfolding split
join-split b [] = unfold join separated in refl
join-split b (c ∷ s) = ground (
  arith,
  join-split b s,
  length-split b s,
  join-nil_cons b (split b s),
  join-cons_head b c (split b s),
)
