-- ===== src/Text/Places.antt =====
-- The place of a byte in a text, and the texts before and behind it.
use mailkit.Prelude.{
  ℕ, suc, ◌+◌, ◌∷◌, [], ◌++◌, false, ◌||◌, none, some, length, drop, ◌≡◌, refl, ap, ◌∙◌, arith,
}
use mailkit.Text.{Str, contains, index}

pub contains-append : (b : ℕ) (x y : Str) → contains b (x ++ y) ≡ (contains b x || contains b y)
unfolding contains
contains-append b [] y = refl
contains-append b (c ∷ x) y = ground (arith, contains-append b x y)

pub index-absent : (b : ℕ) (x : Str) → contains b x ≡ false → index b x ≡ none
unfolding contains index
index-absent b [] h = refl
index-absent b (c ∷ x) h = ground (arith, index-absent b x, h)

-- A byte that is not in the first of two texts is looked for in the second.
pub index-append :
    (b : ℕ) (x y : Str)
    → contains b x ≡ false
    → index b (x ++ y) ≡ elim (index b y) [ none ↦ none | some i ↦ some (length x + i) ]
unfolding contains index
index-append b [] y h = ground arith
index-append b (c ∷ x) y h = ground (arith, index-append b x y, h)

pub index-here : (b : ℕ) (x y : Str) → contains b x ≡ false → index b (x ++ b ∷ y) ≡ some (length x)
unfolding contains index
index-here b [] y h = ground arith
index-here b (c ∷ x) y h = ground (arith, index-here b x y, h)

drop_behind : (b : ℕ) (x y : Str) → drop (suc (length x)) (x ++ b ∷ y) ≡ y
drop_behind b [] y = refl
drop_behind b (c ∷ x) y = drop_behind b x y

pub drop-past : (b : ℕ) (x y : Str) → drop (length x + 1) (x ++ b ∷ y) ≡ y
drop-past b x y =
    let next : length x + 1 ≡ suc (length x) = omega arith in
    ap (λ n. drop n (x ++ b ∷ y)) next ∙ drop_behind b x y
