-- ===== src/Text/Order.antt =====
-- The order of texts by their bytes: Go's `<` on strings.
use mailkit.Prelude.{[], ◌∷◌, Bool, true, false, ltb, ◌==◌, if◌then◌else◌, ◌≡◌, refl, arith}
use mailkit.Text.{Str}

unfoldable pub lt_str : Str → Str → Bool
lt_str [] [] = false
lt_str [] (b ∷ t) = true
lt_str (a ∷ s) [] = false
lt_str (a ∷ s) (b ∷ t) = if a == b then lt_str s t else ltb a b

pub lt_str_asymm : (s t : Str) → lt_str s t ≡ true → lt_str t s ≡ false
unfolding lt_str
lt_str_asymm [] [] h = refl
lt_str_asymm [] (b ∷ t) h = refl
lt_str_asymm (a ∷ s) [] h = cc
lt_str_asymm (a ∷ s) (b ∷ t) h = ground (arith, lt_str_asymm s t)

-- "Not after" is transitive.
pub lt_str_trans : (s t u : Str) → lt_str t s ≡ false → lt_str u t ≡ false → lt_str u s ≡ false
unfolding lt_str
lt_str_trans [] [] [] h k = refl
lt_str_trans [] [] (c ∷ u) h k = refl
lt_str_trans [] (b ∷ t) [] h k = refl
lt_str_trans [] (b ∷ t) (c ∷ u) h k = refl
lt_str_trans (a ∷ s) [] [] h k = cc
lt_str_trans (a ∷ s) [] (c ∷ u) h k = cc
lt_str_trans (a ∷ s) (b ∷ t) [] h k = cc
lt_str_trans (a ∷ s) (b ∷ t) (c ∷ u) h k = ground (arith, lt_str_trans s t u)

-- Texts of which neither is before the other are the same.
pub lt_str_antisymm : (s t : Str) → lt_str s t ≡ false → lt_str t s ≡ false → s ≡ t
unfolding lt_str
lt_str_antisymm [] [] h k = refl
lt_str_antisymm [] (b ∷ t) h k = cc
lt_str_antisymm (a ∷ s) [] h k = cc
lt_str_antisymm (a ∷ s) (b ∷ t) h k = ground (arith, lt_str_antisymm s t)
