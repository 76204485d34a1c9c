-- ===== src/Text/Equality.antt =====
-- Equality of texts, and membership in lists of texts.
use mailkit.Prelude.{List, [], ◌∷◌, ◌++◌, true, false, ◌||◌, ◌≡◌, ◌↔◌, refl, arith}
use mailkit.Text.{Str, eq_str, mem_str}

pub eq_str_sound : (s t : Str) → eq_str s t ≡ true → s ≡ t
unfolding eq_str
eq_str_sound [] [] h = refl
eq_str_sound [] (b ∷ t) h = cc
eq_str_sound (a ∷ s) [] h = cc
eq_str_sound (a ∷ s) (b ∷ t) h = ground (arith, eq_str_sound s t)

pub eq_str_refl : (s : Str) → eq_str s s ≡ true
unfolding eq_str
eq_str_refl [] = refl
eq_str_refl (a ∷ s) = ground (arith, eq_str_refl s)

pub eq_str_iff : (s t : Str) → (eq_str s t ≡ true) ↔ (s ≡ t)
eq_str_iff s t = (eq_str_sound s t, λ e. rw e (eq_str_refl t))

pub eq_str_comm : (s t : Str) → eq_str s t ≡ eq_str t s
eq_str_comm s t = ground (arith, eq_str_iff s t, eq_str_iff t s)

pub mem_str-append : (a : Str) (l m : List Str) → mem_str a (l ++ m) ≡ (mem_str a l || mem_str a m)
unfolding mem_str
mem_str-append a [] m = refl
mem_str-append a (b ∷ l) m = ground (arith, mem_str-append a l m)

-- No text stands twice.
abbrev pub IsDistinct : List Str → Type 0
IsDistinct [] = Unit
IsDistinct (a ∷ l) = (mem_str a l ≡ false) × IsDistinct l

pub IsDistinct-concat :
    (l : List Str) (a : Str) → IsDistinct l → mem_str a l ≡ false → IsDistinct (l ++ a ∷ [])
unfolding mem_str
IsDistinct-concat [] a _ h = (refl, tt)
IsDistinct-concat (b ∷ l) a (g, d) h = (
  ground (arith, mem_str-append b l (a ∷ []), eq_str_comm a b),
  IsDistinct-concat l a d (ground arith),
)
