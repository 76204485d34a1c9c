-- ===== src/Text/Words.antt =====
-- strings.Fields of words that stand apart.
use mailkit.Prelude.{
  ℕ, ◌∷◌, [], ◌++◌, true, false, not, Bool, ◌&&◌, is_empty, ◌≡◌, refl, ◌∙◌, arith,
}
use mailkit.Text.{
  Str, is_space, trim_left, keep, trim_right, trim_space, starts_word, cons_head, fields,
}

-- Whether a text has no space in it.
unfoldable pub is_word : Str → Bool
is_word [] = true
is_word (c ∷ s) = not (is_space c) && is_word s

-- Whether a text is all space.
unfoldable pub is_blank : Str → Bool
is_blank [] = true
is_blank (c ∷ s) = is_space c && is_blank s

fields-trim_left : (s : Str) → fields (trim_left s) ≡ fields s
unfolding fields trim_left
fields-trim_left [] = refl
fields-trim_left (c ∷ s) = ground (arith, fields-trim_left s)

starts_word-keep : (c : ℕ) (s : Str) → starts_word (keep c s) ≡ not (is_space c)
unfolding starts_word keep
starts_word-keep c [] = ground arith
starts_word-keep c (d ∷ s) = refl

starts_word-trim_right : (s : Str) → starts_word (trim_right s) ≡ starts_word s
unfolding starts_word trim_right
starts_word-trim_right [] = refl
starts_word-trim_right (c ∷ s) = starts_word-keep c (trim_right s)

fields-keep :
    (c : ℕ) (s t : Str)
    → fields s ≡ fields t
    → starts_word s ≡ starts_word t
    → fields (keep c s) ≡ fields (c ∷ t)
unfolding fields keep
fields-keep c [] t h g = unfold starts_word in ground (arith, h, g)
fields-keep c (d ∷ s) t h g = ground (arith, h, g)

fields-trim_right : (s : Str) → fields (trim_right s) ≡ fields s
unfolding trim_right
fields-trim_right [] = refl
fields-trim_right (c ∷ s) =
    fields-keep c (trim_right s) s (fields-trim_right s) (starts_word-trim_right s)

-- Space around a text is not seen in its fields.
pub fields-trim_space : (s : Str) → fields (trim_space s) ≡ fields s
unfolding trim_space
fields-trim_space s = fields-trim_right (trim_left s) ∙ fields-trim_left s

pub fields-blank : (gap s : Str) → is_blank gap ≡ true → fields (gap ++ s) ≡ fields s
unfolding fields is_blank
fields-blank [] s h = refl
fields-blank (c ∷ gap) s h = ground (arith, fields-blank gap s, h)

-- A word in front of a text that begins with space, or is empty, is the first of the fields.
pub fields-word :
    (w s : Str)
    → is_word w ≡ true
    → is_empty w ≡ false
    → starts_word s ≡ false
    → fields (w ++ s) ≡ w ∷ fields s
unfolding fields is_word starts_word cons_head
fields-word [] s h n g = cc
fields-word (c ∷ []) s h n g = ground (arith, h, g)
fields-word (c ∷ d ∷ w) s h n g = ground (arith, fields-word (d ∷ w) s, h, g)
