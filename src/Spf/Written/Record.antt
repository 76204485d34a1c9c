-- ===== src/Spf/Written/Record.antt =====
-- spf/terms.go: a whole record, as it is written, and what Parse makes of it.
use mailkit.Prelude.{
  ℕ, List, [], ◌∷◌, ◌++◌, map, true, false, is_empty, ◌≡◌, refl, sym, ap, ◌∙◌, arith, All,
  append-nil, Option, none, some,
}
use mailkit.Text.{
  Str, eq_str, to_lower, equal_fold, trim_left, trim_right, fields, starts_word, trim_space,
}
use mailkit.Text.Words.{is_word, is_blank, fields-trim_space, fields-blank, fields-word}
use mailkit.Spf.Terms.{is_version, parse_term, parse_fields, parse}
use mailkit.Spf.Written.{Written, sign, text_of, is_name, is_written, term_of}
use mailkit.Spf.Written.Single.{parse_term-text_of}

-- Terms with the space in front of each, and the space at the end.
unfoldable pub spread : Str → List (Str × Written) → Str
spread trail [] = trail
spread trail ((gap, w) ∷ ws) = gap ++ (text_of w ++ spread trail ws)

-- Space and a term that is written as it should be, without space in it.
abbrev pub IsTerm : Str × Written → Type 0
IsTerm (gap, w) =
    (is_blank gap ≡ true)
    × (is_empty gap ≡ false)
    × (is_written w ≡ true)
    × (is_word (text_of w) ≡ true)

is_empty-sign :
    (q : Option ℕ) (name rest : Str)
    → is_name q name ≡ true
    → is_empty ((sign q ++ name) ++ rest) ≡ false
unfolding sign is_name
is_empty-sign none [] rest h = cc
is_empty-sign none (c ∷ name) rest h = refl
is_empty-sign (some c) name rest h = refl

text_of-full : (w : Written) → is_written w ≡ true → is_empty (text_of w) ≡ false
unfolding text_of is_written
text_of-full (Written.modifier [] value) h = cc
text_of-full (Written.modifier (c ∷ name) value) h = refl
text_of-full (Written.named q name) h =
    ap is_empty (sym (append-nil (sign q ++ name))) ∙ is_empty-sign q name [] h
text_of-full (Written.valued q name value) h = is_empty-sign q name _ h
text_of-full (Written.sized q name bits) h = is_empty-sign q name _ (ground (arith, h))

fields_of_blank : (s : Str) → is_blank s ≡ true → fields s ≡ []
fields_of_blank s h = ap fields (sym (append-nil s)) ∙ fields-blank s [] h ∙ unfold fields in refl

starts_word-blank :
    (s t : Str) → is_blank s ≡ true → is_empty s ≡ false → starts_word (s ++ t) ≡ false
unfolding starts_word is_blank
starts_word-blank [] t h n = cc
starts_word-blank (c ∷ s) t h n = ground (arith, h)

starts_word_of_blank : (s : Str) → is_blank s ≡ true → starts_word s ≡ false
unfolding starts_word is_blank
starts_word_of_blank [] h = refl
starts_word_of_blank (c ∷ s) h = ground (arith, h)

starts_word-spread :
    (trail : Str) (ws : List (Str × Written))
    → is_blank trail ≡ true
    → All IsTerm ws
    → starts_word (spread trail ws) ≡ false
unfolding spread
starts_word-spread trail [] b h = starts_word_of_blank trail b
starts_word-spread trail ((gap, w) ∷ ws) b ((g, n, k, t), h) = starts_word-blank gap _ g n

fields-spread :
    (trail : Str) (ws : List (Str × Written))
    → is_blank trail ≡ true
    → All IsTerm ws
    → fields (spread trail ws) ≡ map (λ (x : Str × Written). text_of x.1) ws
unfolding spread
fields-spread trail [] b h = fields_of_blank trail b
fields-spread trail ((gap, w) ∷ ws) b ((g, n, k, t), h) =
    fields-blank gap _ g
    ∙ fields-word (text_of w) (spread trail ws) t (text_of-full w k)
        (starts_word-spread trail ws b h)
    ∙ ap (λ l. text_of w ∷ l) (fields-spread trail ws b h)

parse_terms :
    (ws : List (Str × Written))
    → All IsTerm ws
    → map parse_term (map (λ (x : Str × Written). text_of x.1) ws)
      ≡ map (λ (x : Str × Written). term_of x.1) ws
parse_terms [] h = refl
parse_terms ((gap, w) ∷ ws) ((g, n, k, t), h) =
    ap (λ x. x ∷ map parse_term (map (λ (x : Str × Written). text_of x.1) ws))
      (parse_term-text_of w k)
    ∙ ap (λ l. term_of w ∷ l) (parse_terms ws h)

version_full : (version : Str) → is_version version ≡ true → is_empty version ≡ false
unfolding is_version equal_fold to_lower trim_space trim_left trim_right eq_str
version_full [] h = cc
version_full (c ∷ version) h = refl

-- A record is read as the terms that it is written from: a version word, terms behind space, and
-- any space around the whole. A term is a modifier, or a mechanism with a qualifier or none, by its
-- name, with a value, or with the length of a prefix, where no name holds a byte that would end it.
pub parse-spread :
    (lead version trail : Str) (ws : List (Str × Written))
    → is_blank lead ≡ true
    → is_word version ≡ true
    → is_version version ≡ true
    → is_blank trail ≡ true
    → All IsTerm ws
    → parse (lead ++ (version ++ spread trail ws)) ≡ map (λ (x : Str × Written). term_of x.1) ws
unfolding parse parse_fields
parse-spread lead version trail ws l v i b h =
    let words : fields (trim_space (lead ++ (version ++ spread trail ws)))
        ≡ version ∷ map (λ (x : Str × Written). text_of x.1) ws =
      fields-trim_space (lead ++ (version ++ spread trail ws))
      ∙ fields-blank lead (version ++ spread trail ws) l
      ∙ fields-word version (spread trail ws) v (version_full version i)
          (starts_word-spread trail ws b h)
      ∙ ap (λ x. version ∷ x) (fields-spread trail ws b h) in
    rw (words, parse_fields, i) (parse_terms ws h)
