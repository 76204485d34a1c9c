-- ===== src/Spf/Written.antt =====
-- spf/terms.go: the texts of terms, as a record is written, and what they mean.
pub mod Single
pub mod Record
use mailkit.Prelude.{
  ℕ, suc, ◌+◌, List, [], ◌∷◌, ◌++◌, map, Bool, true, false, not, ◌&&◌, ◌||◌, Option, none, some,
  ltb, ◌==◌, if◌then◌else◌, is_empty, length, take, drop, take-length, ◌≡◌, refl, sym, ap, ◌∙◌,
  arith, All, Bool-cases, Option-cases, inl, inr, append_assoc,
}
use mailkit.Text.{Str, codes, to_lower, contains, index}
use mailkit.Text.Places.{contains-append, index-absent, index-append, index-here, drop-past}
use mailkit.Spf.Terms.{Term, modifier_at, split_qualifier, mechanism, parse_term}

-- A term as it is written: a modifier by its name and value; or a mechanism, behind a qualifier or
-- none, by its name alone, with a value, or with the length of a prefix.
pub data Written : Type 0 where
  modifier : Str → Str → Written
  named : Option ℕ → Str → Written
  valued : Option ℕ → Str → Str → Written
  sized : Option ℕ → Str → Str → Written

unfoldable pub sign : Option ℕ → Str
sign none = []
sign (some c) = c ∷ []

unfoldable pub text_of : Written → Str
text_of (Written.modifier name value) = name ++ b'=' ∷ value
text_of (Written.named q name) = sign q ++ name
text_of (Written.valued q name value) = (sign q ++ name) ++ b':' ∷ value
text_of (Written.sized q name bits) = (sign q ++ name) ++ b'/' ∷ bits

unfoldable pub is_sign : ℕ → Bool
is_sign c = c == b'+' || c == b'-' || c == b'~' || c == b'?'

unfoldable pub is_signed : Str → Bool
is_signed [] = false
is_signed (c ∷ s) = is_sign c

-- Whether a name can stand behind a qualifier, or none: it has none of the bytes that end a name,
-- and its first is no qualifier, unless one stands in front.
unfoldable pub is_name : Option ℕ → Str → Bool
is_name none name =
    not (is_empty name)
    && not (is_signed name)
    && not (contains b':' name)
    && not (contains b'=' name)
    && not (contains b'/' name)
is_name (some c) name =
    is_sign c && not (contains b':' name) && not (contains b'=' name) && not (contains b'/' name)

unfoldable pub is_written : Written → Bool
is_written (Written.modifier name value) =
    not (is_empty name) && not (contains b':' name) && not (contains b'=' name)
is_written (Written.named q name) = is_name q name
is_written (Written.valued q name value) = is_name q name
is_written (Written.sized q name bits) =
    is_name q name && not (contains b':' bits) && not (contains b'=' bits)

-- The qualifier that a mechanism has: "+" where none is written.
unfoldable pub qualifier_of : Option ℕ → Str
qualifier_of none = codes "+"
qualifier_of (some c) = c ∷ []

-- A mechanism, from its text, its qualifier, its name and its value.
unfoldable pub mechanism_of : Str → Option ℕ → Str → Str → Term
mechanism_of raw q name value = record {
  raw = raw;
  qualifier = qualifier_of q;
  name = to_lower name;
  value = value;
  modifier = false;
}

-- What a term means.
unfoldable pub term_of : Written → Term
term_of (Written.modifier name value) = record {
  raw = text_of (Written.modifier name value);
  qualifier = [];
  name = to_lower name;
  value = value;
  modifier = true;
}
term_of (Written.named q name) = mechanism_of (text_of (Written.named q name)) q name []
term_of (Written.valued q name value) =
    mechanism_of (text_of (Written.valued q name value)) q name value
term_of (Written.sized q name bits) = mechanism_of (text_of (Written.sized q name bits)) q name []
