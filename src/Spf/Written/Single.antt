-- ===== src/Spf/Written/Single.antt =====
-- spf/terms.go: one term, as it is written, and what parseTerm makes of it.
use mailkit.Prelude.{
  ℕ, suc, [], ◌∷◌, ◌++◌, true, false, Option, none, some, ◌==◌, is_empty, length, take-length, ◌≡◌,
  refl, arith,
}
use mailkit.Text.{Str, contains, index}
use mailkit.Text.Places.{contains-append, index-absent, index-append, index-here, drop-past}
use mailkit.Spf.Terms.{modifier_at, split_qualifier, mechanism, parse_term}
use mailkit.Spf.Written.{
  Written, sign, text_of, is_sign, is_signed, is_name, is_written, qualifier_of, mechanism_of,
  term_of,
}

modifier_at-modifier :
    (name value : Str)
    → is_empty name ≡ false
    → contains b':' name ≡ false
    → contains b'=' name ≡ false
    → modifier_at (name ++ b'=' ∷ value) ≡ some (length name)
unfolding modifier_at
modifier_at-modifier [] value n c e = cc
modifier_at-modifier (d ∷ name) value n c e =
    let equals = index-here b'=' (d ∷ name) value e in
    let colon = index-append b':' (d ∷ name) (b'=' ∷ value) c in
    let behind : index b':' (b'=' ∷ value)
        ≡ elim (index b':' value) [ none ↦ none | some i ↦ some (suc i) ] =
      unfold index in refl in
    ground (arith, equals, colon, behind)

modifier_at-absent : (f : Str) → contains b'=' f ≡ false → modifier_at f ≡ none
unfolding modifier_at
modifier_at-absent f e = ground (arith, index-absent b'=' f e)

modifier_at-valued :
    (head value : Str)
    → contains b':' head ≡ false
    → contains b'=' head ≡ false
    → modifier_at (head ++ b':' ∷ value) ≡ none
unfolding modifier_at
modifier_at-valued head value c e =
    let colon = index-here b':' head value c in
    let equals = index-append b'=' head (b':' ∷ value) e in
    let behind : index b'=' (b':' ∷ value)
        ≡ elim (index b'=' value) [ none ↦ none | some i ↦ some (suc i) ] =
      unfold index in refl in
    ground (arith, equals, colon, behind)

-- The qualifier is cut off in front of a name and what follows it.
split_qualifier-name :
    (q : Option ℕ) (name rest : Str)
    → is_name q name ≡ true
    → split_qualifier ((sign q ++ name) ++ rest) ≡ (qualifier_of q, name ++ rest)
unfolding split_qualifier is_name is_signed is_sign qualifier_of sign
split_qualifier-name none [] rest h = cc
split_qualifier-name none (c ∷ name) rest h = ground (arith, h)
split_qualifier-name (some c) name rest h = ground (arith, h)

split_qualifier-alone :
    (q : Option ℕ) (name : Str)
    → is_name q name ≡ true
    → split_qualifier (sign q ++ name) ≡ (qualifier_of q, name)
unfolding split_qualifier is_name is_signed is_sign qualifier_of sign
split_qualifier-alone none [] h = cc
split_qualifier-alone none (c ∷ name) h = ground (arith, h)
split_qualifier-alone (some c) name h = ground (arith, h)

contains-cons :
    (b c : ℕ) (x y : Str)
    → (c == b) ≡ false
    → contains b x ≡ false
    → contains b y ≡ false
    → contains b (x ++ c ∷ y) ≡ false
unfolding contains
contains-cons b c x y n h g = ground (arith, contains-append b x (c ∷ y), n, h, g)

mechanism-valued :
    (f : Str) (q : Option ℕ) (name value : Str)
    → contains b':' name ≡ false
    → mechanism f (qualifier_of q) (name ++ b':' ∷ value) ≡ mechanism_of f q name value
unfolding mechanism mechanism_of
mechanism-valued f q name value c =
    rw
      (
        index-here b':' name value c,
        mechanism,
        take-length name (b':' ∷ value),
        drop-past b':' name value,
      )
      refl

mechanism-sized :
    (f : Str) (q : Option ℕ) (name bits : Str)
    → contains b':' (name ++ b'/' ∷ bits) ≡ false
    → contains b'/' name ≡ false
    → mechanism f (qualifier_of q) (name ++ b'/' ∷ bits) ≡ mechanism_of f q name []
unfolding mechanism mechanism_of
mechanism-sized f q name bits c s =
    rw
      (
        index-absent b':' (name ++ b'/' ∷ bits) c,
        index-here b'/' name bits s,
        mechanism,
        take-length name (b'/' ∷ bits),
      )
      refl

mechanism-named :
    (f : Str) (q : Option ℕ) (name : Str)
    → contains b':' name ≡ false
    → contains b'/' name ≡ false
    → mechanism f (qualifier_of q) name ≡ mechanism_of f q name []
unfolding mechanism mechanism_of
mechanism-named f q name c s =
    rw (index-absent b':' name c, index-absent b'/' name s, mechanism) refl

module _ (q : Option ℕ) (name : Str) (h : is_name q name ≡ true) where
  no_colon : contains b':' name ≡ false
  unfolding is_name
  no_colon = ground (arith, h)

  no_equals : contains b'=' name ≡ false
  unfolding is_name
  no_equals = ground (arith, h)

  no_slash : contains b'/' name ≡ false
  unfolding is_name
  no_slash = ground (arith, h)

  head_colon : contains b':' (sign q ++ name) ≡ false
  unfolding sign is_name is_sign contains
  head_colon = ground (arith, h)

  head_equals : contains b'=' (sign q ++ name) ≡ false
  unfolding sign is_name is_sign contains
  head_equals = ground (arith, h)

-- A term that is written as it should be is read as what it means.
pub parse_term-text_of : (w : Written) → is_written w ≡ true → parse_term (text_of w) ≡ term_of w
unfolding parse_term text_of term_of is_written
parse_term-text_of (Written.modifier name value) h =
    rw
      (
        modifier_at-modifier name value (ground (arith, h)) (ground (arith, h)) (ground (arith, h)),
        parse_term,
        take-length name (b'=' ∷ value),
        drop-past b'=' name value,
      )
      refl
parse_term-text_of (Written.named q name) h =
    rw
      (
        modifier_at-absent (sign q ++ name) (head_equals q name h),
        split_qualifier-alone q name h,
        parse_term,
      )
      (mechanism-named (sign q ++ name) q name (no_colon q name h) (no_slash q name h))
parse_term-text_of (Written.valued q name value) h =
    let f : Str = (sign q ++ name) ++ b':' ∷ value in
    rw
      (
        modifier_at-valued (sign q ++ name) value (head_colon q name h) (head_equals q name h),
        split_qualifier-name q name (b':' ∷ value) h,
        parse_term,
      )
      (mechanism-valued f q name value (no_colon q name h))
parse_term-text_of (Written.sized q name bits) h =
    let f : Str = (sign q ++ name) ++ b'/' ∷ bits in
    let n : is_name q name ≡ true = ground (arith, h) in
    let equals =
      contains-cons b'=' b'/' (sign q ++ name) bits refl (head_equals q name n)
        (ground (arith, h)) in
    let colon = contains-cons b':' b'/' name bits refl (no_colon q name n) (ground (arith, h)) in
    rw (modifier_at-absent f equals, split_qualifier-name q name (b'/' ∷ bits) n, parse_term)
      (mechanism-sized f q name bits colon (no_slash q name n))
