-- ===== src/Mailauth/Spf/Cuts.antt =====
-- How texts are cut at a byte that has no other case.
use mailkit.Prelude.{
  ℕ, zero, suc, ◌≤◌, [], ◌∷◌, Option, none, some, ◌==◌, ltb, take, if◌then◌else◌, ◌≡◌, refl, ap,
  sym, arith, Bool-cases, inl, inr, ◌⊎◌, ◌&&◌,
}
use mathlib.Core.Option.{none-ne-some}
use mailkit.Text.{Str, lower, to_lower, index}

-- No letter is lowered to the byte, and the byte is not changed.
abbrev pub IsCaseless : ℕ → Type 0
IsCaseless b = (c : ℕ) → (lower c == b) ≡ (c == b)

pub equals-IsCaseless : IsCaseless b'='
unfolding lower
equals-IsCaseless c = ground arith

pub slash-IsCaseless : IsCaseless b'/'
unfolding lower
slash-IsCaseless c = ground arith

pub index-to_lower : (b : ℕ) → IsCaseless b → (s : Str) → index b (to_lower s) ≡ index b s
unfolding index to_lower
index-to_lower b h [] = refl
index-to_lower b h (c ∷ s) = rw (h c, index-to_lower b h s) refl

pub take-to_lower : (n : ℕ) (s : Str) → take n (to_lower s) ≡ to_lower (take n s)
unfolding to_lower
take-to_lower zero s = refl
take-to_lower (suc n) [] = refl
take-to_lower (suc n) (c ∷ s) = ap (λ l. lower c ∷ l) (take-to_lower n s)

pub take-take : (m n : ℕ) (s : Str) → m ≤ n → take m (take n s) ≡ take m s
take-take zero n s h = refl
take-take (suc m) zero s h = absurd (omega arith)
take-take (suc m) (suc n) [] h = refl
take-take (suc m) (suc n) (c ∷ s) h = ap (λ (l : Str). c ∷ l) (take-take m n s (omega arith))

-- A place in front of a cut.
unfoldable pub in_front : ℕ → Option ℕ → Option ℕ
in_front n none = none
in_front n (some i) = if ltb i n then some i else none

unfoldable pub behind : Option ℕ → Option ℕ
behind none = none
behind (some i) = some (suc i)

in_front-behind : (n : ℕ) (o : Option ℕ) → behind (in_front n o) ≡ in_front (suc n) (behind o)
unfolding in_front behind
in_front-behind n none = refl
in_front-behind n (some i) = ground arith

pub index-cons :
    (b c : ℕ) (s : Str) → index b (c ∷ s) ≡ (if c == b then some 0 else behind (index b s))
unfolding index behind
index-cons b c s = ground arith

in_front-zero : (o : Option ℕ) → in_front 0 o ≡ none
unfolding in_front
in_front-zero none = refl
in_front-zero (some i) = ground arith

-- Where a byte is in front of a cut.
pub index-take : (b n : ℕ) (s : Str) → index b (take n s) ≡ in_front n (index b s)
unfolding index in_front
index-take b zero s = sym (in_front-zero (index b s))
index-take b (suc n) [] = refl
index-take b (suc n) (c ∷ s) = elim (Bool-cases (c == b)) [
  | inl q ↦ rw (index-cons b c s, index-cons b c (take n s), q) (ground arith)
  | inr q ↦
      rw (index-cons b c s, index-cons b c (take n s), q, index-take b n s)
        (in_front-behind n (index b s))
]

-- A text up to a place, or all of it.
unfoldable pub up_to : Option ℕ → Str → Str
up_to none s = s
up_to (some i) s = take i s

-- A place in front of another, if there is another.
unfoldable pub inside : Option ℕ → Option ℕ → Option ℕ
inside e none = e
inside e (some k) = in_front k e

pub index-up_to : (b : ℕ) (k : Option ℕ) (s : Str) → index b (up_to k s) ≡ inside (index b s) k
unfolding up_to inside
index-up_to b none s = refl
index-up_to b (some k) s = index-take b k s

-- Where a modifier has its "=", by the places of the first "=" and the first ":".
unfoldable pub modifier_of : Option ℕ → Option ℕ → Option ℕ
modifier_of none k = none
modifier_of (some e) none = if ltb 0 e then some e else none
modifier_of (some e) (some k) = if ltb 0 e && ltb e k then some e else none

pub modifier_inside : (e k : Option ℕ) (i : ℕ) → modifier_of e k ≡ some i → inside e k ≡ some i
unfolding modifier_of inside in_front
modifier_inside none k i h = absurd (none-ne-some i h)
modifier_inside (some e) none i h = ground arith
modifier_inside (some e) (some k) i h = ground arith

pub not_modifier :
    (e k : Option ℕ) → modifier_of e k ≡ none → (inside e k ≡ none) ⊎ (inside e k ≡ some 0)
unfolding modifier_of inside in_front
not_modifier none none h = inl refl
not_modifier none (some k) h = inl refl
not_modifier (some zero) none h = inr refl
not_modifier (some (suc e)) none h = absurd (ground arith)
not_modifier (some e) (some k) h = elim (Bool-cases (ltb e k)) [
  | inl q ↦ let first : e ≡ 0 = ground arith in inr (rw (q) (ap some first))
  | inr q ↦ inl (rw (q) refl)
]

-- Behind a qualifier.
pub not_modifier_behind :
    (e k : Option ℕ) → modifier_of (behind e) (behind k) ≡ none → inside e k ≡ none
unfolding modifier_of inside in_front behind
not_modifier_behind none none h = refl
not_modifier_behind none (some k) h = refl
not_modifier_behind (some e) none h = absurd (ground arith)
not_modifier_behind (some e) (some k) h = ground arith
