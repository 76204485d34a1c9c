-- ===== src/Text/Decimal.antt =====
-- Decimal digits, as fmt.Sprint writes them, and their value.
use mailkit.Prelude.{
  ℕ, zero, suc, ◌+◌, ◌-◌, ◌*◌, ◌/◌, ◌%◌, ◌<◌, [], ◌∷◌, false, ltb, ◌≡◌, refl, ap, ◌∙◌, arith,
  Bool-cases, inl, inr,
}
use mailkit.Text.{Str, contains, decimal, decimal_from}

-- The number that digits denote, behind a number that is read already.
unfoldable pub value_of : ℕ → Str → ℕ
value_of v [] = v
value_of v (c ∷ s) = value_of (10 * v + (c - b'0')) s

value_of-decimal_from :
    (fuel n : ℕ) (acc : Str) → n < fuel → value_of 0 (decimal_from fuel n acc) ≡ value_of n acc
unfolding decimal_from value_of
value_of-decimal_from zero n acc h = absurd (omega arith)
value_of-decimal_from (suc fuel) n acc h =
    let rest = value_of-decimal_from fuel (n / 10) ((b'0' + n % 10) ∷ acc) in
    elim (Bool-cases (ltb n 10)) [
      | inl small ↦ rw (small, decimal_from) (ap (λ v. value_of v acc) (omega arith))
      | inr large ↦
          rw (large, decimal_from) (rest (ground arith) ∙ ap (λ v. value_of v acc) (omega arith))
    ]

-- The digits of a number denote it: the fuel of `decimal` is enough.
pub value_of-decimal : (n : ℕ) → value_of 0 (decimal n) ≡ n
unfolding decimal value_of
value_of-decimal n = value_of-decimal_from (suc n) n [] (omega arith)

contains-decimal_from :
    (b fuel n : ℕ) (acc : Str)
    → b < b'0'
    → contains b acc ≡ false
    → contains b (decimal_from fuel n acc) ≡ false
unfolding decimal_from contains
contains-decimal_from b zero n acc h g = g
contains-decimal_from b (suc fuel) n acc h g =
    let rest = contains-decimal_from b fuel (n / 10) ((b'0' + n % 10) ∷ acc) h in
    elim (Bool-cases (ltb n 10)) [
      | inl small ↦ rw (small, decimal_from) (ground arith)
      | inr large ↦ rw (large, decimal_from) (rest (ground arith))
    ]

-- No byte below the digits stands among them.
pub contains-decimal : (b n : ℕ) → b < b'0' → contains b (decimal n) ≡ false
unfolding decimal contains
contains-decimal b n h = contains-decimal_from b (suc n) n [] h refl
