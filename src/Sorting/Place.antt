-- ===== src/Sorting/Place.antt =====
-- The order that the program sorts by: a number, then a text.
use mailkit.Prelude.{ℕ, Bool, true, false, not, ltb, ◌==◌, if◌then◌else◌, ◌≡◌, arith}
use mailkit.Text.{Str}
use mailkit.Text.Order.{lt_str, lt_str_asymm, lt_str_trans, lt_str_antisymm}
use mailkit.Sorting.{IsOrder}

abbrev pub Place : Type 0
Place = ℕ × Str

unfoldable pub before : Place → Place → Bool
before p q = if not (p.0 == q.0) then ltb p.0 q.0 else lt_str p.1 q.1

before_asymm : (p q : Place) → before p q ≡ true → before q p ≡ false
unfolding before
before_asymm p q h = ground (arith, lt_str_asymm p.1 q.1)

before_trans : (p q r : Place) → before q p ≡ false → before r q ≡ false → before r p ≡ false
unfolding before
before_trans p q r h k = ground (arith, lt_str_trans p.1 q.1 r.1)

pub before_antisymm : (p q : Place) → before p q ≡ false → before q p ≡ false → p ≡ q
unfolding before
before_antisymm p q h k = ground (arith, lt_str_antisymm p.1 q.1)

pub before-IsOrder : IsOrder before
before-IsOrder = record { asymm = before_asymm; trans = before_trans }
