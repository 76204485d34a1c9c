-- ===== src/Prelude/Numbers.antt =====
-- Go's int.
use Prim.Native.Nat.{ℕ}

-- The numbers of Go's int: `negsuc n` is -(n + 1).
pub data ℤ : Type 0 where
  pos : ℕ → ℤ
  negsuc : ℕ → ℤ
