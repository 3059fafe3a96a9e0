-- ===== src/Prelude/Integers.antt =====
-- Go's `int` where it is compared and converted only: the library's integers over the native numbers.
use Prim.Native.Nat.{ℕ}

-- `negsuc n` is `-(n + 1)`.
pub data ℤ : Type 0 where
  pos negsuc : ℕ → ℤ
