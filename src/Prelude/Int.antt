-- ===== src/Prelude/Int.antt =====
-- Integers: an exit status is negative where a signal ended the process.
use Prim.Native.Nat.{ℕ}

-- `negsuc n` is -(n + 1).
pub data ℤ : Type 0 where
  pos : ℕ → ℤ
  negsuc : ℕ → ℤ
