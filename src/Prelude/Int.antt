-- ===== src/Prelude/Int.antt =====
-- Signed integers over the native numbers: `i64` thread, frame and handle numbers, `i32` statuses.
use Prim.Native.Nat.{ℕ}
use mathlib.Core.Bool.{Bool, true}
use lazydap.Prelude.Tests.{leb}

-- `negsuc n` is -(n + 1).
pub data ℤ : Type 0 where
  pos : ℕ → ℤ
  negsuc : ℕ → ℤ

-- `z <= n` for an `n` that is not negative
abbrev pub leb_ℕ : ℤ → ℕ → Bool
leb_ℕ (pos m) n = leb m n
leb_ℕ (negsuc m) n = true
