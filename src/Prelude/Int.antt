-- ===== src/Prelude/Int.antt =====
-- Python's integers where they may be negative.
use Prim.Native.Nat.{ℕ}
use mathlib.Core.Bool.{Bool, true, false}
use rescs.Prelude.Tests.{leb}

-- `negsuc n` is -(n + 1).
pub data ℤ : Type 0 where
  pos : ℕ → ℤ
  negsuc : ℕ → ℤ

-- `max(0, n)`
abbrev pub clip : ℤ → ℕ
clip (pos n) = n
clip (negsuc _) = 0

-- `n < b`, for a natural number `b`
abbrev pub lt_ℕ : ℤ → ℕ → Bool
lt_ℕ (pos n) b = elim (leb b n) [ true ↦ false | false ↦ true ]
lt_ℕ (negsuc _) b = true
