-- ===== src/Common/Int.antt =====
-- C++ `int` values that may be negative, over the native numbers; `negsuc n` is -(n + 1).
use Prim.Native.Nat.{ℕ}
use mathlib.Core.Bool.{Bool, true}
use my_database_engine.Common.Tests.{leb}

pub data ℤ : Type 0 where
  pos : ℕ → ℤ
  negsuc : ℕ → ℤ

-- The number of rows that a count stands for: none, if it is negative.
abbrev pub to_nat : ℤ → ℕ
to_nat (pos n) = n
to_nat (negsuc n) = 0

-- z <= n
abbrev pub leb_ℤ : ℤ → ℕ → Bool
leb_ℤ (pos m) n = leb m n
leb_ℤ (negsuc m) n = true
