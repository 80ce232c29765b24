-- ===== src/Prelude/Int.antt =====
-- Go's `int`, as far as the program compares it with constants.
use Prim.Native.Nat.{ℕ}
use mathlib.Core.Bool.{Bool, true, false}
use harvester_installer.Prelude.Tests.{eqb, ltb}

-- `negsuc n` is -(n + 1).
pub data ℤ : Type 0 where
  pos : ℕ → ℤ
  negsuc : ℕ → ℤ

-- `z < n`, `z > n` and `z == n` for a constant n.
abbrev pub is_below : ℤ → ℕ → Bool
is_below (pos a) n = ltb a n
is_below (negsuc a) n = true

abbrev pub is_above : ℤ → ℕ → Bool
is_above (pos a) n = ltb n a
is_above (negsuc a) n = false

abbrev pub is_equal : ℤ → ℕ → Bool
is_equal (pos a) n = eqb a n
is_equal (negsuc a) n = false
