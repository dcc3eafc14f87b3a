-- ===== src/Prelude/Int.antt =====
-- Python integers that may be negative, with the operations that the program uses on them.
use Prim.Native.Nat.{ℕ, ◌-◌}
use mathlib.Core.Bool.{Bool, true, false}
use construction_harness.Prelude.Tests.{leb, if◌then◌else◌}

-- `negsuc n` is -(n + 1).
pub data ℤ : Type 0 where
  pos : ℕ → ℤ
  negsuc : ℕ → ℤ

-- n < 0
abbrev pub is_neg : ℤ → Bool
is_neg (pos n) = false
is_neg (negsuc n) = true

-- max(n, 0)
abbrev pub pos_part : ℤ → ℕ
pos_part (pos n) = n
pos_part (negsuc n) = 0

abbrev pub min_ℤ : ℤ → ℤ → ℤ
min_ℤ (pos a) (pos b) = if leb a b then pos a else pos b
min_ℤ (pos a) (negsuc b) = negsuc b
min_ℤ (negsuc a) (pos b) = negsuc a
min_ℤ (negsuc a) (negsuc b) = if leb a b then negsuc b else negsuc a

-- a - b
abbrev pub difference : ℕ → ℕ → ℤ
difference a b = if leb b a then pos (a - b) else negsuc (b - a - 1)
