-- ===== src/Base/Int.antt =====
-- Python's signed integers, over the native numbers: only what the code does with a value that
-- may be negative.
use emulite.Base.Tests.{leb, if◌then◌else◌}
use mathlib.Core.Bool.{Bool, true, false}
use Prim.Native.Nat.{ℕ, suc, ◌+◌, ◌-◌, ◌*◌, ◌/◌, ◌%◌}

-- `negsuc n` is -(n + 1)
pub data ℤ : Type 0 where
  pos : ℕ → ℤ
  negsuc : ℕ → ℤ

-- a - b, as an integer
abbrev pub sub_ℕ : ℕ → ℕ → ℤ
sub_ℕ a b = if leb b a then pos (a - b) else negsuc (b - a - 1)

-- a number of the program plus a signed offset
abbrev pub offset_by : ℕ → ℤ → ℤ
offset_by a (pos n) = pos (a + n)
offset_by a (negsuc n) = sub_ℕ a (suc n)

abbrev pub +ℤ : ℤ → ℤ → ℤ
+ℤ (pos m) (pos n) = pos (m + n)
+ℤ (pos m) (negsuc n) = sub_ℕ m (suc n)
+ℤ (negsuc m) (pos n) = sub_ℕ n (suc m)
+ℤ (negsuc m) (negsuc n) = negsuc (suc (m + n))

-- a multiple of a number that is not 0
abbrev pub times : ℤ → ℕ → ℤ
times (pos n) d = pos (n * d)
times (negsuc n) d = negsuc (suc n * d - 1)

-- Python's `//` and `%` by a number that is not 0: the quotient is rounded down
abbrev pub floor_div : ℤ → ℕ → ℤ
floor_div (pos n) d = pos (n / d)
floor_div (negsuc n) d = negsuc (n / d)

abbrev pub floor_mod : ℤ → ℕ → ℤ
floor_mod (pos n) d = pos (n % d)
floor_mod (negsuc n) d = pos (d - 1 - n % d)

abbrev pub -ℤ : ℤ → ℤ → ℤ
-ℤ a (pos n) = +ℤ a (if leb 1 n then negsuc (n - 1) else pos 0)
-ℤ a (negsuc n) = +ℤ a (pos (suc n))

abbrev pub leb_ℤ : ℤ → ℤ → Bool
leb_ℤ (pos m) (pos n) = leb m n
leb_ℤ (pos m) (negsuc n) = false
leb_ℤ (negsuc m) (pos n) = true
leb_ℤ (negsuc m) (negsuc n) = leb n m
