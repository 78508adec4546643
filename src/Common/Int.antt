-- ===== src/Common/Int.antt =====
-- `i64` times: signed integers, with the saturating addition of a small number.
use Prim.Native.Nat.{ℕ, ◌+◌, ◌-◌, ◌^◌, min}
use mathlib.Core.Bool.{Bool, true, false}
use eri.Common.Tests.{ltb, if◌then◌else◌}

-- `negsuc n` is -(n + 1).
pub data ℤ : Type 0 where
  pos : ℕ → ℤ
  negsuc : ℕ → ℤ

abbrev pub i64_max : ℕ
i64_max = 2 ^ 63 - 1

-- `saturating_add`
abbrev pub saturating_add : ℤ → ℕ → ℤ
saturating_add (pos n) k = pos (min (n + k) i64_max)
saturating_add (negsuc n) k = if ltb n k then pos (k - (n + 1)) else negsuc (n - k)

abbrev pub is_below : ℤ → ℕ → Bool
is_below (pos n) k = ltb n k
is_below (negsuc n) k = true

abbrev pub is_above : ℤ → ℕ → Bool
is_above (pos n) k = ltb k n
is_above (negsuc n) k = false

abbrev pub is_negative : ℤ → Bool
is_negative (pos n) = false
is_negative (negsuc n) = true

abbrev pub magnitude : ℤ → ℕ
magnitude (pos n) = n
magnitude (negsuc n) = 0
