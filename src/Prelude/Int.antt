-- ===== src/Prelude/Int.antt =====
-- Signed integers over the native numbers: differences of clock readings.
use Prim.Native.Nat.{ℕ, suc, ◌+◌, ◌*◌, ◌-◌, ◌/◌}
use mathlib.Core.Bool.{Bool, true, false}
use code2cloud.Prelude.Tests.{leb, ltb, if◌then◌else◌}

-- `negsuc n` is -(n + 1).
pub data ℤ : Type 0 where
  pos : ℕ → ℤ
  negsuc : ℕ → ℤ

-- ⌊(a - b) / d⌋ for d > 0: rounded towards minus infinity, as by `Math.floor`.
unfoldable pub floor_div_sub : ℕ → ℕ → ℕ → ℤ
floor_div_sub a b d = if leb b a then pos ((a - b) / d) else negsuc ((b - a - 1) / d)

infixl 6 ◌+ℤ◌
abbrev pub ◌+ℤ◌ : ℤ → ℤ → ℤ
pos a +ℤ pos b = pos (a + b)
pos a +ℤ negsuc b = if leb (suc b) a then pos (a - suc b) else negsuc (b - a)
negsuc a +ℤ pos b = if leb (suc a) b then pos (b - suc a) else negsuc (a - b)
negsuc a +ℤ negsuc b = negsuc (suc (a + b))

-- Rounded towards minus infinity.
abbrev pub floor_div : ℤ → ℕ → ℤ
floor_div (pos a) d = pos (a / d)
floor_div (negsuc a) d = negsuc (a / d)

-- `Math.round(a / d)` for d > 0: the nearest integer, a half rounded up.
unfoldable pub round_div : ℤ → ℕ → ℤ
round_div a d = floor_div (a +ℤ a +ℤ pos d) (2 * d)

abbrev pub is_positive : ℤ → Bool
is_positive (pos a) = leb 1 a
is_positive (negsuc a) = false

abbrev pub ltb_ℤ : ℤ → ℤ → Bool
ltb_ℤ (pos a) (pos b) = ltb a b
ltb_ℤ (pos a) (negsuc b) = false
ltb_ℤ (negsuc a) (pos b) = true
ltb_ℤ (negsuc a) (negsuc b) = ltb b a
