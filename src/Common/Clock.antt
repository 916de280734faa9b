-- ===== src/Common/Clock.antt =====
-- An instant, in milliseconds since the Unix epoch: an integer. `negsuc n` is -(n + 1).
use Prim.Native.Nat.{ℕ, suc, ◌+◌, ◌-◌, ◌%◌, ◌^◌, ◌≤◌}
use mathlib.Core.Path.{◌≡◌}
use mathlib.Core.Bool.{Bool, true, false, not}
use native.Mathlib.Omega.{arith}
use cisco_netconf_mac_db.Common.Tests.{ltb, leb, if◌then◌else◌}

pub data ℤ : Type 0 where
  pos : ℕ → ℤ
  negsuc : ℕ → ℤ

abbrev pub pos_part : ℤ → ℕ
pos_part (pos n) = n
pos_part (negsuc n) = 0

abbrev pub neg_part : ℤ → ℕ
neg_part (pos n) = 0
neg_part (negsuc n) = suc n

-- a - b, as an integer.
abbrev pub sub_ℕ : ℕ → ℕ → ℤ
sub_ℕ a b = if leb b a then pos (a - b) else negsuc (b - a - 1)

infixl 65 ◌-ℤ◌
abbrev pub ◌-ℤ◌ : ℤ → ℤ → ℤ
a -ℤ b = sub_ℕ (pos_part a + neg_part b) (neg_part a + pos_part b)

infix 50 ◌≤ℤ◌
abbrev pub ◌≤ℤ◌ : ℤ → ℤ → Type 0
a ≤ℤ b = pos_part a + neg_part b ≤ pos_part b + neg_part a

-- `int64(n)` of a uint64: two's complement.
abbrev pub int64 : ℕ → ℤ
int64 n = let m = n % 2 ^ 64 in if ltb m (2 ^ 63) then pos m else negsuc (2 ^ 64 - m - 1)

-- `int32(n)` of a uint32.
abbrev pub int32 : ℕ → ℤ
int32 n = let m = n % 2 ^ 32 in if ltb m (2 ^ 31) then pos m else negsuc (2 ^ 32 - m - 1)

abbrev pub Time : Type 0
Time = ℤ

-- `a.After(b)`
abbrev pub after : Time → Time → Bool
after a b = ltb (pos_part b + neg_part a) (pos_part a + neg_part b)

-- `a >= b`
abbrev pub not_before : Time → Time → Bool
not_before a b = leb (pos_part b + neg_part a) (pos_part a + neg_part b)

pub after_irrefl : (a : Time) → after a a ≡ false
after_irrefl a = ground arith

pub after_asymm : (a b : Time) → after a b ≡ true → after b a ≡ false
after_asymm a b h = ground arith

pub not_after_trans : (a b c : Time) → after a b ≡ false → after b c ≡ false → after a c ≡ false
not_after_trans a b c h k = ground arith

-- The two tests are opposite.
pub not_before-eq-not-after : (a b : Time) → not_before a b ≡ not (after b a)
not_before-eq-not-after a b = ground arith
