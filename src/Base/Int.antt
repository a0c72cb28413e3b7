-- ===== src/Base/Int.antt =====
-- Signed integers, and the wrap-around of Go's 64-bit `int`.
use Prim.Native.Nat.{ℕ, suc, ◌+◌, ◌-◌, ◌<◌}
use mathlib.Core.Path.{◌≡◌}
use native.Mathlib.Omega.{arith}
use go_red.Base.Tests.{ltb, leb, if◌then◌else◌}

-- `negsuc n` is -(n + 1).
pub data ℤ : Type 0 where
  pos : ℕ → ℤ
  negsuc : ℕ → ℤ

abbrev pub pos_part : ℤ → ℕ
pos_part (pos n) = n
pos_part (negsuc n) = 0

abbrev pub neg_part : ℤ → ℕ
neg_part (pos n) = 0
neg_part (negsuc n) = suc n

-- a - b, as an integer.
abbrev pub sub_ℕ : ℕ → ℕ → ℤ
sub_ℕ a b = if leb b a then pos (a - b) else negsuc (b - a - 1)

infixl 65 ◌+ℤ◌
unfoldable pub ◌+ℤ◌ : ℤ → ℤ → ℤ
a +ℤ b = sub_ℕ (pos_part a + pos_part b) (neg_part a + neg_part b)

-- The least magnitude that an `int` cannot hold with a plus sign.
abbrev pub int_limit : ℕ
int_limit = 9223372036854775808

-- A sum of two `int`s is off by at most one multiple of 2^64.
unfoldable pub wrap : ℤ → ℤ
wrap (pos n) = if ltb n int_limit then pos n else sub_ℕ n (int_limit + int_limit)
wrap (negsuc n) = if ltb n int_limit then negsuc n else sub_ℕ (int_limit + int_limit) (suc n)

-- `a + b` on `int`.
unfoldable pub add_int : ℤ → ℤ → ℤ
unfolding wrap ◌+ℤ◌
add_int a b = wrap (a +ℤ b)

pub add_int-pos : (a b : ℕ) → a + b < int_limit → add_int (pos a) (pos b) ≡ pos (a + b)
unfolding add_int
add_int-pos a b h = ground arith

pub add_int-negsuc :
    (a b : ℕ) → b < a → a < int_limit → add_int (pos a) (negsuc b) ≡ pos (a - suc b)
unfolding add_int
add_int-negsuc a b h l = ground arith
