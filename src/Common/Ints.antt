-- ===== src/Common/Ints.antt =====
-- Go's `int` as its 64-bit pattern, a number below 2^64 that stands for a negative value from 2^63
-- on: sums wrap around, comparisons and remainders are signed.
use Prim.Native.Nat.{ℕ, ◌+◌, ◌-◌, ◌%◌, ◌^◌, ◌≤◌}
use mathlib.Core.Path.{◌≡◌}
use mathlib.Core.Bool.{Bool}
use native.Mathlib.Omega.{arith}
use mmo_server.Common.Tests.{ltb, leb, if◌then◌else◌}

abbrev pub int_max : ℕ
int_max = 2 ^ 63 - 1

abbrev pub int_neg? : ℕ → Bool
int_neg? a = leb (2 ^ 63) a

unfoldable pub int_add : ℕ → ℕ → ℕ
int_add a b = (a + b) % 2 ^ 64

abbrev pub int_lt : ℕ → ℕ → Bool
int_lt a b = ltb ((a + 2 ^ 63) % 2 ^ 64) ((b + 2 ^ 63) % 2 ^ 64)

abbrev pub magnitude : ℕ → ℕ
magnitude a = if int_neg? a then 2 ^ 64 - a else a

-- `a % b` for b other than 0: the sign is that of `a`.
unfoldable pub int_rem : ℕ → ℕ → ℕ
int_rem a b = let r = magnitude a % magnitude b in if int_neg? a then (2 ^ 64 - r) % 2 ^ 64 else r

pub int_add_small : (a b : ℕ) → a + b ≤ int_max → int_add a b ≡ a + b
unfolding int_add
int_add_small a b h = omega arith

pub int_lt_small : (a b : ℕ) → a ≤ int_max → b ≤ int_max → int_lt a b ≡ ltb a b
int_lt_small a b h k = ground arith

pub int_rem_small : (a b : ℕ) → a ≤ int_max → b ≤ int_max → int_rem a b ≡ a % b
unfolding int_rem
int_rem_small a b h k = ground arith
