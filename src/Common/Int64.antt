-- ===== src/Common/Int64.antt =====
-- Go's int64. A value is its two's-complement bit pattern, a number below 2 ^ 64: addition and
-- subtraction wrap, and an order is compared after the sign bit is flipped.
use Prim.Native.Nat.{ℕ, ◌+◌, ◌-◌, ◌%◌, ◌<◌}
use mathlib.Core.Path.{◌≡◌}
use mathlib.Core.Bool.{Bool, false}
use native.Mathlib.Omega.{arith}
use pda_backend.Common.Tests.{ltb, eqb}

abbrev pub modulus : ℕ
modulus = 18_446_744_073_709_551_616

abbrev pub half : ℕ
half = 9_223_372_036_854_775_808

abbrev pub add_i64 : ℕ → ℕ → ℕ
add_i64 a b = (a + b) % modulus

abbrev pub sub_i64 : ℕ → ℕ → ℕ
sub_i64 a b = (a + modulus - b) % modulus

abbrev pub lt_i64 : ℕ → ℕ → Bool
lt_i64 a b = ltb ((a + half) % modulus) ((b + half) % modulus)

-- `q <= 0`
abbrev pub not_pos_i64 : ℕ → Bool
not_pos_i64 q = ltb ((q + half) % modulus) (half + 1)

-- The next version of an aggregate.
abbrev pub next : ℕ → ℕ
next v = add_i64 v 1

-- The value is not negative as an int64.
abbrev pub IsNat : ℕ → Type 0
IsNat a = a < half

pub next-ne : (v : ℕ) → eqb (next v) v ≡ false
next-ne v = ground arith

pub lt_i64-ltb : (a b : ℕ) → IsNat a → IsNat b → lt_i64 a b ≡ ltb a b
lt_i64-ltb a b p q = ground arith

pub pos-IsNat : (q : ℕ) → q < modulus → not_pos_i64 q ≡ false → IsNat q
pos-IsNat q n h = ground arith
