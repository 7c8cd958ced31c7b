-- ===== src/Base/Int64.antt =====
-- Go's `int64` as its bit pattern, a number below 2 ^ 64, with wrap-around written out.
use Prim.Native.Nat.{ℕ, ◌+◌, ◌-◌, ◌%◌, ◌^◌, ◌≤◌, ◌<◌}
use mathlib.Core.Path.{◌≡◌}
use native.Mathlib.Omega.{arith}
use mathlib.Core.Bool.{Bool}
use particles.Base.Tests.{ltb, leb}

-- The values from 2 ^ 63 on stand for the negative integers.
abbrev pub add64 : ℕ → ℕ → ℕ
add64 a b = (a + b) % 2 ^ 64

abbrev pub sub64 : ℕ → ℕ → ℕ
sub64 a b = (a + (2 ^ 64 - b)) % 2 ^ 64

-- The order of the signed values is that of the patterns shifted by 2 ^ 63.
abbrev pub bias : ℕ → ℕ
bias a = (a + 2 ^ 63) % 2 ^ 64

abbrev pub lt64 : ℕ → ℕ → Bool
lt64 a b = ltb (bias a) (bias b)

abbrev pub le64 : ℕ → ℕ → Bool
le64 a b = leb (bias a) (bias b)

-- A pattern that stands for a number that is not negative.
abbrev pub IsNat64 : ℕ → Type 0
IsNat64 a = a < 2 ^ 63

-- On numbers that are not negative, and sums in range, the machine's arithmetic is the exact one.
pub add64-exact : (a b : ℕ) → a + b < 2 ^ 63 → add64 a b ≡ a + b
add64-exact a b h = omega arith

pub sub64-exact : (a b : ℕ) → b ≤ a → a < 2 ^ 63 → sub64 a b ≡ a - b
sub64-exact a b h k = omega arith

pub lt64-exact : (a b : ℕ) → IsNat64 a → IsNat64 b → lt64 a b ≡ ltb a b
lt64-exact a b ha hb = ground arith

pub le64-exact : (a b : ℕ) → IsNat64 a → IsNat64 b → le64 a b ≡ leb a b
le64-exact a b ha hb = ground arith
