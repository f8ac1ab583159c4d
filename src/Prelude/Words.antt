-- ===== src/Prelude/Words.antt =====
-- Machine words: 64-bit differences, and the signed comparison of bit patterns.
use Prim.Native.Nat.{ℕ, ◌+◌, ◌-◌, ◌*◌, ◌%◌, ◌^◌}
use mathlib.Core.Bool.{Bool, ◌&&◌}
use esp_rf_ook.Prelude.Tests.{ltb}

-- u64 (and i64) subtraction with the overflow checks off, as in the release profile.
abbrev pub sub_u64 : ℕ → ℕ → ℕ
sub_u64 a b = (a + 2 ^ 64 - b) % 2 ^ 64

abbrev pub mul_u64 : ℕ → ℕ → ℕ
mul_u64 a b = a * b % 2 ^ 64

-- `d > n` for an i64 `d`, given as its bit pattern, and a literal `n` that is not negative.
abbrev pub gt_i64 : ℕ → ℕ → Bool
gt_i64 d n = ltb d (2 ^ 63) && ltb n d
