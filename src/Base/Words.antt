-- ===== src/Base/Words.antt =====
-- C's machine integers as bit patterns: an `int` is its pattern below 2 ^ 32, a `uint64` a number
-- below 2 ^ 64, and the wrap-around of each operation is written out.
use Prim.Native.Nat.{ℕ, ◌+◌, ◌-◌, ◌*◌, ◌%◌, ◌^◌}
use mathlib.Core.Bool.{Bool}
use os_project_files.Base.Tests.{leb, ltb, if◌then◌else◌}

abbrev pub u32_mod : ℕ
u32_mod = 2 ^ 32

abbrev pub u64_mod : ℕ
u64_mod = 2 ^ 64

-- Conversion to `uint` or `int` keeps the low 32 bits.
abbrev pub to_u32 : ℕ → ℕ
to_u32 x = x % u32_mod

abbrev pub add32 : ℕ → ℕ → ℕ
add32 a b = (a + b) % u32_mod

abbrev pub sub32 : ℕ → ℕ → ℕ
sub32 a b = (a + u32_mod - b) % u32_mod

abbrev pub mul32 : ℕ → ℕ → ℕ
mul32 a b = a * b % u32_mod

abbrev pub add64 : ℕ → ℕ → ℕ
add64 a b = (a + b) % u64_mod

abbrev pub sub64 : ℕ → ℕ → ℕ
sub64 a b = (a + u64_mod - b) % u64_mod

-- The sign bit of an `int`.
abbrev pub is_negative : ℕ → Bool
is_negative x = leb (2 ^ 31) x

-- `a < b` on `int`: flipping the sign bit turns the signed order into the unsigned one.
abbrev pub ltb_int : ℕ → ℕ → Bool
ltb_int a b = ltb ((a + 2 ^ 31) % u32_mod) ((b + 2 ^ 31) % u32_mod)

-- An `int` converted to a 64-bit type: the sign is extended.
abbrev pub sign_extend : ℕ → ℕ
sign_extend x = if is_negative x then x + (u64_mod - u32_mod) else x

-- -1 as an `int` and as a `uint64`.
abbrev pub minus_one : ℕ
minus_one = 2 ^ 32 - 1

abbrev pub minus_one64 : ℕ
minus_one64 = 2 ^ 64 - 1
