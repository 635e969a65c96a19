-- ===== src/Prelude/Word.antt =====
-- C's unsigned arithmetic of 16, 32 and 64 bits on native numbers, wrap-around written out.
use Prim.Native.Nat.{◌*◌, ◌/◌, ℕ, ◌+◌, ◌-◌, ◌%◌, ◌^◌}
use tas_smartnic.Prelude.Tests.{ltb, if◌then◌else◌}

abbrev pub u16 : ℕ → ℕ
u16 a = a % 2 ^ 16

abbrev pub u32 : ℕ → ℕ
u32 a = a % 2 ^ 32

abbrev pub add32 : ℕ → ℕ → ℕ
add32 a b = (a + b) % 2 ^ 32

-- The first operand is a 32-bit value or a wider one; the second is below `2 ^ 32`.
abbrev pub sub32 : ℕ → ℕ → ℕ
sub32 a b = (a + 2 ^ 32 - b) % 2 ^ 32

abbrev pub add64 : ℕ → ℕ → ℕ
add64 a b = (a + b) % 2 ^ 64

abbrev pub sub64 : ℕ → ℕ → ℕ
sub64 a b = (a + 2 ^ 64 - b) % 2 ^ 64

-- A 64-bit value stored in an `int` and read back as 64 bits: cut to 32 bits, sign-extended.
abbrev pub through_int : ℕ → ℕ
through_int a = let w = a % 2 ^ 32 in if ltb w (2 ^ 31) then w else w + 2 ^ 64 - 2 ^ 32

-- `UINT32_MAX` and `INT32_MAX`
abbrev pub uint32_max : ℕ
uint32_max = 4294967295

abbrev pub int32_max : ℕ
int32_max = 2147483647

abbrev pub mul32 : ℕ → ℕ → ℕ
mul32 a b = (a * b) % 2 ^ 32

abbrev pub mul64 : ℕ → ℕ → ℕ
mul64 a b = (a * b) % 2 ^ 64

-- An int32_t read as an int64_t; both are bit patterns.
abbrev pub sign_extend : ℕ → ℕ
sign_extend a = if ltb a (2 ^ 31) then a else a + 2 ^ 64 - 2 ^ 32

-- The quotient of an int64_t by a positive number, rounded to 0.
abbrev pub signed_div : ℕ → ℕ → ℕ
signed_div a d = if ltb a (2 ^ 63) then a / d else sub64 0 (sub64 0 a / d)
