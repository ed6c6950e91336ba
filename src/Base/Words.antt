-- ===== src/Base/Words.antt =====
-- Machine integers as bit patterns: a number below 2 ^ w, whose upper half stands for the
-- negative values. Every result is reduced, so that wrap-around is written out.
use timberlake.Base.{ℕ, ◌+◌, ◌-◌, ◌*◌, ◌/◌, ◌%◌, ◌^◌, Bool, ltb, if◌then◌else◌}

abbrev pub max_int32 : ℕ
max_int32 = 2 ^ 31 - 1

abbrev pub max_int64 : ℕ
max_int64 = 2 ^ 63 - 1

-- int32(x), of an int64.
abbrev pub to_int32 : ℕ → ℕ
to_int32 x = x % 2 ^ 32

-- int64(x), of an int32: the sign is extended.
abbrev pub of_int32 : ℕ → ℕ
of_int32 x = if ltb x (2 ^ 31) then x else x + (2 ^ 64 - 2 ^ 32)

abbrev pub add64 : ℕ → ℕ → ℕ
add64 a b = (a + b) % 2 ^ 64

abbrev pub sub64 : ℕ → ℕ → ℕ
sub64 a b = (a + 2 ^ 64 - b) % 2 ^ 64

abbrev pub mul64 : ℕ → ℕ → ℕ
mul64 a b = (a * b) % 2 ^ 64

-- a / b for b > 0: the quotient is rounded towards zero.
abbrev pub div64 : ℕ → ℕ → ℕ
div64 a b = if ltb a (2 ^ 63) then a / b else (2 ^ 64 - (2 ^ 64 - a) / b) % 2 ^ 64

-- a < b, signed.
abbrev pub lt64 : ℕ → ℕ → Bool
lt64 a b = ltb ((a + 2 ^ 63) % 2 ^ 64) ((b + 2 ^ 63) % 2 ^ 64)

abbrev pub sub32 : ℕ → ℕ → ℕ
sub32 a b = (a + 2 ^ 32 - b) % 2 ^ 32

abbrev pub lt32 : ℕ → ℕ → Bool
lt32 a b = ltb ((a + 2 ^ 31) % 2 ^ 32) ((b + 2 ^ 31) % 2 ^ 32)
