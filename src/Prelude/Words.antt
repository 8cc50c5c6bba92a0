-- ===== src/Prelude/Words.antt =====
-- Unsigned machine words: arithmetic that wraps or saturates at the width of its type.
use infinigpu.Prelude.{ℕ, ◌+◌, ◌-◌, ◌*◌, ◌/◌, ◌%◌, ◌^◌, min}

abbrev pub u32_max : ℕ
u32_max = 2 ^ 32 - 1

abbrev pub u64_max : ℕ
u64_max = 2 ^ 64 - 1

abbrev pub add32 : ℕ → ℕ → ℕ
add32 a b = (a + b) % 2 ^ 32

abbrev pub add64 : ℕ → ℕ → ℕ
add64 a b = (a + b) % 2 ^ 64

abbrev pub mul64 : ℕ → ℕ → ℕ
mul64 a b = a * b % 2 ^ 64

-- `saturating_mul` at `u64`; `saturating_sub` is the subtraction of ℕ.
abbrev pub saturating_mul64 : ℕ → ℕ → ℕ
saturating_mul64 a b = min (a * b) (2 ^ 64 - 1)

-- `div_ceil`, for a divisor above 0.
abbrev pub div_ceil : ℕ → ℕ → ℕ
div_ceil a b = (a + (b - 1)) / b
