-- ===== src/Prelude/Int64.antt =====
-- Go's int64 over the integers: what may wrap goes through `to_int64`.
use metalife_pub.Prelude.{ℕ, ◌-◌, ◌%◌, ◌^◌, ◌<◌, ◌≡◌, arith, ltb, if◌then◌else◌}
use metalife_pub.Prelude.Int.{ℤ, pos, negsuc}

-- The bit pattern of an integer in 64 bits.
abbrev pub to_uint64 : ℤ → ℕ
to_uint64 (pos n) = n % 2 ^ 64
to_uint64 (negsuc n) = 2 ^ 64 - 1 - n % 2 ^ 64

-- The integer that a pattern of 64 bits stands for.
abbrev pub of_bits : ℕ → ℤ
of_bits b = if ltb b (2 ^ 63) then pos b else negsuc (2 ^ 64 - 1 - b)

abbrev pub to_int64 : ℤ → ℤ
to_int64 i = of_bits (to_uint64 i)

abbrev pub IsInt64 : ℤ → Type 0
IsInt64 (pos n) = n < 2 ^ 63
IsInt64 (negsuc n) = n < 2 ^ 63

pub to_int64_id : (i : ℤ) → IsInt64 i → to_int64 i ≡ i
to_int64_id (pos n) h = ground arith
to_int64_id (negsuc n) h = ground arith
