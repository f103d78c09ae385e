-- ===== src/Prelude/Words.antt =====
-- Machine words: the two's complement reading of ℤ and little-endian bytes.
use open_db.Prelude.Base.{ℕ, ◌-◌, ◌*◌, ◌%◌, ◌^◌, ◌<◌, ◌≡◌, arith}
use open_db.Prelude.Tests.{ltb, if◌then◌else◌}
use open_db.Prelude.Int.{ℤ, pos, negsuc}

-- static_cast of a signed to the unsigned type with `m` values, and back.
abbrev pub to_unsigned : ℕ → ℤ → ℕ
to_unsigned m (pos n) = n % m
to_unsigned m (negsuc n) = m - 1 - n % m

abbrev pub to_signed : ℕ → ℕ → ℤ
to_signed m u = if ltb (2 * u) m then pos u else negsuc (m - 1 - u)

-- The range of the signed type with `m` values.
abbrev pub InRange : ℕ → ℤ → Type 0
InRange m (pos n) = 2 * n < m
InRange m (negsuc n) = 2 * n < m

pub to_signed-to_unsigned32 :
    (z : ℤ) → InRange (2 ^ 32) z → to_signed (2 ^ 32) (to_unsigned (2 ^ 32) z) ≡ z
to_signed-to_unsigned32 (pos n) h = ground arith
to_signed-to_unsigned32 (negsuc n) h = ground arith

pub to_signed-to_unsigned64 :
    (z : ℤ) → InRange (2 ^ 64) z → to_signed (2 ^ 64) (to_unsigned (2 ^ 64) z) ≡ z
to_signed-to_unsigned64 (pos n) h = ground arith
to_signed-to_unsigned64 (negsuc n) h = ground arith

pub to_unsigned32-lt : (z : ℤ) → to_unsigned (2 ^ 32) z < 2 ^ 32
to_unsigned32-lt (pos n) = omega arith
to_unsigned32-lt (negsuc n) = omega arith

pub to_unsigned64-lt : (z : ℤ) → to_unsigned (2 ^ 64) z < 2 ^ 64
to_unsigned64-lt (pos n) = omega arith
to_unsigned64-lt (negsuc n) = omega arith
