-- ===== src/Words.antt =====
-- The machine integers of src/: int64 sizes as their 64-bit patterns, and the uint32 counters.
-- PostgreSQL is built with -fwrapv, so signed arithmetic wraps.
use diskquota.Prelude.{ℕ, ◌+◌, ◌-◌, ◌/◌, ◌%◌, ◌^◌, ◌<◌, ◌≡◌, ltb, Bool, if◌then◌else◌, arith}

abbrev pub two63 : ℕ
two63 = 2 ^ 63

abbrev pub two64 : ℕ
two64 = 2 ^ 64

abbrev pub two32 : ℕ
two32 = 2 ^ 32

abbrev pub two31 : ℕ
two31 = 2 ^ 31

unfoldable pub add64 : ℕ → ℕ → ℕ
add64 a b = (a + b) % two64

unfoldable pub sub64 : ℕ → ℕ → ℕ
sub64 a b = (a + two64 - b) % two64

unfoldable pub neg64 : ℕ → ℕ
neg64 a = (two64 - a) % two64

-- the pattern of -1
abbrev pub minus_one64 : ℕ
minus_one64 = 2 ^ 64 - 1

-- a < b, read as int64
unfoldable pub slt64 : ℕ → ℕ → Bool
slt64 a b = ltb ((a + two63) % two64) ((b + two63) % two64)

-- a / n, an int64 by a positive int, truncated towards 0
unfoldable pub div64 : ℕ → ℕ → ℕ
unfolding neg64
div64 a n = if ltb a two63 then a / n else neg64 (neg64 a / n)

-- a < b, read as int
unfoldable pub slt32 : ℕ → ℕ → Bool
slt32 a b = ltb ((a + two31) % two32) ((b + two31) % two32)

-- pg_atomic_fetch_add_u32 and pg_atomic_fetch_sub_u32 by 1
unfoldable pub inc32 : ℕ → ℕ
inc32 a = (a + 1) % two32

unfoldable pub dec32 : ℕ → ℕ
dec32 a = (a + two32 - 1) % two32

-- Between non-negative values the signed test is the plain one.
pub slt64-ltb : (a b : ℕ) → a < two63 → b < two63 → slt64 a b ≡ ltb a b
unfolding slt64
slt64-ltb a b h k = ground arith

pub slt32-ltb : (a b : ℕ) → a < two31 → b < two31 → slt32 a b ≡ ltb a b
unfolding slt32
slt32-ltb a b h k = ground arith
