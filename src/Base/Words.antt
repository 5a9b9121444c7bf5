-- ===== src/Base/Words.antt =====
-- Fixed-width unsigned integers are natural numbers; an operation that can wrap takes the
-- remainder.
use Prim.Native.Nat.{ℕ, ◌+◌, ◌%◌, ◌<◌}
use mathlib.Core.Path.{◌≡◌}
use native.Mathlib.Omega.{arith}

abbrev pub u32_mod : ℕ
u32_mod = 4294967296

abbrev pub u64_mod : ℕ
u64_mod = 18446744073709551616

-- ++ on a uint32_t
unfoldable pub inc32 : ℕ → ℕ
inc32 n = (n + 1) % u32_mod

-- ++ on a uint64_t
unfoldable pub inc64 : ℕ → ℕ
inc64 n = (n + 1) % u64_mod

-- the conversion of a uint64_t to a uint32_t
unfoldable pub to_u32 : ℕ → ℕ
to_u32 n = n % u32_mod

pub inc32_lem : (n : ℕ) → n + 1 < u32_mod → inc32 n ≡ n + 1
unfolding inc32
inc32_lem n h = omega arith

pub inc64_lem : (n : ℕ) → n + 1 < u64_mod → inc64 n ≡ n + 1
unfolding inc64
inc64_lem n h = omega arith

pub to_u32_lem : (n : ℕ) → n < u32_mod → to_u32 n ≡ n
unfolding to_u32
to_u32_lem n h = omega arith
