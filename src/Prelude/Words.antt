-- ===== src/Prelude/Words.antt =====
-- `u64` arithmetic: the sums that the code writes wrap at `2 ^ 64`.
use Prim.Native.Nat.{ℕ, ◌+◌, ◌%◌, ◌^◌, ◌<◌}
use mathlib.Core.Path.{◌≡◌}
use native.Mathlib.Omega.{arith}

abbrev pub u64_limit : ℕ
u64_limit = 2 ^ 64

unfoldable pub u64_add : ℕ → ℕ → ℕ
u64_add a b = (a + b) % u64_limit

pub u64_add_fits : (a b : ℕ) → a + b < u64_limit → u64_add a b ≡ a + b
unfolding u64_add
u64_add_fits a b h = omega arith

pub u64_add-lt : (a b : ℕ) → u64_add a b < u64_limit
unfolding u64_add
u64_add-lt a b = omega arith
