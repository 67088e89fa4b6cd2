-- ===== src/Base/Word.antt =====
-- The C type `int`: 32 bits, kept as the bit pattern below 2 ^ 32. The kernel is compiled with
-- wrap-around arithmetic, and order is that of two's complement.
use Prim.Native.Nat.{ℕ, ◌+◌, ◌-◌, ◌%◌, ◌^◌, ◌<◌}
use mathlib.Core.Path.{◌≡◌}
use mathlib.Core.Bool.{Bool, not, ◌&&◌, ◌||◌}
use native.Mathlib.Omega.{arith}
use kernal_elevator.Base.Tests.{ltb, leb}

abbrev pub int_mod : ℕ
int_mod = 2 ^ 32

-- `n + 1` and `n - 1` on int
unfoldable pub incr : ℕ → ℕ
incr n = (n + 1) % 2 ^ 32

unfoldable pub decr : ℕ → ℕ
decr n = (n + (2 ^ 32 - 1)) % 2 ^ 32

-- The order of two's complement is that of the patterns moved by 2 ^ 31.
abbrev bias : ℕ → ℕ
bias n = (n + 2 ^ 31) % 2 ^ 32

unfoldable pub slt : ℕ → ℕ → Bool
slt a b = ltb (bias a) (bias b)

unfoldable pub sle : ℕ → ℕ → Bool
sle a b = leb (bias a) (bias b)

pub incr_small : (n : ℕ) → n < 2 ^ 31 → incr n ≡ n + 1
unfolding incr
incr_small n h = omega arith

pub decr_small : (n : ℕ) → 0 < n → n < 2 ^ 32 → decr n ≡ n - 1
unfolding decr
decr_small n h k = omega arith

pub slt_small : (a b : ℕ) → a < 2 ^ 31 → b < 2 ^ 31 → slt a b ≡ ltb a b
unfolding slt
slt_small a b h k = ground arith

pub sle_small : (a b : ℕ) → a < 2 ^ 31 → b < 2 ^ 31 → sle a b ≡ leb a b
unfolding sle
sle_small a b h k = ground arith

-- The counters on a count that is kept modulo 2 ^ 32
pub incr-mod : (t : ℕ) → incr (t % 2 ^ 32) ≡ (t + 1) % 2 ^ 32
unfolding incr
incr-mod t = omega arith

pub decr-mod : (t : ℕ) → 0 < t → decr (t % 2 ^ 32) ≡ (t - 1) % 2 ^ 32
unfolding decr
decr-mod t h = omega arith

-- `x < lo || x > hi` on int, for bounds that are not negative: a negative `x` is out of range.
pub range_test :
    (lo hi x : ℕ)
    → lo < 2 ^ 31
    → hi < 2 ^ 31
    → x < 2 ^ 32
    → (slt x lo || slt hi x) ≡ not (leb lo x && leb x hi)
unfolding slt
range_test lo hi x h k l = ground arith
