-- ===== src/Base/Text.antt =====
-- Text as the list of its bytes, and the decimal formats of printf.
use Prim.Native.Nat.{ℕ, zero, suc, ◌+◌, ◌-◌, ◌*◌, ◌/◌, ◌%◌, ◌^◌, ◌≤◌, ◌<◌}
use Prim.Native.Char.{code}
use Prim.Native.String.{String}
use mathlib.Core.Path.{◌≡◌}
use mathlib.Core.List.{List, [], ◌∷◌, foldl}
use native.Mathlib.Omega.{arith}
use kernal_elevator.Base.Tests.{ltb, ◌==◌, if◌then◌else◌}
use kernal_elevator.Base.Lists.{length}

abbrev pub Bytes : Type 0
Bytes = List ℕ

abbrev pub codes : String → Bytes
codes String.[] = []
codes (String.◌∷◌ c s) = code c ∷ codes s

-- The digits of `n` before `out`. The fuel `suc n` is enough, since every round divides by ten.
unfoldable pub digits : ℕ → ℕ → Bytes → Bytes
digits zero n out = out
digits (suc fuel) n out =
    let more = digits fuel (n / 10) ((b'0' + n % 10) ∷ out) in
    if n / 10 == 0 then (b'0' + n % 10) ∷ out else more

unfoldable pub decimal : ℕ → Bytes
unfolding digits
decimal n = digits (suc n) n []

-- `%d` of an int
unfoldable pub format_int : ℕ → Bytes
unfolding decimal
format_int n = if ltb n (2 ^ 31) then decimal n else b'-' ∷ decimal (2 ^ 32 - n)

-- The number that digits spell.
abbrev pub value : ℕ → Bytes → ℕ
value = foldl (λ n c. n * 10 + (c - b'0'))

value-digits : (fuel n : ℕ) (out : Bytes) → n < fuel → value 0 (digits fuel n out) ≡ value n out
unfolding digits
value-digits zero n out h = absurd (omega arith)
value-digits (suc fuel) n out h = ground (arith, value-digits fuel (n / 10) ((b'0' + n % 10) ∷ out))

-- What is printed spells the number.
pub value-decimal : (n : ℕ) → value 0 (decimal n) ≡ n
unfolding decimal
value-decimal n = value-digits (suc n) n [] (omega arith)

length-digits :
    (k fuel n : ℕ) (out : Bytes) → n < 10 ^ suc k → length (digits fuel n out) ≤ suc k + length out
unfolding digits
length-digits k zero n out h = omega arith
length-digits zero (suc fuel) n out h = ground arith
length-digits (suc k) (suc fuel) n out h =
    ground (arith, length-digits k fuel (n / 10) ((b'0' + n % 10) ∷ out))

pub length-decimal : (k n : ℕ) → n < 10 ^ suc k → length (decimal n) ≤ suc k
unfolding decimal
length-decimal k n h = omega (arith, length-digits k (suc n) n [] h)

le-length-digits : (fuel n : ℕ) (out : Bytes) → length out ≤ length (digits fuel n out)
unfolding digits
le-length-digits zero n out = omega arith
le-length-digits (suc fuel) n out =
    ground (arith, le-length-digits fuel (n / 10) ((b'0' + n % 10) ∷ out))

pub length-decimal_pos : (n : ℕ) → 1 ≤ length (decimal n)
unfolding decimal
length-decimal_pos n = ground (arith, le-length-digits n (n / 10) ((b'0' + n % 10) ∷ []))

pub format_int_small : (n : ℕ) → n < 2 ^ 31 → format_int n ≡ decimal n
unfolding format_int
format_int_small n h = ground arith

digits-grows : (fuel n : ℕ) (out : Bytes) → suc (length out) ≤ length (digits (suc fuel) n out)
unfolding digits
digits-grows fuel n out = ground (arith, le-length-digits fuel (n / 10) ((b'0' + n % 10) ∷ out))

pub length-decimal_two : (n : ℕ) → 10 ≤ n → 2 ≤ length (decimal n)
unfolding decimal
length-decimal_two zero h = absurd (omega arith)
length-decimal_two (suc m) h =
    ground (arith, digits-grows m (suc m / 10) ((b'0' + suc m % 10) ∷ []))

-- An int takes at most eleven characters.
pub length-format_int_le : (n : ℕ) → n < 2 ^ 32 → length (format_int n) ≤ 11
unfolding format_int
length-format_int_le n h = ground (arith, length-decimal 9 n, length-decimal 9 (2 ^ 32 - n))

pow_pos : (k : ℕ) → 1 ≤ 10 ^ k
pow_pos zero = omega arith
pow_pos (suc k) = omega (arith, pow_pos k)

length-digits_ge :
    (k fuel n : ℕ) (out : Bytes)
    → n < fuel
    → 10 ^ k ≤ n
    → suc k + length out ≤ length (digits fuel n out)
unfolding digits
length-digits_ge k zero n out h l = absurd (omega arith)
length-digits_ge zero (suc fuel) n out h l = omega (arith, digits-grows fuel n out)
length-digits_ge (suc k) (suc fuel) n out h l =
    let more : 10 ^ k ≤ n / 10 = omega arith in
    ground (arith, pow_pos k, length-digits_ge k fuel (n / 10) ((b'0' + n % 10) ∷ out))

pub length-decimal_ge : (k n : ℕ) → 10 ^ k ≤ n → suc k ≤ length (decimal n)
unfolding decimal
length-decimal_ge k n h = omega (arith, length-digits_ge k (suc n) n [] (omega arith) h)
