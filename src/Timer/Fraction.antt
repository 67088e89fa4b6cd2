-- ===== src/Timer/Fraction.antt =====
-- timer/my_timer.c: the digits behind the point of a time, read as a decimal fraction of a second.
use kernal_elevator.Base.{
  ℕ, zero, suc, ◌-◌, ◌*◌, ◌^◌, ◌≤◌, ◌<◌, ◌≡◌, ◌≢◌, ◌⊎◌, ◌↔◌, inl, inr, sym, ap, ◌∙◌, Bytes, length,
  decimal, length-decimal, length-decimal_ge, value, value-decimal, arith,
}
use native.Mathlib.Decide.{dec_lt}

-- `.5` is half a second: the nanoseconds that the digits mean.
abbrev pub fraction : Bytes → ℕ
fraction ds = value 0 ds * 10 ^ (9 - length ds)

ten_times : (k : ℕ) → 0 < k → 10 ≤ 10 ^ k
ten_times zero h = absurd (omega arith)
ten_times (suc zero) h = omega arith
ten_times (suc (suc k)) h = let more = ten_times (suc k) (omega arith) in omega (arith, more)

grows : (n x : ℕ) → 0 < n → 10 ≤ x → n * x ≢ n
grows n x h l e = grind arith

-- The digits behind the point mean the nanoseconds exactly if there are none, or at least 10 ^ 8.
pub fraction_iff : (n : ℕ) → (fraction (decimal n) ≡ n) ↔ ((n ≡ 0) ⊎ (10 ^ 8 ≤ n))
fraction_iff n = elim (dec_lt n (10 ^ 8)) [
  | yes small ↦ elim (dec_lt 0 n) [
    | yes pos ↦
        let ten = ten_times (9 - length (decimal n)) (omega (arith, length-decimal 7 n small)) in
        (
          λ e. absurd (
              grows n (10 ^ (9 - length (decimal n))) pos ten
                (ap (λ v. v * 10 ^ (9 - length (decimal n))) (sym (value-decimal n)) ∙ e)),
          λ c. absurd (omega arith),
        )
    | no zero_nanos ↦
        let z : n ≡ 0 = omega arith in
        (
          λ e. inl z,
          λ c. ap (λ v. v * 10 ^ (9 - length (decimal n))) (value-decimal n ∙ z) ∙ omega (arith, z),
        )
  ]
  | no big ↦
      let full : 9 - length (decimal n) ≡ 0 = omega (arith, length-decimal_ge 8 n (omega arith)) in
      (
        λ e. inr (omega arith),
        λ c. ap (λ k. value 0 (decimal n) * 10 ^ k) full ∙ omega (arith, value-decimal n),
      )
]
