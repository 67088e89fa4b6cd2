-- ===== src/Proc/Room.antt =====
-- part3/elevator.c: how much of the buffers the message of `elevator_proc_open` takes.
use native.Mathlib.Decide.{dec_lt}
use kernal_elevator.Base.{
  ℕ, ◌-◌, ◌+◌, ◌*◌, ◌^◌, ◌≤◌, ◌<◌, ◌≡◌, refl, ap, none, some, List, [], ◌∷◌, ◌++◌, Bytes, codes,
  length, length-append, get_elem?, ◌==◌, format_int, length-decimal, length-decimal_pos,
  length-decimal_two, format_int_small, inl, inr, Bool-cases, arith,
}
use kernal_elevator.Elevator.State.{Passenger, Globals, floors}
use kernal_elevator.Proc.{temp_size, fit, mark, add_marks, floor_start, floor_line}

length-mark : (p : Passenger) → length (mark p) ≡ 2
unfolding mark
length-mark p = ground arith

pub fit_ok : (size : ℕ) (t : Bytes) → length t < size → fit size t ≡ some t
unfolding fit
fit_ok size t h = ground arith

pub fit_full : (size : ℕ) (t : Bytes) → size ≤ length t → fit size t ≡ none
unfolding fit
fit_full size t h = ground arith

pub length-add_mark : (temp : Bytes) (p : Passenger) → length (temp ++ mark p) ≡ length temp + 2
length-add_mark temp p = omega (arith, length-append {0} temp (mark p), length-mark p)

pub add_marks_lem :
    (ps : List Passenger) (temp : Bytes)
    → length temp + 2 * length ps < temp_size
    → (out : Bytes) × (add_marks ps temp ≡ some out) × (length out ≡ length temp + 2 * length ps)
unfolding add_marks
add_marks_lem [] temp h = (temp, refl, omega arith)
add_marks_lem (p ∷ ps) temp h =
    let n = length-add_mark temp p in
    let (out, e, l) = add_marks_lem ps (temp ++ mark p) (omega arith) in
    (out, rw (fit_ok temp_size (temp ++ mark p) (omega arith)) e, omega arith)

pub add_marks_overflow :
    (ps : List Passenger) (temp : Bytes)
    → length temp < temp_size
    → temp_size ≤ length temp + 2 * length ps
    → add_marks ps temp ≡ none
unfolding add_marks
add_marks_overflow [] temp l h = absurd (omega arith)
add_marks_overflow (p ∷ ps) temp l h =
    let n = length-add_mark temp p in
    elim (dec_lt (length (temp ++ mark p)) temp_size) [
      | yes lt ↦
          rw (fit_ok temp_size (temp ++ mark p) lt)
            (add_marks_overflow ps (temp ++ mark p) lt (omega arith))
      | no ge ↦ rw (fit_full temp_size (temp ++ mark p) (omega arith)) refl
    ]

-- The decimal of a count below 100 has one digit or two.
pub length-format_int :
    (n : ℕ) → n < 100 → (1 ≤ length (format_int n)) × (length (format_int n) ≤ 2)
length-format_int n h =
    rw (format_int_small n (omega arith)) (length-decimal_pos n, length-decimal 1 n (omega arith))

length-format_digit : (n : ℕ) → n < 10 → length (format_int n) ≡ 1
length-format_digit n h =
    rw (format_int_small n (omega arith))
      (omega (arith, length-decimal_pos n, length-decimal 0 n (omega arith)))

length-format_ten : length (format_int 10) ≡ 2
unfolding format_int
length-format_ten = refl

length-append_four :
    (a b c d : Bytes) → length (a ++ b ++ c ++ d) ≡ length a + length b + length c + length d
length-append_four a b c d =
    omega (
      arith,
      length-append {0} a b,
      length-append {0} (a ++ b) c,
      length-append {0} (a ++ b ++ c) d,
    )

pub length-floor_start :
    (current i count : ℕ)
    → 1 ≤ i
    → i ≤ floors
    → length (floor_start current i count) ≡ 16 + length (format_int count)
unfolding floor_start
length-floor_start current i count h l = elim (Bool-cases (i == floors)) [
  | inl e ↦
      let ten : i ≡ 10 = ground arith in
      rw (ten) (
        omega (
          arith,
          length-append_four (format_int 10) (codes ":  ") (format_int count) (codes " "),
          length-format_ten,
        ))
  | inr e ↦ rw e (
      omega (
        arith,
        length-append_four (format_int i) (codes ":  ") (format_int count) (codes " "),
        length-format_digit i (ground arith),
      ))
]

-- The line of a floor fits into `temp` exactly when at most 40 passengers wait there.
pub floor_line_fits :
    (g : Globals) (i count : ℕ) (queue : List Passenger)
    → 1 ≤ i
    → i ≤ floors
    → get_elem? g.waiting_on_floor (i - 1) ≡ some count
    → get_elem? g.waiting_list (i - 1) ≡ some queue
    → count < 100
    → length queue ≤ 40
    → (line : Bytes) × (floor_line g i ≡ some line) × (length line ≤ 19 + 2 * length queue)
unfolding floor_line
floor_line_fits g i count queue h l ec eq n few =
    let s = length-floor_start g.current_floor i count h l in
    let c = length-format_int count (omega arith) in
    let start : Bytes = floor_start g.current_floor i count in
    let (out, e, lo) = add_marks_lem queue start (omega arith) in
    let a = length-append {0} out (codes "\n") in
    (
      out ++ codes "\n",
      rw
          (
            ec,
            eq,
            fit_ok temp_size start (omega arith),
            e,
            fit_ok temp_size (out ++ codes "\n") (omega arith),
          )
          refl,
      omega arith,
    )

pub floor_line_overflows :
    (g : Globals) (i count : ℕ) (queue : List Passenger)
    → 1 ≤ i
    → i ≤ floors
    → get_elem? g.waiting_on_floor (i - 1) ≡ some count
    → get_elem? g.waiting_list (i - 1) ≡ some queue
    → count ≡ length queue
    → 40 < length queue
    → count < 2 ^ 31
    → floor_line g i ≡ none
unfolding floor_line
floor_line_overflows g i count queue h l ec eq n many few =
    let s = length-floor_start g.current_floor i count h l in
    let start : Bytes = floor_start g.current_floor i count in
    let c = length-decimal_two count (omega arith) in
    let d = length-decimal 9 count (omega arith) in
    let f = ap (λ (t : Bytes). length t) (format_int_small count few) in
    rw
      (
        ec,
        eq,
        fit_ok temp_size start (omega arith),
        add_marks_overflow queue start (omega arith) (omega arith),
      )
      refl
