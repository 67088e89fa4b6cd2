-- ===== src/Proc/Lengths.antt =====
-- part3/elevator.c: how long the message of `elevator_proc_open` is at least.
use native.Mathlib.Decide.{dec_lt}
use kernal_elevator.Base.{
  ℕ, zero, suc, ◌-◌, ◌+◌, ◌*◌, ◌^◌, ◌≤◌, ◌<◌, ◌≡◌, subst, Option, none, some, List, [], ◌∷◌, ◌++◌,
  Bytes, codes, ◌>>=◌, length, length-append, get_elem?, get_elem?_of_lt, format_int,
  length-decimal_pos, Option-cases, inl, inr, arith,
}
use kernal_elevator.Elevator.State.{Passenger, Globals, floors}
use kernal_elevator.Elevator.Queues.{total}
use kernal_elevator.Proc.{
  temp_size, entry_size, fit, mark, add_marks, floor_start, floor_line, strcat, floor_lines,
  add_line, header, header_lines, compose, state_text, status_text,
}
use kernal_elevator.Proc.Room.{fit_ok, fit_full, length-floor_start, length-add_mark}
use kernal_elevator.Proc.Fits.{up_to, up_to-suc}

-- A text, if there is one, has a property.
abbrev pub Holds : (Bytes → Type 0) → Option Bytes → Type 0
Holds P none = Unit
Holds P (some t) = P t

Holds-bind :
    {P : Bytes → Type 0} (Q : Bytes → Type 0) (o : Option Bytes) (f : Bytes → Option Bytes)
    → Holds P o
    → ((t : Bytes) → P t → Holds Q (f t))
    → Holds Q (o >>= f)
Holds-bind Q none f h c = tt
Holds-bind Q (some t) f h c = c t h

-- At least `n` bytes, in `temp` and in the message.
abbrev IsLong : ℕ → Bytes → Type 0
IsLong n t = n ≤ length t

abbrev pub IsMessage : ℕ → Bytes → Type 0
IsMessage n t = (n ≤ length t) × (length t < entry_size)

fit-IsLong : (n size : ℕ) (t : Bytes) → n ≤ length t → Holds (IsLong n) (fit size t)
fit-IsLong n size t h = elim (dec_lt (length t) size) [
  | yes lt ↦ rw (fit_ok size t lt) h
  | no ge ↦ rw (fit_full size t (omega arith)) tt
]

strcat-IsMessage :
    (n : ℕ) (m t : Bytes) → n ≤ length m + length t → Holds (IsMessage n) (strcat m t)
unfolding strcat
strcat-IsMessage n m t h =
    let l = length-append {0} m t in
    elim (dec_lt (length (m ++ t)) entry_size) [
      | yes lt ↦ rw (fit_ok entry_size (m ++ t) lt) (omega arith, lt)
      | no ge ↦ rw (fit_full entry_size (m ++ t) (omega arith)) tt
    ]

add_line-IsMessage :
    (n k : ℕ) (m t : Bytes) → k ≤ length t → n ≤ length m + k → Holds (IsMessage n) (add_line m t)
unfolding add_line
add_line-IsMessage n k m t l h =
    Holds-bind (IsMessage n) (fit temp_size t) (strcat m) (fit-IsLong k temp_size t l)
      (λ u b. strcat-IsMessage n m u (omega arith))

format_int-grows : (n : ℕ) → 1 ≤ length (format_int n)
unfolding format_int
format_int-grows n = ground (arith, length-decimal_pos n, length-decimal_pos (2 ^ 32 - n))

add_marks-IsLong :
    (n : ℕ) (ps : List Passenger) (temp : Bytes)
    → n ≤ length temp + 2 * length ps
    → Holds (IsLong n) (add_marks ps temp)
unfolding add_marks
add_marks-IsLong n [] temp h = omega arith
add_marks-IsLong n (p ∷ ps) temp h =
    let l = length-add_mark temp p in
    Holds-bind (IsLong n) (fit temp_size (temp ++ mark p)) (add_marks ps)
      (fit-IsLong (length temp + 2) temp_size (temp ++ mark p) (omega arith))
      (λ u b. add_marks-IsLong n ps u (omega arith))

floor_line-IsLong :
    (g : Globals) (i : ℕ) (queue : List Passenger)
    → 1 ≤ i
    → i ≤ floors
    → get_elem? g.waiting_list (i - 1) ≡ some queue
    → Holds (IsLong (18 + 2 * length queue)) (floor_line g i)
unfolding floor_line
floor_line-IsLong g i queue h l e = elim (Option-cases (get_elem? g.waiting_on_floor (i - 1))) [
  | inl z ↦ rw z tt
  | inr (count, z) ↦
      let start : Bytes = floor_start g.current_floor i count in
      let w = length-floor_start g.current_floor i count h l in
      let b = format_int-grows count in
      let n = 18 + 2 * length queue in
      rw (z, e)
        (Holds-bind (IsLong n) (fit temp_size start) _ (fit-IsLong 17 temp_size start (omega arith))
          λ u a.
            Holds-bind (IsLong n) (add_marks queue u) _
              (add_marks-IsLong (17 + 2 * length queue) queue u (omega arith))
              λ out c.
                fit-IsLong n temp_size (out ++ codes "\n")
                  (omega (arith, length-append {0} out (codes "\n"))))
]

floor_lines-IsMessage :
    (g : Globals) (n i : ℕ) (m : Bytes)
    → length g.waiting_list ≡ floors
    → i ≤ floors
    → n ≤ length m + 18 * i + 2 * up_to i g.waiting_list
    → length m < entry_size
    → Holds (IsMessage n) (floor_lines g i m)
unfolding floor_lines
floor_lines-IsMessage g n zero m size h b l = (omega arith, l)
floor_lines-IsMessage g n (suc i) m size h b l =
    let (queue, e) = get_elem?_of_lt g.waiting_list i (omega arith) in
    let u = up_to-suc i g.waiting_list e in
    let j : i ≡ suc i - 1 = omega arith in
    Holds-bind (IsMessage n) (floor_line g (suc i)) _
      (floor_line-IsLong g (suc i) queue (omega arith) h
        (subst (λ k. get_elem? g.waiting_list k ≡ some queue) j e))
      λ line a.
        Holds-bind (IsMessage n) (strcat m line) (floor_lines g i)
          (strcat-IsMessage (length m + 18 + 2 * length queue) m line (omega arith))
          λ m' c. floor_lines-IsMessage g n i m' size (omega arith) (omega (arith, c.0)) c.1

state_text-IsLong : (state : ℕ) → Holds (IsLong 3) (state_text state)
unfolding state_text
state_text-IsLong state = ground arith

length-status_text-ge : (status : ℕ) → 26 ≤ length (status_text status)
unfolding status_text
length-status_text-ge status = ground arith

-- A line of the header: its label, a number, its end.
number_line-grows :
    (label end : Bytes) (n : ℕ)
    → length label + 1 + length end ≤ length (label ++ format_int n ++ end)
number_line-grows label end n = omega (
  arith,
  length-append {0} label (format_int n),
  length-append {0} (label ++ format_int n) end,
  format_int-grows n,
)

header-IsMessage : (g : Globals) → Holds (IsMessage 138) (header g)
unfolding header header_lines
header-IsMessage g =
    Holds-bind (IsMessage 138) (state_text g.state) _ (state_text-IsLong g.state) λ t a.
      Holds-bind (IsMessage 138) (strcat (codes "Elevator state: ") t) _
        (strcat-IsMessage 19 (codes "Elevator state: ") t (omega arith))
        λ m1 b1.
          Holds-bind (IsMessage 138) (add_line m1 (status_text g.status)) _
            (add_line-IsMessage 45 26 m1 _ (length-status_text-ge g.status) (omega (arith, b1.0)))
            λ m2 b2.
              Holds-bind (IsMessage 138) (add_line m2 _) _
                (add_line-IsMessage 62 17 m2 _
                  (number_line-grows (codes "Current floor: ") (codes "\n") g.current_floor)
                  (omega (arith, b2.0)))
                λ m3 b3.
                  Holds-bind (IsMessage 138) (add_line m3 _) _
                    (add_line-IsMessage 86 24 m3 _
                      (number_line-grows (codes "Number of passengers: ") (codes "\n") g.loads)
                      (omega (arith, b3.0)))
                    λ m4 b4.
                      Holds-bind (IsMessage 138) (add_line m4 _) _
                        (add_line-IsMessage 107 21 m4 _
                          (number_line-grows (codes "Number of waiting: ") (codes "\n")
                            g.num_waiting)
                          (omega (arith, b4.0)))
                        λ m5 b5.
                          add_line-IsMessage 138 31 m5 _
                            (number_line-grows (codes "Number passengers serviced: ") (codes "\n\n")
                              g.serviced)
                            (omega (arith, b5.0))

up_to-all : (i : ℕ) (qs : List (List Passenger)) → length qs ≤ i → total qs ≤ up_to i qs
up_to-all zero [] h = omega arith
up_to-all (suc i) [] h = omega arith
up_to-all zero (q ∷ qs) h = absurd (omega arith)
up_to-all (suc i) (q ∷ qs) h = omega (arith, up_to-all i qs (omega arith))

-- Every line adds at least what is the same in all states, and two bytes for each passenger.
pub compose-IsMessage :
    (g : Globals)
    → length g.waiting_list ≡ floors
    → Holds (IsMessage (318 + 2 * total g.waiting_list)) (compose g)
unfolding compose
compose-IsMessage g size =
    Holds-bind (IsMessage (318 + 2 * total g.waiting_list)) (header g) _ (header-IsMessage g) λ m b.
      floor_lines-IsMessage g (318 + 2 * total g.waiting_list) floors m size (omega arith)
        (omega (arith, b.0, up_to-all floors g.waiting_list (omega arith))) b.1
