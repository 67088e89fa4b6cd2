-- ===== src/Proc/Marks.antt =====
-- part3/elevator.c: the marks of the passengers in the line of a floor, read back.
use kernal_elevator.Base.{
  ℕ, ◌≡◌, refl, sym, ap, ◌∙◌, inl, inr, Bool, Option, none, some, List, [], ◌∷◌, ◌++◌, append-nil,
  append_assoc, map, Bytes, codes, Bool-cases, Option-cases, some_unique, get_elem?, ◌-◌, arith,
  ◌==◌, ◌>>=◌,
}
use kernal_elevator.Elevator.State.{Passenger, Globals}
use kernal_elevator.Proc.{temp_size, fit, mark, add_marks, floor_start, floor_line}

-- Two bytes for each passenger: a bar for a human, a cross for anybody else.
unfoldable pub read_marks : Bytes → Option (List Bool)
read_marks [] = some []
read_marks (_ ∷ []) = none
read_marks (_ ∷ m ∷ rest) = do ms ← read_marks rest; some ((m == b'|') ∷ ms)

abbrev pub is_human : Passenger → Bool
is_human p = p.type == 0

abbrev pub all_marks : List Passenger → Bytes
all_marks [] = []
all_marks (p ∷ ps) = mark p ++ all_marks ps

pub fit-some : (size : ℕ) (t : Bytes) {u : Bytes} → fit size t ≡ some u → t ≡ u
unfolding fit
fit-some size t e = ground arith

add_marks-append :
    (ps : List Passenger) (temp : Bytes) {out : Bytes}
    → add_marks ps temp ≡ some out
    → out ≡ temp ++ all_marks ps
unfolding add_marks
add_marks-append [] temp e = sym (append-nil temp ∙ some_unique refl e)
add_marks-append (p ∷ ps) temp {out} e = elim (Option-cases (fit temp_size (temp ++ mark p))) [
  | inl full ↦ absurd (ground (arith, full))
  | inr (temp', f) ↦
      add_marks-append ps temp' (ground (arith, f))
      ∙ ap (λ t. t ++ all_marks ps) (sym (fit-some temp_size (temp ++ mark p) f))
      ∙ append_assoc temp (mark p) (all_marks ps)
]

read_marks-all_marks : (ps : List Passenger) → read_marks (all_marks ps) ≡ some (map is_human ps)
unfolding read_marks mark
read_marks-all_marks [] = refl
read_marks-all_marks (p ∷ ps) = elim (Bool-cases (p.type == 0)) [
  | inl e ↦ rw (e, read_marks-all_marks ps) refl
  | inr e ↦ rw (e, read_marks-all_marks ps) refl
]

-- `temp` from its start on.
from_start : Bytes → List Passenger → Option Bytes
from_start start queue = do
  temp ← fit temp_size start
  marked ← add_marks queue temp
  fit temp_size (marked ++ codes "\n")

from_start-append :
    (start : Bytes) (queue : List Passenger) {line : Bytes}
    → from_start start queue ≡ some line
    → line ≡ (start ++ all_marks queue) ++ codes "\n"
unfolding from_start
from_start-append start queue e = elim (Option-cases (fit temp_size start)) [
  | inl full ↦ absurd (ground (arith, full))
  | inr (temp, f) ↦ elim (Option-cases (add_marks queue temp)) [
    | inl full ↦ absurd (ground (arith, f, full))
    | inr (marked, m) ↦
        sym (fit-some temp_size (marked ++ codes "\n") (ground (arith, f, m)))
        ∙ ap (λ t. t ++ codes "\n")
            (add_marks-append queue temp m
              ∙ ap (λ t. t ++ all_marks queue) (sym (fit-some temp_size start f)))
  ]
]

floor_line_lem :
    (g : Globals) (i count : ℕ) (queue : List Passenger)
    → get_elem? g.waiting_on_floor (i - 1) ≡ some count
    → get_elem? g.waiting_list (i - 1) ≡ some queue
    → floor_line g i ≡ from_start (floor_start g.current_floor i count) queue
unfolding floor_line from_start
floor_line_lem g i count queue c q = rw (c, q) refl

-- The line of a floor, where its list and its counter exist and the line fits, is its start,
-- marks and a line end, and the marks read back give for each passenger of the list, in order,
-- whether he is a human.
pub floor_line-marks :
    (g : Globals) (i count : ℕ) (queue : List Passenger) (line : Bytes)
    → get_elem? g.waiting_on_floor (i - 1) ≡ some count
    → get_elem? g.waiting_list (i - 1) ≡ some queue
    → floor_line g i ≡ some line
    → (marks : Bytes) × (line ≡ (floor_start g.current_floor i count ++ marks) ++ codes "\n")
      × (read_marks marks ≡ some (map is_human queue))
floor_line-marks g i count queue line c q e = (
  all_marks queue,
  from_start-append (floor_start g.current_floor i count) queue
      (sym (floor_line_lem g i count queue c q) ∙ e),
  read_marks-all_marks queue,
)
