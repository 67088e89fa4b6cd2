-- ===== src/Proc/Reference.antt =====
-- part3/elevator.c: the whole text that `elevator_proc_open` should make, without its buffers, and
-- what these make of it.
use native.Mathlib.Decide.{dec_lt}
use kernal_elevator.Base.{
  ℕ, ◌-◌, ◌<◌, ◌≡◌, ◌↔◌, refl, sym, ap, ◌∙◌, subst, Option, none, some, some_unique, List, [], ◌∷◌,
  ◌++◌, append-nil, append_assoc, All, Bytes, codes, ◌>>=◌, length, length-append, get_elem?,
  Option-cases, inl, inr, arith,
}
use kernal_elevator.Elevator.State.{Passenger, Globals}
use kernal_elevator.Proc.{
  temp_size, entry_size, fit, mark, add_marks, floor_start, floor_line, strcat, add_line,
}
use kernal_elevator.Proc.Room.{fit_ok, fit_full}
use kernal_elevator.Proc.Marks.{all_marks, fit-some}

-- A text into a buffer, and more behind it into the same buffer.
fit-fit : (size : ℕ) (t u : Bytes) → (fit size t >>= λ v. fit size (v ++ u)) ≡ fit size (t ++ u)
fit-fit size t u =
    let l = length-append {0} t u in
    elim (dec_lt (length t) size) [
      | yes lt ↦ rw (fit_ok size t lt) refl
      | no ge ↦ rw (fit_full size t (omega arith), fit_full size (t ++ u) (omega arith)) refl
    ]

pub bind_assoc :
    (o : Option Bytes) (f h : Bytes → Option Bytes) → ((o >>= f) >>= h) ≡ (o >>= λ t. f t >>= h)
bind_assoc none f h = refl
bind_assoc (some t) f h = refl

add_marks-fit :
    (ps : List Passenger) (temp : Bytes)
    → (fit temp_size temp >>= add_marks ps) ≡ fit temp_size (temp ++ all_marks ps)
unfolding add_marks
add_marks-fit [] temp = elim (Option-cases (fit temp_size temp)) [
  | inl e ↦ rw (append-nil temp, e) refl
  | inr (v, e) ↦ rw (append-nil temp, e) refl
]
add_marks-fit (p ∷ ps) temp =
    sym (bind_assoc (fit temp_size temp) (λ t. fit temp_size (t ++ mark p)) (add_marks ps))
    ∙ ap (λ o. o >>= add_marks ps) (fit-fit temp_size temp (mark p))
    ∙ add_marks-fit ps (temp ++ mark p)
    ∙ ap (fit temp_size) (append_assoc temp (mark p) (all_marks ps))

abbrev pub line_text : ℕ → ℕ → ℕ → List Passenger → Bytes
line_text current i count queue = floor_start current i count ++ all_marks queue ++ codes "\n"

pub floor_line-fit :
    (g : Globals) (i count : ℕ) (queue : List Passenger)
    → get_elem? g.waiting_on_floor (i - 1) ≡ some count
    → get_elem? g.waiting_list (i - 1) ≡ some queue
    → floor_line g i ≡ fit temp_size (line_text g.current_floor i count queue)
unfolding floor_line
floor_line-fit g i count queue ec eq =
    let start : Bytes = floor_start g.current_floor i count in
    let last : Bytes → Option Bytes = λ t. fit temp_size (t ++ codes "\n") in
    rw (ec, eq)
      (sym (bind_assoc (fit temp_size start) (add_marks queue) last)
        ∙ ap (λ o. o >>= last) (add_marks-fit queue start)
        ∙ fit-fit temp_size (start ++ all_marks queue) (codes "\n"))

-- Texts written one after the other, each through `temp`.
unfoldable pub write_lines : List Bytes → Bytes → Option Bytes
write_lines [] message = some message
write_lines (t ∷ ts) message = do message' ← add_line message t; write_lines ts message'

abbrev pub joined_up : List Bytes → Bytes
joined_up [] = []
joined_up (t ∷ ts) = t ++ joined_up ts

fit_iff : (size : ℕ) (t u : Bytes) → (fit size t ≡ some u) ↔ ((t ≡ u) × (length t < size))
fit_iff size t u = elim (dec_lt (length t) size) [
  | yes lt ↦ (λ e. (fit-some size t e, lt), λ p. fit_ok size t lt ∙ ap some p.0)
  | no ge ↦ (λ e. absurd (cc (fit_full size t (omega arith))), λ p. absurd (omega (arith, p.1)))
]

add_line_iff :
    (message t out : Bytes)
    → (add_line message t ≡ some out)
      ↔ ((length t < temp_size) × (message ++ t ≡ out) × (length (message ++ t) < entry_size))
unfolding add_line strcat
add_line_iff message t out = elim (dec_lt (length t) temp_size) [
  | yes lt ↦ rw (fit_ok temp_size t lt) (
    λ e. let p = (fit_iff entry_size (message ++ t) out).0 e in (lt, p.0, p.1),
    λ p. (fit_iff entry_size (message ++ t) out).1 (p.1, p.2),
  )
  | no ge ↦ rw (fit_full temp_size t (omega arith)) (λ e. cc, λ p. absurd (ge p.0))
]

none_is_some : {t : Bytes} → none ≡ some t → ⊥
none_is_some e = cc

-- Lines are written exactly if each has room in `temp`, and all of them in the message.
pub write_lines_iff :
    (ts : List Bytes) (message out : Bytes)
    → length message < entry_size
    → (write_lines ts message ≡ some out) ↔ (
        All (λ t. length t < temp_size) ts
        × (message ++ joined_up ts ≡ out)
        × (length (message ++ joined_up ts) < entry_size))
unfolding write_lines
write_lines_iff [] message out h = (
  λ e. (
    tt,
    append-nil message ∙ some_unique refl e,
    subst (λ t. length t < entry_size) (sym (append-nil message)) h,
  ),
  λ p. ap some (sym (append-nil message) ∙ p.1),
)
write_lines_iff (t ∷ ts) message out h =
    let a = append_assoc message t (joined_up ts) in
    let n = length-append {0} (message ++ t) (joined_up ts) in
    let n' = ap (λ (u : Bytes). length u) a in
    elim (Option-cases (add_line message t)) [
      | inl e ↦
          let misfit : length t < temp_size → length (message ++ t) < entry_size → ⊥ = λ lt room.
            none_is_some (sym e ∙ (add_line_iff message t (message ++ t)).1 (lt, refl, room)) in
          rw e (λ x. cc, λ p. absurd (misfit p.0.0 (omega (arith, p.2))))
      | inr (m, e) ↦
          let l = (add_line_iff message t m).0 e in
          let b : m ++ joined_up ts ≡ message ++ (t ++ joined_up ts) =
            ap (λ u. u ++ joined_up ts) (sym l.1) ∙ a in
          let i = write_lines_iff ts m out (subst (λ u. length u < entry_size) l.1 l.2) in
          rw e (
            λ x.
                let q = i.0 x in
                ((l.0, q.0), sym b ∙ q.1, subst (λ u. length u < entry_size) b q.2),
            λ p. i.1 (p.0.1, b ∙ p.1, subst (λ u. length u < entry_size) (sym b) p.2),
          )
    ]
