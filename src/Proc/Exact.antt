-- ===== src/Proc/Exact.antt =====
-- part3/elevator.c: the text of `elevator_proc_open` against a plain description of it.
use kernal_elevator.Base.{
  ℕ, zero, suc, ◌-◌, ◌+◌, ◌≤◌, ◌<◌, ◌≡◌, ◌↔◌, refl, sym, ap, ◌∙◌, subst, Option, none, some, List,
  [], ◌∷◌, ◌++◌, All, Bytes, codes, ◌>>=◌, length, take, length-take, take-suc, take-all, get_elem?,
  get_elem?_of_lt, format_int, arith,
}
use kernal_elevator.Elevator.State.{Passenger, Globals, floors}
use kernal_elevator.Elevator.Queues.{counts}
use kernal_elevator.Elevator.Invariant.Defs.{Inv}
use kernal_elevator.Proc.{
  temp_size, entry_size, fit, strcat, floor_lines, add_line, header, header_lines, compose,
  state_text, status_text,
}
use kernal_elevator.Proc.Room.{fit_ok}
use kernal_elevator.Proc.Reference.{
  line_text, bind_assoc, floor_line-fit, write_lines, joined_up, write_lines_iff,
}

-- The lines of the floors from `i` on, the highest first.
abbrev pub floor_texts : ℕ → ℕ → List ℕ → List (List Passenger) → List Bytes
floor_texts current i [] _ = []
floor_texts current i (_ ∷ _) [] = []
floor_texts current i (c ∷ cs) (q ∷ qs) =
    floor_texts current (i + 1) cs qs ++ line_text current i c q ∷ []

-- What the entry should show, line by line, behind `Elevator state: `.
abbrev pub top_lines : Bytes → Globals → List Bytes
top_lines state g =
    state
    ∷ status_text g.status
    ∷ (codes "Current floor: " ++ format_int g.current_floor ++ codes "\n")
    ∷ (codes "Number of passengers: " ++ format_int g.loads ++ codes "\n")
    ∷ (codes "Number of waiting: " ++ format_int g.num_waiting ++ codes "\n")
    ∷ (codes "Number passengers serviced: " ++ format_int g.serviced ++ codes "\n\n")
    ∷ []

abbrev pub report_lines : Bytes → Globals → List Bytes
report_lines state g =
    top_lines state g ++ floor_texts g.current_floor 1 g.waiting_on_floor g.waiting_list

abbrev pub report : Bytes → Globals → Bytes
report state g = codes "Elevator state: " ++ joined_up (report_lines state g)

floor_texts-last :
    (current i : ℕ) (cs : List ℕ) (qs : List (List Passenger)) (c : ℕ) (q : List Passenger)
    → length cs ≡ length qs
    → floor_texts current i (cs ++ c ∷ []) (qs ++ q ∷ [])
      ≡ line_text current (i + length cs) c q ∷ floor_texts current i cs qs
floor_texts-last current i [] [] c q e = ap (λ n. line_text current n c q ∷ []) (omega arith)
floor_texts-last current i [] (_ ∷ _) c q e = absurd (omega arith)
floor_texts-last current i (_ ∷ _) [] c q e = absurd (omega arith)
floor_texts-last current i (d ∷ cs) (r ∷ qs) c q e =
    ap (λ ts. ts ++ line_text current i d r ∷ [])
      (floor_texts-last current (i + 1) cs qs c q (omega arith))
    ∙ ap
        (λ n.
          line_text current n c q
          ∷ (floor_texts current (i + 1) cs qs ++ line_text current i d r ∷ []))
        (omega arith)

write_lines-append :
    (ts us : List Bytes) (message : Bytes)
    → write_lines (ts ++ us) message ≡ (write_lines ts message >>= write_lines us)
unfolding write_lines
write_lines-append [] us message = refl
write_lines-append (t ∷ ts) us message =
    ap (λ (f : Bytes → Option Bytes). add_line message t >>= f)
      (λ i m. write_lines-append ts us m i)
    ∙ sym (bind_assoc (add_line message t) (write_lines ts) (write_lines us))

bind_some : (o : Option Bytes) → o ≡ (o >>= λ m. some m)
bind_some none = refl
bind_some (some m) = refl

short_line : (message t : Bytes) → length t < temp_size → strcat message t ≡ add_line message t
unfolding add_line
short_line message t h = rw (fit_ok temp_size t h) refl

header_lines-writes :
    (state : Bytes) (g : Globals)
    → length state < temp_size
    → header_lines state g ≡ write_lines (top_lines state g) (codes "Elevator state: ")
unfolding header_lines write_lines
header_lines-writes state g h =
    let short : strcat (codes "Elevator state: ") state
        ≡ add_line (codes "Elevator state: ") state =
      short_line (codes "Elevator state: ") state h in
    λ i. short i >>= λ m1. add_line m1 (status_text g.status) >>= λ m2.
    add_line m2 (codes "Current floor: " ++ format_int g.current_floor ++ codes "\n") >>= λ m3.
    add_line m3 (codes "Number of passengers: " ++ format_int g.loads ++ codes "\n") >>= λ m4.
    add_line m4 (codes "Number of waiting: " ++ format_int g.num_waiting ++ codes "\n") >>= λ m5.
    bind_some
      (add_line m5 (codes "Number passengers serviced: " ++ format_int g.serviced ++ codes "\n\n"))
      i

module _ (g : Globals) (counters : length g.waiting_on_floor ≡ floors)
    (lists : length g.waiting_list ≡ floors) where
  -- The lines of the `n` lowest floors.
  abbrev lowest : ℕ → List Bytes
  lowest n = floor_texts g.current_floor 1 (take n g.waiting_on_floor) (take n g.waiting_list)

  lowest-suc :
      (n c : ℕ) (q : List Passenger)
      → n < floors
      → get_elem? g.waiting_on_floor n ≡ some c
      → get_elem? g.waiting_list n ≡ some q
      → lowest (suc n) ≡ line_text g.current_floor (suc n) c q ∷ lowest n
  lowest-suc n c q h ec eq =
      let lc = length-take n g.waiting_on_floor (omega arith) in
      let lq = length-take n g.waiting_list (omega arith) in
      ap (λ cs. floor_texts g.current_floor 1 cs (take (suc n) g.waiting_list))
        (take-suc n g.waiting_on_floor ec)
      ∙ ap (floor_texts g.current_floor 1 (take n g.waiting_on_floor ++ c ∷ []))
          (take-suc n g.waiting_list eq)
      ∙ floor_texts-last g.current_floor 1 (take n g.waiting_on_floor) (take n g.waiting_list) c q
          (lc ∙ sym lq)
      ∙ ap (λ k. line_text g.current_floor k c q ∷ lowest n) (omega arith)

  floor_lines-lowest :
      (n : ℕ) (message : Bytes)
      → n ≤ floors
      → floor_lines g n message ≡ write_lines (lowest n) message
  unfolding floor_lines write_lines add_line
  floor_lines-lowest zero message h = refl
  floor_lines-lowest (suc n) message h =
      let (c, ec) = get_elem?_of_lt g.waiting_on_floor n (omega arith) in
      let (q, eq) = get_elem?_of_lt g.waiting_list n (omega arith) in
      let t = line_text g.current_floor (suc n) c q in
      let j : n ≡ suc n - 1 = omega arith in
      ap (λ o. o >>= λ line. strcat message line >>= floor_lines g n)
        (floor_line-fit g (suc n) c q (subst (λ k. get_elem? g.waiting_on_floor k ≡ some c) j ec)
          (subst (λ k. get_elem? g.waiting_list k ≡ some q) j eq))
      ∙ sym (bind_assoc (fit temp_size t) (strcat message) (floor_lines g n))
      ∙ ap (λ (f : Bytes → Option Bytes). add_line message t >>= f)
          (λ i m. floor_lines-lowest n m (omega arith) i)
      ∙ ap (λ ts. write_lines ts message) (sym (lowest-suc n c q h ec eq))

  lowest_all : lowest floors ≡ floor_texts g.current_floor 1 g.waiting_on_floor g.waiting_list
  lowest_all =
      ap (λ cs. floor_texts g.current_floor 1 cs (take floors g.waiting_list))
        (take-all floors g.waiting_on_floor counters)
      ∙ ap (floor_texts g.current_floor 1 g.waiting_on_floor) (take-all floors g.waiting_list lists)

  compose-writes :
      (state : Bytes)
      → state_text g.state ≡ some state
      → length state < temp_size
      → compose g ≡ write_lines (report_lines state g) (codes "Elevator state: ")
  unfolding compose header
  compose-writes state e h =
      let label = codes "Elevator state: " in
      rw e (
        ap (λ o. o >>= floor_lines g floors) (header_lines-writes state g h)
        ∙ ap (λ (f : Bytes → Option Bytes). write_lines (top_lines state g) label >>= f)
            (λ i m. floor_lines-lowest floors m (omega arith) i)
        ∙ sym (write_lines-append (top_lines state g) (lowest floors) label)
        ∙ ap (λ ts. write_lines (top_lines state g ++ ts) label) lowest_all)

state_text_short : (n : ℕ) (t : Bytes) → state_text n ≡ some t → length t < temp_size
unfolding state_text
state_text_short n t e = ground arith

length-counts : (qs : List (List Passenger)) → length (counts qs) ≡ length qs
length-counts [] = refl
length-counts (q ∷ qs) = ap suc (length-counts qs)

-- In a state with the invariant whose state has a name, the text of /proc/elevator is composed
-- exactly if each of its lines has room in the 100 bytes of `temp` and the whole has room in the
-- 1024 bytes of the message. It is then the report: the name, the status, the four numbers, and
-- for each floor from the top its mark for the car, its number, its counter and a mark for each
-- passenger of its queue in order.
pub compose_exact :
    (g : Globals) (state out : Bytes)
    → Inv g
    → state_text g.state ≡ some state
    → (compose g ≡ some out) ↔ (
        All (λ t. length t < temp_size) (report_lines state g)
        × (report state g ≡ out)
        × (length (report state g) < entry_size))
compose_exact g state out v e =
    let counters =
      ap (λ ns. length ns) v.queued.counted ∙ length-counts g.waiting_list ∙ v.queued.size in
    let w = compose-writes g counters v.queued.size state e (state_text_short g.state state e) in
    subst
      (λ o. (o ≡ some out) ↔ (
        All (λ t. length t < temp_size) (report_lines state g)
        × (report state g ≡ out)
        × (length (report state g) < entry_size)))
      (sym w) (write_lines_iff (report_lines state g) (codes "Elevator state: ") out (omega arith))
