-- ===== src/Proc/Fits.antt =====
-- part3/elevator.c: the whole message of `elevator_proc_open`, against the two buffers.
use kernal_elevator.Base.{
  ℕ, zero, suc, ◌-◌, ◌+◌, ◌*◌, ◌%◌, ◌^◌, ◌≤◌, ◌<◌, ◌≡◌, refl, ap, subst, ◌∙◌, some, List, [], ◌∷◌,
  ◌++◌, All, Bytes, codes, length, length-append, get_elem?, get_elem?_of_lt, format_int,
  length-format_int_le, length-decimal, format_int_small, arith,
}
use kernal_elevator.Elevator.State.{Passenger, Globals, floors}
use kernal_elevator.Elevator.Queues.{IsQueued, total, counts-get}
use kernal_elevator.Elevator.Invariant.Defs.{Inv}
use kernal_elevator.Proc.{
  temp_size, entry_size, floor_line, strcat, floor_lines, add_line, header, header_lines, compose,
  state_text, status_text,
}
use kernal_elevator.Proc.Room.{fit_ok, floor_line_fits, length-format_int}

pub strcat_ok : (m t : Bytes) → length m + length t < entry_size → strcat m t ≡ some (m ++ t)
unfolding strcat
strcat_ok m t h = fit_ok entry_size (m ++ t) (omega (arith, length-append {0} m t))

add_line_ok :
    (m t : Bytes)
    → length t < temp_size
    → length m + length t < entry_size
    → add_line m t ≡ some (m ++ t)
unfolding add_line
add_line_ok m t h k = rw (fit_ok temp_size t h) (strcat_ok m t k)

-- The passengers on the floors of index below `i`.
abbrev pub up_to : ℕ → List (List Passenger) → ℕ
up_to zero qs = 0
up_to (suc i) [] = 0
up_to (suc i) (q ∷ qs) = length q + up_to i qs

pub up_to-suc :
    (i : ℕ) (qs : List (List Passenger)) {q : List Passenger}
    → get_elem? qs i ≡ some q
    → up_to (suc i) qs ≡ up_to i qs + length q
up_to-suc i [] e = cc
up_to-suc zero (x ∷ qs) e = ground arith
up_to-suc (suc i) (x ∷ qs) e = omega (arith, up_to-suc i qs e)

up_to-total : (i : ℕ) (qs : List (List Passenger)) → up_to i qs ≤ total qs
up_to-total zero qs = omega arith
up_to-total (suc i) [] = omega arith
up_to-total (suc i) (q ∷ qs) = omega (arith, up_to-total i qs)

pub All-get {ℓ κ} :
    {A : Type ℓ} (P : A → Type κ) (xs : List A) (i : ℕ) {x : A}
    → All P xs
    → get_elem? xs i ≡ some x
    → P x
All-get P [] i h e = cc
All-get P (y ∷ xs) zero h e = subst P (cc) h.0
All-get P (y ∷ xs) (suc i) h e = All-get P xs i h.1 e

module _ (g : Globals) (q : IsQueued g.waiting_list g.waiting_on_floor g.num_waiting)
    (short : All (λ ps. length ps ≤ 40) g.waiting_list) where
  floor_line_at :
      (i : ℕ)
      → i < floors
      → (queue : List Passenger) × (line : Bytes) × (get_elem? g.waiting_list i ≡ some queue)
        × (floor_line g (suc i) ≡ some line)
        × (length line ≤ 19 + 2 * length queue)
  floor_line_at i h =
      let (queue, e) = get_elem?_of_lt g.waiting_list i (omega (arith, q.size)) in
      let few : length queue ≤ 40 = All-get (λ ps. length ps ≤ 40) g.waiting_list i short e in
      let j : i ≡ suc i - 1 = omega arith in
      let at = subst (λ k. get_elem? g.waiting_list k ≡ some queue) j e in
      let c =
        subst (λ k. get_elem? g.waiting_on_floor k ≡ some (length queue % 2 ^ 32)) j
          (ap (λ ns. get_elem? ns i) q.counted ∙ counts-get g.waiting_list i e) in
      let (line, l, b) =
        floor_line_fits g (suc i) (length queue % 2 ^ 32) queue (omega arith) (omega arith) c at
          (omega arith) few in
      (queue, line, e, l, b)

  floor_lines_fit :
      (i : ℕ) (m : Bytes)
      → i ≤ floors
      → length m + 19 * i + 2 * up_to i g.waiting_list < entry_size
      → (out : Bytes) × (floor_lines g i m ≡ some out)
  unfolding floor_lines
  floor_lines_fit zero m l h = (m, refl)
  floor_lines_fit (suc i) m l h =
      let (queue, line, e, r, b) = floor_line_at i l in
      let u = up_to-suc i g.waiting_list e in
      let (out, f) =
        floor_lines_fit i (m ++ line) (omega arith) (omega (arith, length-append {0} m line)) in
      (out, rw (r, strcat_ok m line (omega arith)) f)

pub length-state_text :
    (state : ℕ) → state ≤ 4 → (t : Bytes) × (state_text state ≡ some t) × (length t ≤ 9)
unfolding state_text
length-state_text zero h = (codes "OFFLINE\n", refl, omega arith)
length-state_text (suc zero) h = (codes "IDELE \n", refl, omega arith)
length-state_text (suc (suc zero)) h = (codes "LOADING \n", refl, omega arith)
length-state_text (suc (suc (suc zero))) h = (codes "UP\n", refl, omega arith)
length-state_text (suc (suc (suc (suc zero)))) h = (codes "DOWN\n", refl, omega arith)
length-state_text (suc (suc (suc (suc (suc n))))) h = absurd (omega arith)

length-status_text : (status : ℕ) → length (status_text status) ≤ 29
unfolding status_text
length-status_text status = ground arith

-- A line of the header: its label, a number, its end.
length-number_line :
    (label end : Bytes) (n k : ℕ)
    → length (format_int n) ≤ k
    → length (label ++ format_int n ++ end) ≤ length label + k + length end
length-number_line label end n k h =
    omega
      (arith, length-append {0} label (format_int n), length-append {0} (label ++ format_int n) end)

length-format_int_three : (n : ℕ) → n < 1000 → length (format_int n) ≤ 3
length-format_int_three n h =
    rw (format_int_small n (omega arith)) (length-decimal 2 n (omega arith))

-- Each line of the header has room.
pub header_lines_fit :
    (state : Bytes) (g : Globals)
    → length state ≤ 9
    → g.current_floor < 100
    → g.loads < 100
    → g.num_waiting < 1000
    → g.serviced < 2 ^ 32
    → (m : Bytes) × (header_lines state g ≡ some m) × (length m ≤ 161)
unfolding header_lines
header_lines_fit t g b hc hl hw hs =
    let m1 = codes "Elevator state: " ++ t in
    let t2 = status_text g.status in
    let b2 = length-status_text g.status in
    let t3 = codes "Current floor: " ++ format_int g.current_floor ++ codes "\n" in
    let b3 =
      length-number_line (codes "Current floor: ") (codes "\n") g.current_floor 2
        (length-format_int g.current_floor hc).1 in
    let t4 = codes "Number of passengers: " ++ format_int g.loads ++ codes "\n" in
    let b4 =
      length-number_line (codes "Number of passengers: ") (codes "\n") g.loads 2
        (length-format_int g.loads hl).1 in
    let t5 = codes "Number of waiting: " ++ format_int g.num_waiting ++ codes "\n" in
    let b5 =
      length-number_line (codes "Number of waiting: ") (codes "\n") g.num_waiting 3
        (length-format_int_three g.num_waiting hw) in
    let t6 = codes "Number passengers serviced: " ++ format_int g.serviced ++ codes "\n\n" in
    let b6 =
      length-number_line (codes "Number passengers serviced: ") (codes "\n\n") g.serviced 11
        (length-format_int_le g.serviced hs) in
    let n1 = length-append {0} (codes "Elevator state: ") t in
    let n2 = length-append {0} m1 t2 in
    let n3 = length-append {0} (m1 ++ t2) t3 in
    let n4 = length-append {0} (m1 ++ t2 ++ t3) t4 in
    let n5 = length-append {0} (m1 ++ t2 ++ t3 ++ t4) t5 in
    let n6 = length-append {0} (m1 ++ t2 ++ t3 ++ t4 ++ t5) t6 in
    (
      m1 ++ t2 ++ t3 ++ t4 ++ t5 ++ t6,
      rw
          (
            strcat_ok (codes "Elevator state: ") t (omega arith),
            add_line_ok m1 t2 (omega arith) (omega arith),
            add_line_ok (m1 ++ t2) t3 (omega arith) (omega arith),
            add_line_ok (m1 ++ t2 ++ t3) t4 (omega arith) (omega arith),
            add_line_ok (m1 ++ t2 ++ t3 ++ t4) t5 (omega arith) (omega arith),
          )
          (add_line_ok (m1 ++ t2 ++ t3 ++ t4 ++ t5) t6 (omega arith) (omega arith)),
      omega arith,
    )

-- So have the floors after it.
pub compose_fits :
    (g : Globals)
    → Inv g
    → g.state ≤ 4
    → g.serviced < 2 ^ 32
    → All (λ ps. length ps ≤ 40) g.waiting_list
    → total g.waiting_list ≤ 336
    → (m : Bytes) × (compose g ≡ some m)
unfolding compose header
compose_fits g v st sv short few =
    let (t, e, b) = length-state_text g.state st in
    let (m, k, l) =
      header_lines_fit t g b (omega (arith, v.track.current_le)) (omega (arith, v.cabin.loads_le))
        (omega (arith, v.queued.waiting)) sv in
    let (out, f) =
      floor_lines_fit g v.queued short floors m (omega arith)
        (omega (arith, up_to-total floors g.waiting_list)) in
    (out, rw (e, k) f)
