-- ===== src/Proc/Unlocked.antt =====
-- part3/elevator.c: `elevator_proc_open` takes no lock, so each of its looks at the variables can see
-- another state.
use kernal_elevator.Base.{
  ℕ, zero, suc, ◌+◌, ◌-◌, ◌*◌, ◌%◌, ◌^◌, ◌≤◌, ◌<◌, ◌≡◌, ◌≢◌, refl, ap, ◌∙◌, subst, Bool, Option,
  none, some, List, [], ◌∷◌, ◌++◌, Bytes, codes, All, length, length-append, get_elem?,
  get_elem?_of_lt, ◌==◌, if◌then◌else◌, ◌>>=◌, arith,
}
use kernal_elevator.Elevator.State.{Passenger, Globals, floors, offline, idle, loading, up, down}
use kernal_elevator.Elevator.Queues.{total, counts-get}
use kernal_elevator.Elevator.Invariant.Defs.{Inv}
use kernal_elevator.Proc.{
  entry_size, floor_line, strcat, floor_lines, header, header_lines, compose, state_text, Proc,
  Opened, opened, enomem, text, null, proc_open,
}
use kernal_elevator.Proc.Room.{floor_line_fits}
use kernal_elevator.Proc.Fits.{All-get, strcat_ok, header_lines_fit, length-state_text}

-- `seen k` are the variables at the look number `k`, in the order of the code. Each comparison of the
-- state is a look.
unfoldable pub state_text_while : (ℕ → Globals) → Option Bytes
state_text_while seen =
    if (seen 0).state == offline
    then some (codes "OFFLINE\n")
    else if (seen 1).state == idle
    then some (codes "IDELE \n")
    else if (seen 2).state == loading
    then some (codes "LOADING \n")
    else if (seen 3).state == up
    then some (codes "UP\n")
    else if (seen 4).state == down
    then some (codes "DOWN\n")
    else none

-- What the five numbers of the header are taken from.
abbrev pub header_looks : (ℕ → Globals) → Globals
header_looks seen = record (seen 0) {
  elevator = record (seen 0).elevator {
    status = (seen 5).status;
    current_floor = (seen 6).current_floor;
    loads = (seen 7).loads;
  };
  num_waiting = (seen 8).num_waiting;
  serviced = (seen 9).serviced;
}

unfoldable pub header_while : (ℕ → Globals) → Option Bytes
header_while seen = do state ← state_text_while seen; header_lines state (header_looks seen)

-- The line of a floor: where the car is, the counter, and the list, which is walked in one look.
abbrev pub line_looks : Globals → Globals → Globals → Globals
line_looks g h k = record k {
  elevator = record k.elevator { current_floor = g.current_floor };
  waiting_on_floor = h.waiting_on_floor;
}

-- The loop over the floors, from the look number `k`.
unfoldable pub floor_lines_while : (ℕ → Globals) → ℕ → ℕ → Bytes → Option Bytes
floor_lines_while seen k zero message = some message
floor_lines_while seen k (suc i) message = do
  line ← floor_line (line_looks (seen k) (seen (k + 1)) (seen (k + 2))) (suc i)
  message' ← strcat message line
  floor_lines_while seen (k + 3) i message'

unfoldable pub compose_while : (ℕ → Globals) → Option Bytes
compose_while seen = do m ← header_while seen; floor_lines_while seen 10 floors m

-- `proc_open`, with these looks.
unfoldable pub proc_open_while : Bool → Bool → (ℕ → Globals) → Proc → Option (Opened × Proc)
proc_open_while temp_ok message_ok seen s =
    if message_ok
    then (if temp_ok
        then (compose_while seen >>= λ m. some (opened, record s { message = text m; read_p = 1 }))
        else none)
    else some (
      enomem,
      record { message = null; read_p = 1; temps = if temp_ok then s.temps + 1 else s.temps },
    )

module _ (g : Globals) where
  floor_lines_still : (k i : ℕ) (m : Bytes) → floor_lines_while (λ _. g) k i m ≡ floor_lines g i m
  unfolding floor_lines_while floor_lines
  floor_lines_still k zero m = refl
  floor_lines_still k (suc i) m =
      ap
        (λ (f : Bytes → Option Bytes).
          floor_line g (suc i) >>= λ line. strcat m line >>= λ m'. f m')
        (λ i'. λ m'. floor_lines_still (k + 3) i m' i')

  compose_still : compose_while (λ _. g) ≡ compose g
  unfolding compose_while compose header_while header state_text_while state_text
  compose_still =
      ap (λ (f : Bytes → Option Bytes). header g >>= f) (λ i m. floor_lines_still 10 floors m i)

-- While nothing moves, the looks see one state.
pub proc_open_still :
    (temp_ok message_ok : Bool) (g : Globals) (s : Proc)
    → proc_open_while temp_ok message_ok (λ _. g) s ≡ proc_open temp_ok message_ok g s
unfolding proc_open_while proc_open
proc_open_still temp_ok message_ok g s = rw (compose_still g) refl

-- No comparison has to hold, if the state changes between them.
pub state_text_while-none :
    (seen : ℕ → Globals)
    → (seen 0).state ≢ offline
    → (seen 1).state ≢ idle
    → (seen 2).state ≢ loading
    → (seen 3).state ≢ up
    → (seen 4).state ≢ down
    → state_text_while seen ≡ none
unfolding state_text_while
state_text_while-none seen a b c d e = ground arith

pub compose_while-none :
    (seen : ℕ → Globals) → state_text_while seen ≡ none → compose_while seen ≡ none
unfolding compose_while header_while
compose_while-none seen e = rw (e) refl

-- What a look may see: the invariant, a state and a counter that can be printed, and no more than 33
-- passengers on each floor.
pub record IsSight (g : Globals) : Type 0 where
  pub inv : Inv g
  pub state_le : g.state ≤ 4
  pub serviced_lt : g.serviced < 2 ^ 32
  pub short : All (λ ps. length ps ≤ 33) g.waiting_list

short-total :
    (qs : List (List Passenger)) → All (λ ps. length ps ≤ 33) qs → total qs ≤ 33 * length qs
short-total [] h = omega arith
short-total (q ∷ qs) h = omega (arith, h.0, short-total qs h.1)

-- The state does not change while it is compared.
abbrev pub IsSteady : (ℕ → Globals) → Type 0
IsSteady seen = (k : ℕ) → k ≤ 4 → (seen k).state ≡ (seen 0).state

state_text-steady :
    (seen : ℕ → Globals) → IsSteady seen → state_text_while seen ≡ state_text (seen 0).state
unfolding state_text_while state_text
state_text-steady seen st =
    rw (st 1 (omega arith), st 2 (omega arith), st 3 (omega arith), st 4 (omega arith)) refl

module _ (seen : ℕ → Globals) (sights : (k : ℕ) → IsSight (seen k)) where
  line_at :
      (k i : ℕ)
      → i < floors
      → (line : Bytes) × (floor_line (line_looks (seen k) (seen (k + 1)) (seen (k + 2))) (suc i)
          ≡ some line)
        × (length line ≤ 85)
  line_at k i h =
      let b = sights (k + 1) in
      let c = sights (k + 2) in
      let (counted, e) =
        get_elem?_of_lt (seen (k + 1)).waiting_list i (omega (arith, b.inv.queued.size)) in
      let (queue, q) =
        get_elem?_of_lt (seen (k + 2)).waiting_list i (omega (arith, c.inv.queued.size)) in
      let less = All-get (λ ps. length ps ≤ 33) _ i b.short e in
      let few = All-get (λ ps. length ps ≤ 33) _ i c.short q in
      let j : i ≡ suc i - 1 = omega arith in
      let (line, l, m) =
        floor_line_fits (line_looks (seen k) (seen (k + 1)) (seen (k + 2))) (suc i)
          (length counted % 2 ^ 32) queue (omega arith) (omega arith)
          (subst (λ n. get_elem? (seen (k + 1)).waiting_on_floor n ≡ some (length counted % 2 ^ 32))
            j (ap (λ ns. get_elem? ns i) b.inv.queued.counted ∙ counts-get _ i e))
          (subst (λ n. get_elem? (seen (k + 2)).waiting_list n ≡ some queue) j q) (omega arith)
          (omega arith) in
      (line, l, omega arith)

  lines_fit :
      (k i : ℕ) (m : Bytes)
      → i ≤ floors
      → length m + 85 * i < entry_size
      → (out : Bytes) × (floor_lines_while seen k i m ≡ some out)
  unfolding floor_lines_while
  lines_fit k zero m l h = (m, refl)
  lines_fit k (suc i) m l h =
      let (line, r, b) = line_at k i l in
      let (out, f) =
        lines_fit (k + 3) i (m ++ line) (omega arith) (omega (arith, length-append {0} m line)) in
      (out, rw (r, strcat_ok m line (omega arith)) f)

  pub compose_while_fits : IsSteady seen → (m : Bytes) × (compose_while seen ≡ some m)
  unfolding compose_while header_while
  compose_while_fits st =
      let s8 = sights 8 in
      let (t, e, b) = length-state_text (seen 0).state (sights 0).state_le in
      let (m, k, l) =
        header_lines_fit t (header_looks seen) b (omega (arith, (sights 6).inv.track.current_le))
          (omega (arith, (sights 7).inv.cabin.loads_le))
          (omega (arith, s8.inv.queued.waiting, s8.inv.queued.size, short-total _ s8.short))
          (sights 9).serviced_lt in
      let (out, f) = lines_fit 10 floors m (omega arith) (omega arith) in
      (out, rw (state_text-steady seen st ∙ e, k) f)
