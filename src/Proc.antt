-- ===== src/Proc.antt =====
-- part3/elevator.c: `elevator_proc_open`, `elevator_proc_read`, `elevator_proc_release`, and the two
-- functions that print lists to the kernel log.
pub mod Room
pub mod Fits
pub mod Unlocked
pub mod Overflow
pub mod Lengths
pub mod Crowd
pub mod Session
pub mod Marks
pub mod Reference
pub mod Exact
pub mod Log
use kernal_elevator.Base.{
  ℕ, zero, suc, ◌-◌, ◌+◌, Bool, true, false, Option, none, some, List, [], ◌∷◌, ◌++◌, Bytes, codes,
  ◌>>=◌, length, get_elem?, ltb, ◌==◌, if◌then◌else◌, format_int,
}
use kernal_elevator.Elevator.State.{Passenger, Globals, floors, offline, idle, loading, up, down}

abbrev pub entry_size : ℕ
entry_size = 1024

-- the bytes of `temp`
abbrev pub temp_size : ℕ
temp_size = 100

-- A text written into a buffer of `size` bytes, with its terminating NUL; past the end is a fault.
unfoldable pub fit : ℕ → Bytes → Option Bytes
fit size text = if ltb (length text) size then some text else none

-- A state outside of the five leaves `temp` uninitialised, and `strcat` reads it.
unfoldable pub state_text : ℕ → Option Bytes
state_text state =
    if state == offline
    then some (codes "OFFLINE\n")
    else if state == idle
    then some (codes "IDELE \n")
    else if state == loading
    then some (codes "LOADING \n")
    else if state == up
    then some (codes "UP\n")
    else if state == down
    then some (codes "DOWN\n")
    else none

unfoldable pub status_text : ℕ → Bytes
status_text status =
    if status == 0
    then codes "ELevator status: Uninfected\n"
    else codes "ELevator status: Infected\n"

unfoldable pub mark : Passenger → Bytes
mark p = if p.type == 0 then codes " |" else codes " X"

-- `list_for_each`: a mark for each passenger, appended to `temp`.
unfoldable pub add_marks : List Passenger → Bytes → Option Bytes
add_marks [] temp = some temp
add_marks (p ∷ ps) temp = do temp' ← fit temp_size (temp ++ mark p); add_marks ps temp'

unfoldable pub floor_start : ℕ → ℕ → ℕ → Bytes
floor_start current i count =
    (b'[' ∷ (if current == i then b'*' else b' ') ∷ [])
    ++ (if i == floors then codes "] Floor " else codes "] Floor  ")
    ++ format_int i
    ++ codes ":  "
    ++ format_int count
    ++ codes " "

-- The line of floor `i`, as it stands in `temp`.
unfoldable pub floor_line : Globals → ℕ → Option Bytes
floor_line g i = do
  count ← get_elem? g.waiting_on_floor (i - 1)
  queue ← get_elem? g.waiting_list (i - 1)
  start ← fit temp_size (floor_start g.current_floor i count)
  marked ← add_marks queue start
  fit temp_size (marked ++ codes "\n")

-- `strcat(message, temp)`
unfoldable pub strcat : Bytes → Bytes → Option Bytes
strcat message temp = fit entry_size (message ++ temp)

-- The loop from floor `i` down to 1.
unfoldable pub floor_lines : Globals → ℕ → Bytes → Option Bytes
floor_lines g zero message = some message
floor_lines g (suc i) message = do
  line ← floor_line g (suc i)
  message' ← strcat message line
  floor_lines g i message'

-- `sprintf(temp, text); strcat(message, temp);`
unfoldable pub add_line : Bytes → Bytes → Option Bytes
unfolding strcat
add_line message text = do temp ← fit temp_size text; strcat message temp

-- The lines before those of the floors, the first with the text of the state.
unfoldable pub header_lines : Bytes → Globals → Option Bytes
header_lines state g = do
  m1 ← strcat (codes "Elevator state: ") state
  m2 ← add_line m1 (status_text g.status)
  m3 ← add_line m2 (codes "Current floor: " ++ format_int g.current_floor ++ codes "\n")
  m4 ← add_line m3 (codes "Number of passengers: " ++ format_int g.loads ++ codes "\n")
  m5 ← add_line m4 (codes "Number of waiting: " ++ format_int g.num_waiting ++ codes "\n")
  add_line m5 (codes "Number passengers serviced: " ++ format_int g.serviced ++ codes "\n\n")

unfoldable pub header : Globals → Option Bytes
header g = do state ← state_text g.state; header_lines state g

unfoldable pub compose : Globals → Option Bytes
compose g = do m ← header g; floor_lines g floors m

-- The variable `message`: NULL, a block that holds a text, or a block that was freed.
pub data Message : Type 0 where
  null : Message
  text : Bytes → Message
  freed : Message

-- `message` and `read_p`; `temps` counts the blocks for `temp` that kmalloc has handed out and kfree
-- has not taken back.
pub record Proc : Type 0 where
  pub message : Message
  pub read_p : ℕ
  pub temps : ℕ

pub data Opened : Type 0 where
  opened : Opened
  enomem : Opened

-- The arguments tell whether kmalloc has memory for `temp` and for `message`. Without `temp`, `sprintf`
-- writes to NULL; without `message`, the function returns before the kfree of `temp`.
unfoldable pub proc_open : Bool → Bool → Globals → Proc → Option (Opened × Proc)
proc_open temp_ok message_ok g s =
    if message_ok
    then (if temp_ok
        then (compose g >>= λ m. some (opened, record s { message = text m; read_p = 1 }))
        else none)
    else some (
      enomem,
      record { message = null; read_p = 1; temps = if temp_ok then s.temps + 1 else s.temps },
    )

-- The result, the bytes that are copied to the user's buffer, and the new state. Neither the size of
-- that buffer nor the offset is read.
unfoldable pub read_text : Bytes → Proc → ℕ × Bytes × Proc
read_text m s =
    if s.read_p == 0
    then (0, [], record s { read_p = 1 })
    else (length m, m, record s { read_p = 0 })

-- `strlen` of NULL, or of a block that was freed, is a fault.
unfoldable pub proc_read : Proc → Option (ℕ × Bytes × Proc)
unfolding read_text
proc_read s = elim s.message [ null ↦ none | text m ↦ some (read_text m s) | freed ↦ none ]

-- `kfree(NULL)` does nothing; a second kfree of a block is a fault. The pointer is kept.
unfoldable pub proc_release : Proc → Option Proc
proc_release s = elim s.message [
  | null ↦ some s
  | text m ↦ some (record s { message = freed })
  | freed ↦ none
]
