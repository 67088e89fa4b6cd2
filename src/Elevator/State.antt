-- ===== src/Elevator/State.antt =====
-- The constants, structs and file-scope variables of part3/elevator.c, and what the module does to
-- its mutex, to the passenger blocks of the allocator and to its clock. An `int` is its bit pattern.
use kernal_elevator.Base.{
  ℕ, ◌+◌, ◌-◌, ◌≡◌, Bool, true, false, Option, none, some, List, [], ◌∷◌, ◌++◌,
}

abbrev pub capacity : ℕ
capacity = 10

abbrev pub move_time : ℕ
move_time = 2

abbrev pub load_time : ℕ
load_time = 1

abbrev pub default_sleep_time : ℕ
default_sleep_time = 1

abbrev pub floors : ℕ
floors = 10

-- the values of `state`
abbrev pub offline : ℕ
offline = 0

abbrev pub idle : ℕ
idle = 1

abbrev pub loading : ℕ
loading = 2

abbrev pub up : ℕ
up = 3

abbrev pub down : ℕ
down = 4

-- `struct passenger_data`; its `list` member is the place in the list that holds it. Type 0 is a
-- human, 1 a zombie.
pub record Passenger : Type 0 where
  pub type : ℕ
  pub start_floor : ℕ
  pub destination_floor : ℕ

-- `struct elevator_status`
pub record Elevator : Type 0 where
  pub state : ℕ
  pub current_floor : ℕ
  pub next_floor : ℕ
  pub loads : ℕ
  pub deactiving : ℕ
  pub started : ℕ
  pub status : ℕ
  pub onboard : List Passenger

-- The file-scope variables. `mutex` tells whether `thread1.mutex` is locked, `live` counts the
-- passengers that kmalloc has handed out and kfree has not taken back, `clock` the seconds that the
-- scheduler has slept.
pub record Globals : Type 0 where
  pub elevator : Elevator
  pub open elevator use *
  pub waiting_list : List (List Passenger)
  pub waiting_on_floor : List ℕ
  pub serviced : ℕ
  pub num_waiting : ℕ
  pub mutex : Bool
  pub live : ℕ
  pub clock : ℕ

unfoldable pub set_state : ℕ → Globals → Globals
set_state s g = record g { elevator = record g.elevator { state = s } }

unfoldable pub ssleep : ℕ → Globals → Globals
ssleep n g = record g { clock = g.clock + n }

-- A section `if (mutex_lock_interruptible(&thread1.mutex) == 0) { body } mutex_unlock(…);`. The
-- first argument tells whether the call returned 0; if a signal interrupts it the body is skipped,
-- with the value `a` for what it computes, and the unlock is still made.
unfoldable pub with_mutex {ℓ} :
    {A : Type ℓ} → Bool → A → (Globals → Option (A × Globals)) → Globals → Option (A × Globals)
with_mutex true a body g = elim (body (record g { mutex = true })) [
  | none ↦ none
  | some (b, h) ↦ some (b, record h { mutex = false })
]
with_mutex false a body g = some (a, record g { mutex = false })

pub with_mutex-some {ℓ} :
    {A : Type ℓ} (a : A) {b : A} (body : Globals → Option (A × Globals)) (g : Globals) {h : Globals}
    → body (record g { mutex = true }) ≡ some (b, h)
    → with_mutex true a body g ≡ some (b, record h { mutex = false })
unfolding with_mutex
with_mutex-some a body g e = rw (e, with_mutex)

-- `list_for_each_safe (temp, dummy, from) list_move_tail(temp, to);`
unfoldable pub move_all : List Passenger → List Passenger → List Passenger
move_all [] to = to
move_all (p ∷ ps) to = move_all ps (to ++ p ∷ [])

-- `list_for_each_safe (temp, dummy, &delete_list) { list_del(temp); kfree(p); }`
unfoldable pub free_all : List Passenger → ℕ → ℕ
free_all [] live = live
free_all (p ∷ ps) live = free_all ps (live - 1)

unfoldable pub free_list : List Passenger → Globals → Globals
unfolding free_all
free_list ps g = record g { live = free_all ps g.live }
