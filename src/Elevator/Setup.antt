-- ===== src/Elevator/Setup.antt =====
-- part3/elevator.c: `setup_elevator`, `elevator_init`, `removeAllPassengers`, `elevator_exit`.
use kernal_elevator.Base.{
  ℕ, Bool, true, false, Option, some, List, [], ◌∷◌, ◌>>=◌, replicate, if◌then◌else◌, incr,
}
use kernal_elevator.Elevator.State.{
  Passenger, Globals, offline, floors, with_mutex, move_all, free_list,
}

-- The variables when the module is loaded: static storage starts at zero, and no list is set up.
abbrev pub zeroed : Globals
zeroed = record {
  elevator = record {
    state = 0;
    current_floor = 0;
    next_floor = 0;
    loads = 0;
    deactiving = 0;
    started = 0;
    status = 0;
    onboard = [];
  };
  waiting_list = replicate floors [];
  waiting_on_floor = replicate floors 0;
  serviced = 0;
  num_waiting = 0;
  mutex = false;
  live = 0;
  clock = 0;
}

-- `status` and `num_waiting` are left as they are.
unfoldable pub setup_elevator : Globals → Globals
setup_elevator g = record g {
  elevator = record g.elevator {
    state = offline;
    current_floor = 1;
    next_floor = 2;
    loads = 0;
    deactiving = 0;
    started = 0;
    onboard = [];
  };
  serviced = 0;
  waiting_list = replicate floors [];
  waiting_on_floor = replicate floors 0;
}

-- The loop over the floors of `removeAllPassengers`.
unfoldable pub move_floors : List (List Passenger) → List Passenger → List Passenger
unfolding move_all
move_floors [] to = to
move_floors (q ∷ qs) to = move_floors qs (move_all q to)

-- The array of the lists once the loop has emptied each.
unfoldable pub emptied_lists : List (List Passenger) → List (List Passenger)
emptied_lists [] = []
emptied_lists (q ∷ qs) = [] ∷ emptied_lists qs

-- Every list is emptied; the counters stay as they are.
unfoldable pub remove_body : Globals → Option (List Passenger × Globals)
remove_body g = some (
  move_floors g.waiting_list (move_all g.onboard []),
  record g {
    elevator = record g.elevator { onboard = [] };
    waiting_list = emptied_lists g.waiting_list;
  },
)

unfoldable pub remove_all_passengers : Bool → Globals → Option (Unit {0} × Globals)
remove_all_passengers locked g = do
  (delete_list, h) ← with_mutex locked [] remove_body g
  some (tt, free_list delete_list h)

-- What the module registers with the kernel: the three stubs of part3/syscall/part3.c, all set or all
-- NULL, the proc entry and the thread, with the `id` and `cnt` of `thread1`. `next_id` is the static
-- variable of `thread_init_parameter`.
pub record Registration : Type 0 where
  pub stubs : Bool
  pub proc_entry : Bool
  pub thread : Bool
  pub id : ℕ
  pub cnt : ℕ
  pub next_id : ℕ

-- A new id, a new mutex, and a new thread, if `kthread_run` succeeds.
unfoldable pub thread_init_parameter : Bool → Globals → Registration → Globals × Registration
thread_init_parameter spawned g r = (
  record g { mutex = false },
  record r { id = r.next_id; cnt = 0; next_id = incr r.next_id; thread = spawned },
)

-- `elevator_init`: whether it returns 0. The arguments tell whether `proc_create` and `kthread_run`
-- succeed; a failure takes the proc entry back, and leaves the stubs set.
unfoldable pub elevator_init : Bool → Bool → Globals → Registration → Bool × Globals × Registration
unfolding setup_elevator thread_init_parameter
elevator_init created spawned g r =
    let h = setup_elevator g in
    let r1 = record r { stubs = true } in
    if created
    then (let (h', r2) = thread_init_parameter spawned h (record r1 { proc_entry = true }) in
        if spawned then (true, h', r2) else (false, h', record r2 { proc_entry = false }))
    else (false, h, record r1 { proc_entry = false })

-- `elevator_exit`. `locked` is the answer of the lock in `removeAllPassengers`; destroying the mutex
-- changes no variable of the module.
unfoldable pub elevator_exit : Bool → Globals → Registration → Option (Globals × Registration)
elevator_exit locked g r = do
  (_, h) ← remove_all_passengers locked g
  some (h, record r { stubs = false; thread = false; proc_entry = false })
