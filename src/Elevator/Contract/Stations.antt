-- ===== src/Elevator/Contract/Stations.antt =====
-- part3/elevator.c: `elevator_init` and `elevator_exit`.
use kernal_elevator.Base.{
  ◌+◌, ◌≡◌, refl, ap, ◌∙◌, Bool, true, false, ◌&&◌, some, List, [], ◌∷◌, arith, length,
  length-append,
}
use kernal_elevator.Elevator.State.{Passenger, Globals, with_mutex, move_all, free_list, free_all}
use kernal_elevator.Elevator.Queues.{total}
use kernal_elevator.Elevator.Setup.{
  move_floors, emptied_lists, remove_body, remove_all_passengers, Registration, elevator_init,
  elevator_exit,
}
use kernal_elevator.Elevator.Boarding.Unload.{move_all_lem, free_all_lem}
use kernal_elevator.Elevator.Invariant.Defs.{Inv}

length-move_floors :
    (qs : List (List Passenger)) (to : List Passenger)
    → length (move_floors qs to) ≡ length to + total qs
unfolding move_floors
length-move_floors [] to = omega arith
length-move_floors (q ∷ qs) to =
    length-move_floors qs (move_all q to)
    ∙ omega (arith, ap length (move_all_lem q to), length-append {0} to q)

-- The variables once `elevator_exit` has freed the passengers: the counters are as before.
abbrev pub cleared : Globals → Globals
cleared g = free_list (move_floors g.waiting_list (move_all g.onboard [])) (record g {
  elevator = record g.elevator { onboard = [] };
  waiting_list = emptied_lists g.waiting_list;
  mutex = false;
})

pub elevator_exit_lem :
    (g : Globals) (r : Registration)
    → elevator_exit true g r
      ≡ some (cleared g, record r { stubs = false; proc_entry = false; thread = false })
unfolding elevator_exit remove_all_passengers with_mutex remove_body free_list
elevator_exit_lem g r = refl

pub cleared-live : (g : Globals) → Inv g → (cleared g).live ≡ 0
unfolding free_list
cleared-live g v = omega (
  arith,
  free_all_lem (move_floors g.waiting_list (move_all g.onboard [])) g.live,
  length-move_floors g.waiting_list (move_all g.onboard []),
  ap length (move_all_lem g.onboard []),
)

-- From a state with the invariant, if the lock is granted, unloading the module returns with no
-- passenger block live, and with the stubs, the proc entry and the thread taken back.
pub exit_frees_all :
    (g : Globals) (r : Registration)
    → Inv g
    → (h : Globals) × (elevator_exit true g r
        ≡ some (h, record r { stubs = false; proc_entry = false; thread = false }))
      × (h.live ≡ 0)
exit_frees_all g r v = (cleared g, elevator_exit_lem g r, cleared-live g v)

-- If the lock is interrupted, unloading the module takes the stubs, the proc entry and the
-- thread back and frees no passenger block.
pub exit_interrupted_leaks :
    (g : Globals) (r : Registration)
    → (h : Globals) × (elevator_exit false g r
        ≡ some (h, record r { stubs = false; proc_entry = false; thread = false }))
      × (h.live ≡ g.live)
unfolding elevator_exit remove_all_passengers with_mutex free_list free_all
exit_interrupted_leaks g r = (_, refl, refl)

-- `elevator_init` succeeds exactly if the proc entry is created and the thread is spawned.
-- Whether or not it does, the three stubs are set afterwards; the proc entry is there exactly if
-- it succeeds.
pub init_sets_stubs :
    (created spawned : Bool) (g : Globals) (r : Registration)
    → let (loaded, _, r') = elevator_init created spawned g r in
      (loaded ≡ (created && spawned)) × (r'.stubs ≡ true) × (r'.proc_entry ≡ loaded)
unfolding elevator_init
init_sets_stubs created spawned g r = ground arith
