-- ===== src/System/Moved.antt =====
-- part3/elevator.c: who is in the building before and after a piece of the scheduler's loop.
use mathlib.Mathlib.Data.Multiset.Defs.{of_list}
use mathlib.Mathlib.Data.Multiset.AddSub.{add, add_comm, zero-add}
use kernal_elevator.Base.{
  ℕ, zero, suc, ◌+◌, ◌%◌, ◌^◌, ◌<◌, ◌≡◌, refl, sym, ap, subst, ◌∙◌, inl, inr, Bool, true, false,
  some, some_unique, List, [], ◌++◌, arith, length, set, incr,
}
use kernal_elevator.Elevator.State.{Passenger, Globals}
use kernal_elevator.Elevator.Boarding.{unload_passengers, load_passengers}
use kernal_elevator.Elevator.Boarding.Spec.{arrivals, repeat}
use kernal_elevator.Elevator.Boarding.Unload.{arrivals-riders-Merge}
use kernal_elevator.Elevator.Boarding.Rules.{boarders-stayers-Merge}
use kernal_elevator.Elevator.Motion.{move_elevator}
use kernal_elevator.Elevator.Scheduler.{
  Answers, rest_idle, load_if_room, pause, go_offline, set_off, Pc, top, unloading, boarding,
  pausing, deciding, moving, exited, scheduler_step,
}
use kernal_elevator.Elevator.Invariant.Defs.{Inv}
use kernal_elevator.Elevator.Invariant.Boarding.{
  unload_passengers-Inv, unloaded_at, unload_passengers_lem,
}
use kernal_elevator.Elevator.Invariant.Loading.{staying, queue_here, load_passengers_lem}
use kernal_elevator.Elevator.Invariant.Loading as Loading
use kernal_elevator.Elevator.Invariant.Scheduler.{load_if_room-Inv}
use kernal_elevator.Elevator.Contract.Loading.{unloaded_at-fields}
use kernal_elevator.Elevator.Keeps.{
  holdings, rest_idle-holdings, pause-holdings, go_offline-holdings, set_off-holdings,
  move_elevator-holdings, unlocked_unload-holdings, unlocked_load-holdings,
}
use kernal_elevator.System.Pieces.{
  top-cases, deciding-cases, load_if_room-cases, unloading_step, boarding_step,
}
use kernal_elevator.System.Shown.{IsShown}
use kernal_elevator.System.Bags.{
  everybody, everybody-less, of_list-Merge, balance-boards, balance-leaves,
}
use kernal_elevator.System.Ledger.{everyone, who_arrives}

repeat-incr : (k n : ℕ) → n < 2 ^ 32 → repeat incr k n ≡ (n + k) % 2 ^ 32
unfolding repeat incr
repeat-incr zero n h = omega arith
repeat-incr (suc k) n h = repeat-incr k (incr n) (omega arith) ∙ omega arith

-- Those in the building and those who come are those who arrive, those who are put out and those who
-- are left; the ones who arrive are counted.
pub record Moved (come arrive out : List Passenger) (g h : Globals) : Type 0 where
  pub balance :
      add (of_list come) (everyone g) ≡ add (of_list arrive) (add (of_list out) (everyone h))
  pub count : h.serviced ≡ (g.serviced + length arrive) % 2 ^ 32

abbrev Quiet : Globals → Globals → Type 0
Quiet = Moved [] [] []

pub still : (g h : Globals) → IsShown g → holdings h ≡ holdings g → Quiet g h
still g h s e = record {
  balance =
      ap (λ x. add (of_list []) (add (of_list x.0) (everybody x.2))) (sym e)
      ∙ ap (add (of_list [])) (sym (zero-add (everyone h)));
  count = omega (arith, ap (λ x. x.3) e, s.serviced_lt);
}

unload-Moved :
    (locked : Bool) (a : Answers) (g h : Globals) (n : ℕ)
    → a.unload_locked ≡ locked
    → Inv g
    → IsShown g
    → unload_passengers locked g ≡ some (n, h)
    → Moved [] (who_arrives a unloading g) [] g h
unload-Moved true a g h n l v s e =
    let (aboard, _, queues, _, counted) = unloaded_at-fields g in
    let left = arrivals g.current_floor g.onboard in
    subst (λ o. Moved [] (who_arrives a unloading g) [] g o.1)
      (some_unique (unload_passengers_lem g v) e)
      (rw l (record {
        balance =
            balance-leaves (of_list g.onboard) (of_list (unloaded_at g).onboard)
              (everybody g.waiting_list) (everybody (unloaded_at g).waiting_list) (of_list left)
              (of_list-Merge (arrivals-riders-Merge g.current_floor g.onboard)
                ∙ ap (λ ps. add (of_list left) (of_list ps)) (sym aboard))
              (ap everybody queues)
            ∙ ap (add (of_list left)) (sym (zero-add (everyone (unloaded_at g))));
        count = counted ∙ repeat-incr (length left) g.serviced s.serviced_lt;
      }))
unload-Moved false a g h n l v s e = rw l (still g h s (unlocked_unload-holdings g h n e))

load-Quiet :
    (locked : Bool) (g h : Globals) (n : ℕ)
    → Inv g
    → IsShown g
    → load_passengers locked g ≡ some (n, h)
    → Quiet g h
load-Quiet true g h n v s e =
    let (i, queue, at, q) = queue_here g v in
    let new = Loading.boarding g i queue in
    subst (λ o. Quiet g o.1) (some_unique (load_passengers_lem g i queue v at q) e)
      (record {
        balance =
            balance-boards (of_list g.onboard) (of_list (g.onboard ++ new))
              (everybody g.waiting_list) (everybody (set g.waiting_list i (staying g i queue)))
              (of_list new)
              (everybody-less g.waiting_list i (staying g i queue) (of_list new) q
                (of_list-Merge (boarders-stayers-Merge g.loads g.status queue)))
              (add_comm (of_list g.onboard) (of_list new))
            ∙ ap (add (of_list [])) (sym (zero-add (everyone (Loading.loaded_at g i queue))));
        count = omega (arith, s.serviced_lt);
      })
load-Quiet false g h n v s e = still g h s (unlocked_load-holdings g h n e)

room-Quiet :
    (locked : Bool) (g h : Globals) (n : ℕ)
    → Inv g
    → IsShown g
    → load_if_room locked g ≡ some (n, h)
    → Quiet g h
room-Quiet locked g h n v s e = elim (load_if_room-cases locked g) [
  | inl t ↦ load-Quiet locked g h n v s (sym t ∙ e)
  | inr f ↦ subst (λ o. Quiet g o.1) (some_unique f e) (still g g s refl)
]

pub piece-Moved :
    (a : Answers) (pc pc' : Pc) (g h : Globals)
    → Inv g
    → IsShown g
    → scheduler_step a pc g ≡ some (pc', h)
    → Moved [] (who_arrives a pc g) [] g h
unfolding scheduler_step
piece-Moved a top pc' g h v s e = elim (top-cases a pc' g h e) [
  | inl f ↦ subst (Quiet g) f (still g g s refl)
  | inr f ↦ subst (Quiet g) f (still g (rest_idle g) s (rest_idle-holdings g))
]
piece-Moved a unloading pc' g h v s e =
    let (n, k, f, _) = unload_passengers-Inv a.unload_locked g v in
    subst (λ o. Moved [] (who_arrives a unloading g) [] g o.1)
      (some_unique (unloading_step a g k n f) e) (unload-Moved a.unload_locked a g k n refl v s f)
piece-Moved a (boarding m) pc' g h v s e =
    let (n, k, f, _) = load_if_room-Inv a.load_locked g v in
    subst (λ o. Quiet g o.1) (some_unique (boarding_step a m g k n f) e)
      (room-Quiet a.load_locked g k n v s f)
piece-Moved a (pausing m n) pc' g h v s e =
    subst (λ o. Quiet g o.1) (some_unique refl e) (still g (pause m n g) s (pause-holdings g m n))
piece-Moved a deciding pc' g h v s e = elim (deciding-cases a pc' g h e) [
  | inl f ↦ subst (Quiet g) f (still g (set_off g) s (set_off-holdings g))
  | inr f ↦ subst (Quiet g) f (still g (go_offline g) s (go_offline-holdings g))
]
piece-Moved a moving pc' g h v s e =
    subst (λ o. Quiet g o.1) (some_unique refl e)
      (still g (move_elevator g) s (move_elevator-holdings g))
piece-Moved a exited pc' g h v s e =
    subst (λ o. Quiet g o.1) (some_unique refl e) (still g g s refl)
