-- ===== src/System/Late.antt =====
-- part3/elevator.c: `elevator_exit` while a request that has passed its checks waits for the mutex.
use kernal_elevator.Base.{
  ℕ, suc, ◌+◌, ◌-◌, ◌<◌, ◌≡◌, refl, ap, ◌∙◌, true, false, some, List, [], ◌∷◌, ◌++◌, arith, length,
  get_elem?, get_elem?_of_lt, ◌%◌, ◌^◌, zero,
}
use kernal_elevator.Elevator.State.{Passenger, Globals, floors, free_list}
use kernal_elevator.Elevator.Calls.{request_section}
use kernal_elevator.Elevator.Setup.{emptied_lists, Registration, elevator_exit}
use kernal_elevator.Elevator.Joining.{request_section-joins}
use kernal_elevator.Elevator.Queues.{counts-get}
use kernal_elevator.Elevator.Invariant.Defs.{Inv}
use kernal_elevator.Elevator.Contract.Stations.{cleared, elevator_exit_lem, cleared-live}
use kernal_elevator.System.Defs.{System, Pending, requesting, Reach}
use kernal_elevator.System.Reach.{Reach-Inv, Reach-IsRequest}

count_of :
    (g : Globals) (i : ℕ)
    → Inv g
    → i < floors
    → (count : ℕ) × (get_elem? g.waiting_on_floor i ≡ some count)
count_of g i v h =
    let (queue, q) = get_elem?_of_lt g.waiting_list i (omega (arith, v.queued.size)) in
    (
      length queue % 2 ^ 32,
      ap (λ ns. get_elem? ns i) v.queued.counted ∙ counts-get g.waiting_list i q,
    )

none_waits :
    (qs : List (List Passenger)) (i : ℕ) → i < length qs → get_elem? (emptied_lists qs) i ≡ some []
unfolding emptied_lists
none_waits [] i h = absurd (omega arith)
none_waits (q ∷ qs) zero h = refl
none_waits (q ∷ qs) (suc i) h = none_waits qs i (omega arith)

-- If a request that has passed its checks waits for the mutex in a reachable state in which the
-- elevator is not deactivating, and the module is unloaded with the lock granted, then the
-- section of the request, with the lock and memory, leaves one passenger block live.
pub late_request_leaks :
    {s : System} (before after : List Pending) (p : Passenger) (r : Registration)
    → Reach s
    → s.pending ≡ before ++ requesting p ∷ after
    → s.globals.deactiving ≡ 0
    → (h k : Globals) × (elevator_exit true s.globals r
        ≡ some (h, record r { stubs = false; proc_entry = false; thread = false }))
      × (request_section true true p h ≡ some (tt, k))
      × (k.live ≡ 1)
unfolding free_list
late_request_leaks {s} before after p r reach q d =
    let w = Reach-IsRequest reach before after p q in
    let g = s.globals in
    let h = cleared g in
    let i = p.start_floor - 1 in
    let low : i < floors = omega (arith, w.from_above, w.from_below) in
    let (count, c) = count_of g i (Reach-Inv reach) low in
    let f =
      request_section-joins p h i [] count d (omega (arith, w.from_above)) low
        (none_waits g.waiting_list i (omega (arith, low, (Reach-Inv reach).queued.size))) c in
    (h, _, elevator_exit_lem g r, f, ap (λ n. n + 1) (cleared-live g (Reach-Inv reach)))
