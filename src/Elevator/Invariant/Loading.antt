-- ===== src/Elevator/Invariant/Loading.antt =====
-- part3/elevator.c: `loadPassengers` against the invariant.
use kernal_elevator.Base.{
  ℕ, suc, ◌+◌, ◌-◌, ◌%◌, ◌^◌, ◌≡◌, refl, sym, ap, ◌∙◌, Bool, true, false, some, List, [], ◌++◌,
  arith, All, All-append, All-left, All-right, length, length-append, length-Merge, length-set,
  get_elem?, get_elem?_of_lt, modify, modify-eq-set, set, decr, decr_small, Merge,
}
use kernal_elevator.Elevator.State.{Passenger, Globals, with_mutex, with_mutex-some}
use kernal_elevator.Elevator.Queues.{
  WaitsAt, All-IsRider, total, counts, Residents-get, Residents-set, renumber, total-set,
  counts-set, counts-get, length-le-total,
}
use kernal_elevator.Elevator.Boarding.{load_loop, load_body, load_passengers}
use kernal_elevator.Elevator.Boarding.Spec.{boarders, stayers, infect_all, repeat, flag}
use kernal_elevator.Elevator.Boarding.Load.{loaded_as, load_each_lem}
use kernal_elevator.Elevator.Boarding.Rules.{
  boarders-stayers-Merge, boarders_fit, infect_all_zero, infect_all-le, infect_all_nil, repeat-decr,
}
use kernal_elevator.Elevator.Invariant.Defs.{Inv, Inv-outside}

module _ (g : Globals) (i : ℕ) (queue : List Passenger) where
  abbrev pub boarding : List Passenger
  boarding = boarders g.loads g.status queue

  abbrev pub staying : List Passenger
  staying = stayers g.loads g.status queue

  -- The state that the loop leaves, in plain arithmetic.
  abbrev pub loaded_under_lock : Globals
  loaded_under_lock =
      let queues = set g.waiting_list i staying in
      record g {
        elevator = record g.elevator {
          onboard = g.onboard ++ boarding;
          status = infect_all g.status boarding;
          loads = g.loads + length boarding;
        };
        waiting_list = queues;
        waiting_on_floor = counts queues;
        num_waiting = total queues % 2 ^ 32;
      }

  module _ (v : Inv g) (at : g.current_floor ≡ suc i)
      (q : get_elem? g.waiting_list i ≡ some queue) where
    waiting_here : All (WaitsAt g.current_floor) queue
    waiting_here = Residents-get g.waiting_list 1 i v.queued.residents q (omega arith)

    parts : Merge boarding staying queue
    parts = boarders-stayers-Merge g.loads g.status queue

    load_loop_lem :
        load_loop queue g
        ≡ loaded_as g.current_floor queue (record {
          stay = [];
          onboard = g.onboard;
          status = g.status;
          loads = g.loads;
          waiting_on_floor = g.waiting_on_floor;
          num_waiting = g.num_waiting;
          loaded = 0;
        })
    unfolding load_loop
    load_loop_lem = load_each_lem g.current_floor queue _ waiting_here v.cabin.loads_le

    index : decr g.current_floor ≡ i
    index = omega (arith, decr_small g.current_floor)

    on_floor :
        modify g.waiting_on_floor i (repeat decr (length boarding))
        ≡ counts (set g.waiting_list i staying)
    on_floor =
        ap (λ ns. modify ns i (repeat decr (length boarding))) v.queued.counted
        ∙ modify-eq-set (counts g.waiting_list) i _ (counts-get g.waiting_list i q)
        ∙ ap (set (counts g.waiting_list) i) (
            repeat-decr (length boarding) (length queue) (omega (arith, length-Merge {0} parts))
            ∙ ap (λ n. n % 2 ^ 32) (omega (arith, length-Merge {0} parts)))
        ∙ sym (counts-set g.waiting_list i staying)

    num :
        repeat decr (length boarding) g.num_waiting ≡ total (set g.waiting_list i staying) % 2 ^ 32
    num =
        ap (repeat decr (length boarding)) v.queued.waiting
        ∙ repeat-decr (length boarding) (total g.waiting_list)
            (omega (arith, length-Merge {0} parts, length-le-total g.waiting_list i q))
        ∙ ap (λ n. n % 2 ^ 32)
            (omega (arith, length-Merge {0} parts, total-set g.waiting_list i staying q))

    load_body_lem : load_body g ≡ some (flag boarding 0, loaded_under_lock)
    unfolding load_body loaded_as
    load_body_lem = rw (index, q, load_loop_lem, index, on_floor, num) refl

    pub loaded-Inv : Inv loaded_under_lock
    loaded-Inv = record {
      track = v.track;
      cabin = record {
        loads_le = boarders_fit g.loads g.status queue v.cabin.loads_le;
        aboard = omega (arith, length-append {0} g.onboard boarding);
        status_le = infect_all-le g.status boarding v.cabin.status_le;
        clean = λ e.
            let (z, hs) = infect_all_zero g.status boarding e in
            All-append _ g.onboard boarding (v.cabin.clean z) hs;
        riders =
            All-append _ g.onboard boarding v.cabin.riders
              (All-left _ parts (All-IsRider g.current_floor queue waiting_here));
      };
      empty_clean =
          λ e. infect_all_nil g.status boarding (omega arith) ∙ v.empty_clean (omega arith);
      queued = record {
        size = length-set g.waiting_list i staying ∙ v.queued.size;
        counted = refl;
        waiting = refl;
        residents = Residents-set g.waiting_list 1 i staying v.queued.residents (
            renumber staying g.current_floor (1 + i) (All-right _ parts waiting_here)
              (omega arith));
      };
      blocks = omega (
        arith,
        total-set g.waiting_list i staying q,
        length-append {0} g.onboard boarding,
        length-Merge {0} parts,
      );
    }

-- The queue of the floor at which the car stands.
pub queue_here :
    (g : Globals)
    → Inv g
    → (i : ℕ) × (queue : List Passenger) × (g.current_floor ≡ suc i)
      × (get_elem? g.waiting_list i ≡ some queue)
queue_here g v =
    let (queue, q) = get_elem?_of_lt g.waiting_list (g.current_floor - 1) (omega arith) in
    (g.current_floor - 1, queue, omega arith, q)

abbrev pub loaded_at : Globals → ℕ → List Passenger → Globals
loaded_at g i queue = record (loaded_under_lock g i queue) { mutex = false }

pub loaded_at-Inv :
    (g : Globals) (i : ℕ) (queue : List Passenger)
    → Inv g
    → g.current_floor ≡ suc i
    → get_elem? g.waiting_list i ≡ some queue
    → Inv (loaded_at g i queue)
loaded_at-Inv g i queue v at q = Inv-outside (loaded-Inv g i queue v at q)

-- With the lock, `loadPassengers` does not fault, and tells whether anybody boarded.
pub load_passengers_lem :
    (g : Globals) (i : ℕ) (queue : List Passenger)
    → Inv g
    → g.current_floor ≡ suc i
    → get_elem? g.waiting_list i ≡ some queue
    → load_passengers true g ≡ some (flag (boarding g i queue) 0, loaded_at g i queue)
unfolding load_passengers
load_passengers_lem g i queue v at q =
    with_mutex-some 0 load_body g
      (load_body_lem (record g { mutex = true }) i queue (Inv-outside v) at q)

-- `loadPassengers` never faults, and keeps the invariant, with the lock and without it.
pub load_passengers-Inv :
    (locked : Bool) (g : Globals)
    → Inv g
    → (n : ℕ) × (h : Globals) × (load_passengers locked g ≡ some (n, h)) × Inv h
unfolding load_passengers with_mutex
load_passengers-Inv true g v =
    let (i, queue, at, q) = queue_here g v in
    (_, _, load_passengers_lem g i queue v at q, loaded_at-Inv g i queue v at q)
load_passengers-Inv false g v = (_, _, refl, Inv-outside v)
