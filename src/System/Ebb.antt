-- ===== src/System/Ebb.antt =====
-- part3/elevator.c: the passengers while no request and no stop gets the mutex.
use mathlib.Core.List.{Memᴰ}
use mathlib.Core.List.Memᴰ
use kernal_elevator.Base.{
  ℕ, ◌+◌, ◌≤◌, ◌<◌, ◌≡◌, refl, sym, ap, subst, ◌⊎◌, inl, inr, Bool, true, false, some, some_unique,
  List, [], ◌∷◌, arith, length, length-append, Merge, done, right, length-Merge,
}
use kernal_elevator.Elevator.State.{Passenger, Globals}
use kernal_elevator.Elevator.Calls.{start_elevator, stop_entry}
use kernal_elevator.Elevator.Boarding.{unload_passengers, load_passengers}
use kernal_elevator.Elevator.Motion.{move_elevator}
use kernal_elevator.Elevator.Scheduler.{rest_idle, pause, go_offline, set_off}
use kernal_elevator.Elevator.Keeps.{
  holdings, rest_idle-holdings, pause-holdings, go_offline-holdings, set_off-holdings,
  move_elevator-holdings, start_elevator-holdings, stop_entry-holdings, unlocked_unload-holdings,
  unlocked_load-holdings,
}
use kernal_elevator.Elevator.Invariant.Defs.{Inv}
use kernal_elevator.Elevator.Invariant.Loading.{queue_here}
use kernal_elevator.Elevator.Contract.Loading.{unload_rules, load_rules}
use kernal_elevator.System.Defs.{
  System, Step, schedule, start, request, stop, requested, stopped, Reach, Run, stay, go,
}
use kernal_elevator.System.Reach.{Reach-Inv, Run-Reach}
use kernal_elevator.System.Pieces.{IsPiecewise, scheduler_step-keeps}
use kernal_elevator.System.Scheduled.{NoMore, NoMore-IsPiecewise}
use kernal_elevator.System.Liveness.{Always, IsUndisturbed}

-- `loads` counts those aboard, so no place is lost.
abbrev pub IsEven : Globals → Type 0
IsEven g = g.loads ≡ length g.onboard

-- No passenger more; if none is gone, those who were aboard still are.
pub record Ebb (g h : Globals) : Type 0 where
  pub fewer : h.live ≤ g.live
  pub even : IsEven g → IsEven h
  pub remain : (h.live < g.live) ⊎ ((p : Passenger) → Memᴰ p g.onboard → Memᴰ p h.onboard)

pub Ebb-still : (g h : Globals) → holdings h ≡ holdings g → NoMore g h → Ebb g h
Ebb-still g h e l = record {
  fewer = l;
  even = λ v. subst (λ x. x.1 ≡ length x.0) (sym e) v;
  remain = inr (λ p m. subst (Memᴰ p) (sym (ap (λ x. x.0) e)) m);
}

pub Merge-nil : {xs ys : List Passenger} → Merge [] xs ys → xs ≡ ys
Merge-nil done = refl
Merge-nil (right {y} m) = ap (λ zs. y ∷ zs) (Merge-nil m)

some_left :
    (g h : Globals) (gone : List Passenger)
    → Merge gone h.onboard g.onboard
    → h.live + length gone ≡ g.live
    → (h.live < g.live) ⊎ ((p : Passenger) → Memᴰ p g.onboard → Memᴰ p h.onboard)
some_left g h [] m l = inr (λ p a. subst (Memᴰ p) (sym (Merge-nil m)) a)
some_left g h (q ∷ qs) m l = inl (omega arith)

unload-Ebb :
    (locked : Bool) (g h : Globals) (n : ℕ)
    → Inv g
    → unload_passengers locked g ≡ some (n, h)
    → Ebb g h
unload-Ebb true g h n v e =
    let (k, j, f, u) = unload_rules g v in
    let n = length-Merge {0} u.parts in
    subst (λ o. Ebb g o.1) (some_unique f e)
      (record {
        fewer = omega (arith, u.freed);
        even = λ ev. omega (arith, ev, u.lighter, n);
        remain = some_left g j u.left u.parts u.freed;
      })
unload-Ebb false g h n v e =
    Ebb-still g h (unlocked_unload-holdings g h n e) (NoMore-IsPiecewise.unloads false g h n v e)

load-Ebb :
    (locked : Bool) (g h : Globals) (n : ℕ)
    → Inv g
    → load_passengers locked g ≡ some (n, h)
    → Ebb g h
load-Ebb true g h n v e =
    let (i, queue, at, q) = queue_here g v in
    let (m, j, f, r, _) = load_rules g i queue v at q in
    let less = NoMore-IsPiecewise.loads true g h n v e in
    subst (λ o. NoMore g o.1 → Ebb g o.1) (some_unique f e)
      (λ l. record {
        fewer = l;
        even = λ ev.
            omega (arith, ev, r.heavier, ap length r.aboard, length-append {0} g.onboard r.boarded);
        remain = inr (λ p a. subst (Memᴰ p) (sym r.aboard) (Memᴰ.append_left r.boarded a));
      })
      less
load-Ebb false g h n v e =
    Ebb-still g h (unlocked_load-holdings g h n e) (NoMore-IsPiecewise.loads false g h n v e)

Ebb-IsPiecewise : IsPiecewise Ebb
Ebb-IsPiecewise = record {
  same = λ g. Ebb-still g g refl (omega arith);
  rests = λ g. Ebb-still g (rest_idle g) (rest_idle-holdings g) (NoMore-IsPiecewise.rests g);
  pauses =
      λ g m n. Ebb-still g (pause m n g) (pause-holdings g m n) (NoMore-IsPiecewise.pauses g m n);
  retires = λ g. Ebb-still g (go_offline g) (go_offline-holdings g) (NoMore-IsPiecewise.retires g);
  sets_off = λ g. Ebb-still g (set_off g) (set_off-holdings g) (NoMore-IsPiecewise.sets_off g);
  moves =
      λ g. Ebb-still g (move_elevator g) (move_elevator-holdings g) (NoMore-IsPiecewise.moves g);
  unloads = unload-Ebb;
  loads = load-Ebb;
}

start-live : (g : Globals) → (start_elevator g).1.live ≤ g.live
unfolding start_elevator
start-live g = ground arith

stop-live : (g h : Globals) → stop_entry g ≡ some h → h.live ≤ g.live
unfolding stop_entry
stop-live g h e = ground arith

pub Step-Ebb :
    {s t : System} (st : Step s t) → Reach s → IsUndisturbed s t st → Ebb s.globals t.globals
Step-Ebb {s} (schedule a {pc} {h} e) r o =
    scheduler_step-keeps Ebb Ebb-IsPiecewise a s.pc pc s.globals h (Reach-Inv r) e
Step-Ebb {s} start r o =
    Ebb-still s.globals (start_elevator s.globals).1 (start_elevator-holdings s.globals)
      (start-live s.globals)
Step-Ebb {s} (request _ _ _ _ _) r o = Ebb-still s.globals s.globals refl (omega arith)
Step-Ebb {s} (stop {h} e) r o =
    Ebb-still s.globals h (stop_entry-holdings s.globals h e) (stop-live s.globals h e)
Step-Ebb (requested _ _ _ _ _ _ _) r o = absurd o
Step-Ebb (stopped _ _ _ _ _) r o = absurd o

Ebb-Ebb : (g h k : Globals) → Ebb g h → Ebb h k → Ebb g k
Ebb-Ebb g h k a b = record {
  fewer = omega (arith, a.fewer, b.fewer);
  even = λ v. b.even (a.even v);
  remain = elim a.remain [
    | inl l ↦ inl (omega (arith, l, b.fewer))
    | inr m ↦ elim b.remain [
      | inl l ↦ inl (omega (arith, l, a.fewer))
      | inr n ↦ inr (λ p x. n p (m p x))
    ]
  ];
}

pub Run-Ebb :
    {s t : System} (run : Run s t) → Reach s → Always IsUndisturbed run → Ebb s.globals t.globals
Run-Ebb {s} stay r o = Ebb-still s.globals s.globals refl (omega arith)
Run-Ebb {s} (go {t} {u} run st) r (o, z) =
    Ebb-Ebb s.globals t.globals u.globals (Run-Ebb run r o) (Step-Ebb st (Run-Reach run r) z)
