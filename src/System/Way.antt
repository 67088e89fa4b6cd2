-- ===== src/System/Way.antt =====
-- The way of the scheduler to a floor: how many pieces of its loop are left until it serves it.
use kernal_elevator.Base.{
  ℕ, zero, suc, ◌+◌, ◌-◌, ◌*◌, ◌≤◌, ◌<◌, ◌≡◌, ◌≢◌, refl, ap, Bool, true, false, some, arith,
}
use kernal_elevator.Elevator.State.{Globals, floors, with_mutex, free_list, set_state, ssleep}
use kernal_elevator.Elevator.Boarding.{
  unload_passengers, unload_body, disinfect, load_passengers, load_body, after_loading,
}
use kernal_elevator.Elevator.Motion.{change_elevator_state}
use kernal_elevator.Elevator.Scheduler.{
  Answers, has_work, must_move, load_if_room, pause, set_off, Pc, top, unloading, boarding, pausing,
  deciding, moving, exited,
}
use kernal_elevator.Elevator.Keeps.{holdings}
use kernal_elevator.Elevator.Invariant.Defs.{Inv}
use kernal_elevator.Elevator.Invariant.Motion.{Position, position, sweep, sweep-IsOnTrack}
use kernal_elevator.Elevator.Service.Sweep.{moves, sweep-Visits}

abbrev pub IsAt : ℕ → Globals → Type 0
IsAt floor g = g.current_floor ≡ floor

module _ (g h : Globals) (n : ℕ) where
  pub unload-position :
      (locked : Bool) → unload_passengers locked g ≡ some (n, h) → position h ≡ position g
  unfolding unload_passengers with_mutex unload_body disinfect free_list
  unload-position locked e = ground arith

  pub load-position :
      (locked : Bool) → load_if_room locked g ≡ some (n, h) → position h ≡ position g
  unfolding load_if_room load_passengers with_mutex load_body after_loading
  load-position locked e = ground arith

pub pause-position : (g : Globals) (m n : ℕ) → position (pause m n g) ≡ position g
unfolding pause set_state ssleep
pause-position g m n = ground arith

pub set_off-position : (g : Globals) → position (set_off g) ≡ position g
unfolding set_off change_elevator_state set_state ssleep
set_off-position g = ground arith

-- The pieces until `unloadPassengers` at the floor, which is `k` moves away.
abbrev pub ahead : Pc → ℕ → ℕ
ahead top k = 6 * k + 2
ahead unloading k = 6 * k + 1
ahead (boarding _) k = 6 * k
ahead (pausing _ _) k = 6 * k - 1
ahead deciding k = 6 * k - 2
ahead moving k = 6 * k - 3
ahead exited k = 0

-- After its `unloadPassengers` the thread has to come round.
abbrev pub IsAhead : Pc → ℕ → Type 0
IsAhead top k = Unit
IsAhead unloading k = Unit
IsAhead exited k = ⊥
IsAhead _ k = 0 < k

pub some_way :
    (floor : ℕ) (g : Globals) (k : ℕ)
    → (moves k (position g)).current ≡ floor
    → g.current_floor ≢ floor
    → 0 < k
unfolding moves
some_way floor g zero e ne = absurd (ne e)
some_way floor g (suc k) e ne = omega arith

pub moves-pred : (k : ℕ) (p : Position) → 0 < k → moves k p ≡ moves (k - 1) (sweep p)
unfolding moves
moves-pred zero p h = absurd (omega arith)
moves-pred (suc k) p h = let e : k ≡ suc k - 1 = omega arith in ap (λ n. moves n (sweep p)) e

-- A fact `P` that the pieces keep on the way to a floor. `Done` holds once `unloadPassengers` has run
-- there, and `Clear` when `loadPassengers` is about to run elsewhere. `Ok` is asked of the answers.
pub record IsPursuit (floor : ℕ) (Ok : Answers → Globals → Type 0) (P Clear : Globals → Type 0)
    (Done : Pc → Globals → Type 0) : Type 0 where
  pub awake : (a : Answers) (g : Globals) → Ok a g → a.should_stop ≡ false
  pub same : (g h : Globals) → holdings h ≡ holdings g → P g → P h
  pub works : (a : Answers) (g : Globals) → Inv g → Ok a g → P g → has_work g ≡ true
  pub must : (a : Answers) (g : Globals) → Inv g → Ok a g → P g → must_move g ≡ true
  pub passes :
      (locked : Bool) (g h : Globals) (n : ℕ)
      → Inv g
      → P g
      → g.current_floor ≢ floor
      → unload_passengers locked g ≡ some (n, h)
      → P h × Clear h
  pub serves :
      (a : Answers) (g h : Globals) (n : ℕ)
      → Inv g
      → Ok a g
      → P g
      → IsAt floor g
      → unload_passengers a.unload_locked g ≡ some (n, h)
      → Done (boarding n) h
  pub boards :
      (locked : Bool) (g h : Globals) (n : ℕ)
      → Inv g
      → P g
      → Clear g
      → load_if_room locked g ≡ some (n, h)
      → P h

module _ (floor : ℕ) (Ok : Answers → Globals → Type 0) (P Clear : Globals → Type 0)
    (Done : Pc → Globals → Type 0) where
  abbrev pub IsClear : Pc → Globals → Type 0
  IsClear (boarding _) g = Clear g
  IsClear _ g = Unit

  -- After `used` pieces: not there yet, and in time.
  pub record Underway (used : ℕ) (pc : Pc) (g : Globals) : Type 0 where
    pub k : ℕ
    pub path : (moves k (position g)).current ≡ floor
    pub round : IsAhead pc k
    pub in_time : ahead pc k + used ≤ 108
    pub fact : P g
    pub clear : IsClear pc g

  pub Underway-soon : (used : ℕ) (pc : Pc) (g : Globals) → Underway used pc g → used < 108
  Underway-soon used top g u = omega (arith, u.in_time)
  Underway-soon used unloading g u = omega (arith, u.in_time)
  Underway-soon used (boarding _) g u = omega (arith, u.in_time, u.round)
  Underway-soon used (pausing _ _) g u = omega (arith, u.in_time, u.round)
  Underway-soon used deciding g u = omega (arith, u.in_time, u.round)
  Underway-soon used moving g u = omega (arith, u.in_time, u.round)
  Underway-soon used exited g u = absurd u.round

-- The way to a floor from where the car is, and the way that begins with a move.
sooner :
    (floor : ℕ) (g : Globals)
    → Inv g
    → 1 ≤ floor
    → floor ≤ floors
    → (k : ℕ) × (k ≤ 17) × ((moves k (position g)).current ≡ floor)
sooner floor g v low high = sweep-Visits (position g) floor v.track low high

later :
    (floor : ℕ) (g : Globals)
    → Inv g
    → 1 ≤ floor
    → floor ≤ floors
    → (k : ℕ) × (k ≤ 18) × (0 < k) × ((moves k (position g)).current ≡ floor)
unfolding moves
later floor g v low high =
    let p = position g in
    let (k, b, e) = sweep-Visits (sweep p) floor (sweep-IsOnTrack p v.track) low high in
    (suc k, omega arith, omega arith, e)

module _ (floor : ℕ) (Ok : Answers → Globals → Type 0) (P Clear : Globals → Type 0)
    (Done : Pc → Globals → Type 0) (low : 1 ≤ floor) (high : floor ≤ floors) where
  abbrev pub Way : Pc → Globals → Type 0
  Way pc g = Underway floor Ok P Clear Done 0 pc g

  set_out_later :
      (pc : Pc) (g : Globals)
      → Inv g
      → ((k : ℕ) → 0 < k → IsAhead pc k)
      → ((k : ℕ) → ahead pc k ≤ 6 * k)
      → P g
      → IsClear floor Ok P Clear Done pc g
      → Way pc g
  set_out_later pc g v r l p c =
      let (k, b, z, e) = later floor g v low high in
      record { k = k; path = e; round = r k z; in_time = omega (arith, l k); fact = p; clear = c }

  -- Wherever the thread is in its loop, it serves the floor in time.
  pub set_out :
      (pc : Pc) (g : Globals)
      → Inv g
      → pc ≢ exited
      → P g
      → IsClear floor Ok P Clear Done pc g
      → Way pc g
  set_out top g v awake p c =
      let (k, b, e) = sooner floor g v low high in
      record { k = k; path = e; round = tt; in_time = omega arith; fact = p; clear = c }
  set_out unloading g v awake p c =
      let (k, b, e) = sooner floor g v low high in
      record { k = k; path = e; round = tt; in_time = omega arith; fact = p; clear = c }
  set_out (boarding m) g v awake p c =
      set_out_later (boarding m) g v (λ k h. h) (λ k. omega arith) p c
  set_out (pausing m n) g v awake p c =
      set_out_later (pausing m n) g v (λ k h. h) (λ k. omega arith) p c
  set_out deciding g v awake p c = set_out_later deciding g v (λ k h. h) (λ k. omega arith) p c
  set_out moving g v awake p c = set_out_later moving g v (λ k h. h) (λ k. omega arith) p c
  set_out exited g v awake p c = absurd (awake refl)
