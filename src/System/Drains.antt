-- ===== src/System/Drains.antt =====
-- part3/elevator.c: the building while no request and no stop gets the mutex, until it is empty.
use mathlib.Core.List.{Memᴰ}
use native.Mathlib.Decide.{dec_lt}
use kernal_elevator.Base.{
  ℕ, zero, suc, ◌+◌, ◌*◌, ◌^◌, ◌≤◌, ◌<◌, ◌≡◌, ◌≢◌, refl, sym, ap, subst, ◌∙◌, ◌⊎◌, inl, inr, some,
  List, [], ◌∷◌, ◌++◌, arith, length, length-append, get_elem?,
}
use kernal_elevator.Elevator.State.{Passenger}
use kernal_elevator.Elevator.Queues.{total}
use kernal_elevator.Elevator.Scheduler.{
  Pc, top, unloading, boarding, pausing, deciding, moving, exited,
}
use kernal_elevator.System.Defs.{System, Reach, Run}
use kernal_elevator.System.Reach.{Reach-Inv}
use kernal_elevator.System.Liveness.{IsUndisturbed, ticks, Sometime, Sometime-start, Always}
use kernal_elevator.System.Rides.{HasLeft, gets_off}
use kernal_elevator.System.Visits.{IsVisited, visits}
use kernal_elevator.System.Cuts.{
  chain, ticks-chain, Within, Within-cut, Within-after, Sometime-chain,
}
use kernal_elevator.System.Afoot.{carries_on, goes_on, Afoot, Afoot-Ebb, Afoot-before, Afoot-after}
use kernal_elevator.System.Boards.{Somebody, Inviting, boards_soon}

-- Somebody has gone since.
abbrev Fewer : System → System → Type 0
Fewer s u = u.globals.live < s.globals.live

-- Whoever is aboard, somebody leaves within 108 pieces.
leaves-Within :
    {s t : System} (run : Run s t)
    → Afoot run
    → Somebody s
    → 108 ≤ ticks run
    → Within (Fewer s) 108 run
leaves-Within {s} run w (p, m) enough =
    let f =
      Within-cut (λ u. HasLeft p u.globals) 108 run enough
        λ u a b e n.
          let v = Afoot-before a b (subst Afoot (sym e) w) in
          gets_off a p v.reach v.awake m (carries_on a v.undisturbed) (omega (arith, n)) in
    let d = Afoot-Ebb f.before f.after (subst Afoot (sym f.whole) w) in
    record {
      at = f.at;
      before = f.before;
      after = f.after;
      whole = f.whole;
      soon = f.soon;
      holds = elim d.remain [ inl l ↦ l | inr kept ↦ absurd (f.holds (kept p m)) ];
    }

Within-map :
    {P Q : System → Type 0} (m n : ℕ) {s t : System} (run : Run s t)
    → m ≤ n
    → Within P m run
    → ((u : System) (a : Run s u) (b : Run u t) → chain a b ≡ run → P u → Q u)
    → Within Q n run
Within-map m n run h w f = record {
  at = w.at;
  before = w.before;
  after = w.after;
  whole = w.whole;
  soon = omega (arith, w.soon);
  holds = f w.at w.before w.after w.whole w.holds;
}

ticks_after :
    {P : System → Type 0} (n : ℕ) {s t : System} (run : Run s t) (w : Within P n run)
    → ticks run ≤ n + ticks w.after
ticks_after n run w = omega (arith, w.soon, ticks-chain w.before w.after, ap (λ r. ticks r) w.whole)

aboard_or_none : (ps : List Passenger) → ((p : Passenger) × Memᴰ p ps) ⊎ (ps ≡ [])
aboard_or_none [] = inr refl
aboard_or_none (p ∷ ps) = inl (p, Memᴰ.head refl)

some_queue :
    (qs : List (List Passenger))
    → 0 < total qs
    → (i : ℕ) × (q : List Passenger) × (get_elem? qs i ≡ some q) × (0 < length q)
some_queue [] h = absurd (omega arith)
some_queue ((p ∷ ps) ∷ qs) h = (0, p ∷ ps, refl, omega arith)
some_queue ([] ∷ qs) h = let (i, q, e, l) = some_queue qs (omega arith) in (suc i, q, e, l)

visited-Inviting :
    (i : ℕ) (queue : List Passenger) (u : System) (pc : Pc)
    → u.pc ≡ pc
    → IsVisited i queue pc u.globals
    → 0 < length queue
    → u.globals.loads ≡ 0
    → Inviting u
visited-Inviting i queue u top e v l z = absurd v
visited-Inviting i queue u unloading e v l z = absurd v
visited-Inviting i queue u (pausing _ _) e v l z = absurd v
visited-Inviting i queue u deciding e v l z = absurd v
visited-Inviting i queue u moving e v l z = absurd v
visited-Inviting i queue u exited e v l z = absurd v
visited-Inviting i queue u (boarding m) e (at, w) l z = record {
  slept = m;
  index = i;
  queue = queue ++ w.behind;
  place = e;
  empty = z;
  here = at;
  waits = w.here;
  someone = omega (arith, length-append {0} queue w.behind);
}

-- With an empty car about to load where somebody waits, it takes a piece more.
fills-Within :
    {s t : System} (run : Run s t)
    → Afoot run
    → Inviting s
    → 109 ≤ ticks run
    → Within (Fewer s) 109 run
fills-Within {s} run w i enough =
    let f = Within-cut Somebody 1 run (omega arith) λ u a b e n.
      let v = Afoot-before a b (subst Afoot (sym e) w) in
      elim (boards_soon a v.reach v.undisturbed i) [
        | inl (_, z) ↦ absurd (omega (arith, z, n))
        | inr p ↦ p
      ] in
    let v = Afoot-after f.before f.after (subst Afoot (sym f.whole) w) in
    let d = Afoot-Ebb f.before f.after (subst Afoot (sym f.whole) w) in
    let l = leaves-Within f.after v f.holds (omega (arith, ticks_after 1 run f)) in
    Within-after (Fewer s) 1 108 run f
      (Within-map 108 108 f.after (omega arith) l (λ x a b e h. omega (arith, h, d.fewer)))

serves_visited :
    {s t : System} (run : Run s t) (i : ℕ) (queue : List Passenger)
    → Afoot run
    → IsVisited i queue s.pc s.globals
    → 0 < length queue
    → 109 ≤ ticks run
    → Within (Fewer s) 109 run
serves_visited {s} run i queue w at l enough = elim (aboard_or_none s.globals.onboard) [
  | inl somebody ↦
      Within-map 108 109 run (omega arith) (leaves-Within run w somebody (omega arith))
        (λ x a b e h. h)
  | inr none_aboard ↦
      fills-Within run w
        (visited-Inviting i queue s s.pc refl at l (w.even ∙ ap (λ ps. length ps) none_aboard))
        enough
]

-- As long as there is somebody, one is gone within 217 pieces.
one_gone :
    {s t : System} (run : Run s t)
    → Afoot run
    → 0 < s.globals.live
    → 217 ≤ ticks run
    → Within (Fewer s) 217 run
one_gone {s} run w live enough = elim (aboard_or_none s.globals.onboard) [
  | inl somebody ↦
      Within-map 108 217 run (omega arith) (leaves-Within run w somebody (omega arith))
        (λ x a b e h. h)
  | inr none_aboard ↦
      let blocks = (Reach-Inv w.reach).blocks in
      let (i, queue, q, l) =
        some_queue s.globals.waiting_list
          (omega (arith, blocks, ap (λ ps. length ps) none_aboard)) in
      let f =
        Within-cut (λ u. IsVisited i queue u.pc u.globals) 108 run (omega arith)
          λ u a b e n.
            let v = Afoot-before a b (subst Afoot (sym e) w) in
            visits a i queue v.reach v.awake q l (goes_on a v.reach v.few v.undisturbed)
              (omega (arith, n)) in
      let v = Afoot-after f.before f.after (subst Afoot (sym f.whole) w) in
      let d = Afoot-Ebb f.before f.after (subst Afoot (sym f.whole) w) in
      let x = serves_visited f.after i queue v f.holds l (omega (arith, ticks_after 108 run f)) in
      Within-after (Fewer s) 108 109 run f
        (Within-map 109 109 f.after (omega arith) x (λ y a b e h. omega (arith, h, d.fewer)))
]

empties :
    (n : ℕ) {s t : System} (run : Run s t)
    → Afoot run
    → s.globals.live ≤ n
    → 217 * n ≤ ticks run
    → Sometime (λ u. u.globals.live ≡ 0) run
empties zero run w h enough = Sometime-start (λ u. u.globals.live ≡ 0) run (omega arith)
empties (suc n) {s} run w h enough = elim (dec_lt 0 s.globals.live) [
  | no none_live ↦ Sometime-start (λ u. u.globals.live ≡ 0) run (omega arith)
  | yes live ↦
      let f = one_gone run w live (omega arith) in
      let v = Afoot-after f.before f.after (subst Afoot (sym f.whole) w) in
      subst (Sometime (λ u. u.globals.live ≡ 0)) f.whole (
        Sometime-chain (λ u. u.globals.live ≡ 0) f.before f.after
          (empties n f.after v (omega (arith, f.holds)) (omega (arith, ticks_after 217 run f))))
]

-- In every run of the threads from a reachable state in which the scheduler has not exited,
-- `loads` is the number of passengers aboard and fewer than 2 ^ 32 passengers are live, in which
-- the scheduler is not told to stop and always gets the mutex, and in which no request and no
-- stop gets it, at some time no passenger is live: the car and all queues are empty. It is
-- enough that the scheduler takes 217 pieces of its loop for each passenger who is live at the
-- beginning. Starts, and the first halves of requests and stops, may come between any two of
-- them.
pub drains :
    {s t : System} (run : Run s t)
    → Reach s
    → s.pc ≢ exited
    → s.globals.loads ≡ length s.globals.onboard
    → s.globals.live < 2 ^ 32
    → Always IsUndisturbed run
    → 217 * s.globals.live ≤ ticks run
    → Sometime (λ u. u.globals.live ≡ 0) run
drains {s} run r awake even few o enough =
    empties s.globals.live run
      (record { reach = r; awake = awake; even = even; few = few; undisturbed = o }) (omega arith)
      enough
