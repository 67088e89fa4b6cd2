-- ===== src/System/Exclusion.antt =====
-- part3/elevator.c: the mutex at a finer grain, and whole sections.
use kernal_elevator.Base.{
  ◌≡◌, ◌≤◌, refl, sym, subst, ◌∙◌, true, false, append-nil, Option, some, List, [], ◌∷◌, ◌++◌,
  length, arith,
}
use mathlib.Core.Bool.{false≢true}
use kernal_elevator.Elevator.State.{Globals, with_mutex-some}
use kernal_elevator.System.Locks.Bodies.{Body, ended, piece, run_body, IsQuiet}
use kernal_elevator.System.Locks.Sections.{
  Section, Result, body_of, atomic_body, skipped, body_of_lem,
}
use kernal_elevator.System.Locks.{
  Place, outside, inside, leaving, Locks, locked, unlocked, Move, arrive, lock, interrupt, work,
  finish, unlock, Moves, still, on, IsGranted, IsCalm, within, Serial, idle, section,
}

within-append : (ps qs : List Place) → within (ps ++ qs) ≡ within ps ++ within qs
unfolding within
within-append [] qs = refl
within-append (outside c ∷ ps) qs = within-append ps qs
within-append (inside c b ∷ ps) qs = rw (within-append ps qs) refl
within-append (leaving ∷ ps) qs = rw (within-append ps qs) refl

-- Who is within, and what is done of its section.
data Phase (g h : Globals) : List Place → Type 0 where
  free : h.mutex ≡ false → Serial g h → Phase g h []
  busy :
      {j : Globals} (c : Section) (b : Body (Result c))
      → h.mutex ≡ true
      → Serial g j
      → atomic_body c (locked j) ≡ run_body b h
      → Phase g h (inside c b ∷ [])
  done :
      {j : Globals} (c : Section) (a : Result c)
      → h.mutex ≡ true
      → Serial g j
      → atomic_body c (locked j) ≡ some (a, h)
      → Phase g h (leaving ∷ [])

Phase-length : {g h : Globals} {ts : List Place} → Phase g h ts → length ts ≤ 1
Phase-length (free _ _) = omega arith
Phase-length (busy _ _ _ _ _) = omega arith
Phase-length (done _ _ _ _ _) = omega arith

empty_parts : (xs ys : List Place) → xs ++ ys ≡ [] → (xs ≡ []) × (ys ≡ [])
empty_parts [] ys e = (refl, e)
empty_parts (x ∷ xs) ys e = absurd (cc)

none_within :
    {g h : Globals} {ts : List Place} → Phase g h ts → h.mutex ≡ false → (ts ≡ []) × Serial g h
none_within (free _ w) e = (refl, w)
none_within (busy _ _ m _ _) e = absurd (false≢true (sym e ∙ m))
none_within (done _ _ m _ _) e = absurd (false≢true (sym e ∙ m))

-- A thread within is the only one, so that what becomes of it becomes of all.
Phase-swap :
    {g h k : Globals} (before after : List Place) (x : Place) (ts : List Place)
    → Phase g h (before ++ x ∷ after)
    → (Phase g h (x ∷ []) → Phase g k ts)
    → Phase g k (before ++ (ts ++ after))
Phase-swap {k} [] [] x ts v f = subst (Phase _ k) (sym (append-nil ts)) (f v)
Phase-swap [] (y ∷ after) x ts v f = absurd (omega (arith, Phase-length v))
Phase-swap (y ∷ []) after x ts v f = absurd (omega (arith, Phase-length v))
Phase-swap (y ∷ z ∷ before) after x ts v f = absurd (omega (arith, Phase-length v))

module _ {g : Globals} where
  lock-Phase :
      (before after : List Place) (c : Section) (h : Globals)
      → h.mutex ≡ false
      → Phase g h (within (before ++ outside c ∷ after))
      → Phase g (locked h) (within (before ++ inside c (body_of c) ∷ after))
  unfolding within locked
  lock-Phase before after c h e v =
      let (n, w) = none_within v e in
      let (p, q) =
        empty_parts (within before) (within after)
          (sym (within-append before (outside c ∷ after)) ∙ n) in
      rw (within-append before (inside c (body_of c) ∷ after), p, q)
        (busy c (body_of c) refl w (sym (body_of_lem c (locked h))))

  work-Phase :
      (c : Section) (f : Globals → Option Globals) (q : IsQuiet f) (k : Globals → Body (Result c))
      (h j : Globals)
      → f h ≡ some j
      → Phase g h (inside c (piece f q k) ∷ [])
      → Phase g j (inside c (k j) ∷ [])
  unfolding run_body
  work-Phase c f q k h j e (busy _ _ m w r) = busy c (k j) (q h j e ∙ m) w (r ∙ rw e refl)

  finish-Phase :
      (c : Section) (a : Result c) (h : Globals)
      → Phase g h (inside c (ended a) ∷ [])
      → Phase g h (leaving ∷ [])
  unfolding run_body
  finish-Phase c a h (busy _ _ m w r) = done c a m w r

  unlock-Phase : (h : Globals) → Phase g h (leaving ∷ []) → Phase g (unlocked h) []
  unfolding unlocked locked
  unlock-Phase h (done {j = j} c a m w r) =
      free refl (section c w (with_mutex-some (skipped c) (atomic_body c) j {h = h} r))

  -- What becomes of the one thread within, in the list of all threads.
  step-Phase :
      {h k : Globals} (before after : List Place) (x : Place) (ys : List Place)
      → within (x ∷ []) ≡ x ∷ []
      → (Phase g h (x ∷ []) → Phase g k (within ys))
      → Phase g h (within (before ++ ((x ∷ []) ++ after)))
      → Phase g k (within (before ++ (ys ++ after)))
  step-Phase {h} before after x ys e f v =
      rw (within-append before (ys ++ after), within-append ys after)
        (Phase-swap (within before) (within after) x (within ys)
          (rw (within-append before ((x ∷ []) ++ after), within-append (x ∷ []) after, e) at v) f)

  Move-Phase :
      {s t : Locks} (m : Move s t)
      → IsGranted m
      → Phase g s.globals (within s.threads)
      → Phase g t.globals (within t.threads)
  unfolding within
  Move-Phase (arrive b) _ v = v
  Move-Phase {s} (lock before after c e z) _ v =
      lock-Phase before after c s.globals z (subst (λ o. Phase g s.globals (within o)) e v)
  Move-Phase (interrupt _ _ _ _) n v = absurd n
  Move-Phase {s} (work before after c f q k {h} e z) _ v =
      step-Phase before after (inside c (piece f q k)) (inside c (k h) ∷ []) refl
        (work-Phase c f q k s.globals h z) (subst (λ o. Phase g s.globals (within o)) e v)
  Move-Phase {s} (finish before after c a e) _ v =
      step-Phase before after (inside c (ended a)) (leaving ∷ []) refl (finish-Phase c a s.globals)
        (subst (λ o. Phase g s.globals (within o)) e v)
  Move-Phase {s} (unlock before after e) _ v =
      step-Phase before after leaving [] refl (unlock-Phase s.globals)
        (subst (λ o. Phase g s.globals (within o)) e v)

  Moves-Phase :
      {s t : Locks} (ms : Moves s t)
      → IsCalm ms
      → Phase g s.globals (within s.threads)
      → Phase g t.globals (within t.threads)
  Moves-Phase still _ v = v
  Moves-Phase (on ms m) (c, n) v = Move-Phase m n (Moves-Phase ms c v)

Phase-free : {g h : Globals} {ts : List Place} → Phase g h ts → ts ≡ [] → Serial g h
Phase-free (free _ w) e = w
Phase-free (busy _ _ _ _ _) e = absurd (cc)
Phase-free (done _ _ _ _ _) e = absurd (cc)

-- If the threads take the sections of the five functions that take the mutex statement by
-- statement, from a state in which nobody is within a section and the mutex is open, and no
-- signal interrupts a thread at the lock, at most one thread is past the lock and not past the
-- unlock.
pub calm_exclusion :
    {s t : Locks} (ms : Moves s t)
    → IsCalm ms
    → within s.threads ≡ []
    → s.globals.mutex ≡ false
    → length (within t.threads) ≤ 1
calm_exclusion {s} ms c e z =
    Phase-length (Moves-Phase ms c (subst (Phase s.globals s.globals) (sym e) (free z idle)))

-- If the threads take the sections of `issue_request`, `stop_elevator`, `unloadPassengers`,
-- `loadPassengers` and `removeAllPassengers` statement by statement, from a state in which
-- nobody is within a section and the mutex is open to another in which nobody is within one, and
-- no signal interrupts a thread at the lock, the variables change as by whole sections, one
-- after the other, each by `with_mutex` from the body that the model takes in one step.
pub calm-Serial :
    {s t : Locks} (ms : Moves s t)
    → IsCalm ms
    → within s.threads ≡ []
    → s.globals.mutex ≡ false
    → within t.threads ≡ []
    → Serial s.globals t.globals
calm-Serial {s} ms c e z n =
    Phase-free (Moves-Phase ms c (subst (Phase s.globals s.globals) (sym e) (free z idle))) n

-- From every state in which one thread is in the body of its section and two are at the lock,
-- moves that interrupt the first of these lead to a state in which two threads are in their
-- bodies at once.
pub interrupt_breaks :
    (g : Globals) (c d e : Section) (b : Body (Result c)) (ps : List Place)
    → (t : Locks) × Moves
        (record { globals = g; threads = inside c b ∷ outside d ∷ outside e ∷ ps })
        t
      × (t.threads ≡ inside c b ∷ inside e (body_of e) ∷ ps)
unfolding unlocked
interrupt_breaks g c d e b ps = (
  record { globals = locked (unlocked g); threads = inside c b ∷ inside e (body_of e) ∷ ps },
  on
      (on (on still (interrupt (inside c b ∷ []) (outside e ∷ ps) d refl))
        (unlock (inside c b ∷ []) (outside e ∷ ps) refl))
      (lock (inside c b ∷ []) ps e refl refl),
  refl,
)
