-- ===== src/System/Locks.antt =====
-- part3/elevator.c: the mutex `thread1.mutex` at a finer grain than in System/Defs. A section
-- `if (mutex_lock_interruptible(&thread1.mutex) == 0) { body } mutex_unlock(&thread1.mutex);` is
-- taken piece by piece, between which other threads run. What a thread does outside its section is
-- not part of this model.
pub mod Bodies
pub mod Sections
use kernal_elevator.Base.{◌≡◌, Bool, true, false, Option, some, List, [], ◌∷◌, ◌++◌}
use kernal_elevator.Elevator.State.{Globals, with_mutex}
use kernal_elevator.System.Locks.Bodies.{Body, ended, piece, IsQuiet}
use kernal_elevator.System.Locks.Sections.{Section, Result, body_of, atomic_body, skipped}

-- Before the lock, in the body with what is left of it, and before the unlock.
pub data Place : Type 0 where
  outside : Section → Place
  inside : (c : Section) → Body (Result c) → Place
  leaving : Place

pub record Locks : Type 0 where
  pub globals : Globals
  pub threads : List Place

unfoldable pub locked : Globals → Globals
locked g = record g { mutex = true }

unfoldable pub unlocked : Globals → Globals
unlocked g = record g { mutex = false }

-- `mutex_lock_interruptible` returns 0 with the mutex, which it waits for, or does not return 0
-- because of a signal. `mutex_unlock` opens the mutex, whoever holds it.
pub data Move (s : Locks) : Locks → Type 0 where
  arrive : (c : Section) → Move s (record s { threads = outside c ∷ s.threads })
  lock :
      (before after : List Place) (c : Section)
      → s.threads ≡ before ++ outside c ∷ after
      → s.globals.mutex ≡ false
      → Move s
          (record { globals = locked s.globals; threads = before ++ inside c (body_of c) ∷ after })
  interrupt :
      (before after : List Place) (c : Section)
      → s.threads ≡ before ++ outside c ∷ after
      → Move s (record s { threads = before ++ leaving ∷ after })
  work :
      (before after : List Place) (c : Section) (f : Globals → Option Globals) (q : IsQuiet f)
      (k : Globals → Body (Result c)) {h : Globals}
      → s.threads ≡ before ++ inside c (piece f q k) ∷ after
      → f s.globals ≡ some h
      → Move s (record { globals = h; threads = before ++ inside c (k h) ∷ after })
  finish :
      (before after : List Place) (c : Section) (a : Result c)
      → s.threads ≡ before ++ inside c (ended a) ∷ after
      → Move s (record s { threads = before ++ leaving ∷ after })
  unlock :
      (before after : List Place)
      → s.threads ≡ before ++ leaving ∷ after
      → Move s (record { globals = unlocked s.globals; threads = before ++ after })

pub data Moves (s : Locks) : Locks → Type 0 where
  still : Moves s s
  on : {t u : Locks} → Moves s t → Move t u → Moves s u

abbrev pub IsGranted : {s t : Locks} → Move s t → Type 0
IsGranted (interrupt _ _ _ _) = ⊥
IsGranted _ = Unit

-- No call of `mutex_lock_interruptible` is interrupted.
abbrev pub IsCalm : {s t : Locks} → Moves s t → Type 0
IsCalm still = Unit
IsCalm (on ms m) = IsCalm ms × IsGranted m

-- The threads that are past the lock and not past the unlock.
unfoldable pub within : List Place → List Place
within [] = []
within (outside c ∷ ps) = within ps
within (inside c b ∷ ps) = inside c b ∷ within ps
within (leaving ∷ ps) = leaving ∷ within ps

-- Whole sections, one after the other, each by `with_mutex`.
pub data Serial (g : Globals) : Globals → Type 0 where
  idle : Serial g g
  section :
      (c : Section) {a : Result c} {h k : Globals}
      → Serial g h
      → with_mutex true (skipped c) (atomic_body c) h ≡ some (a, k)
      → Serial g k
