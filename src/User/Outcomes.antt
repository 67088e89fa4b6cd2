-- ===== src/User/Outcomes.antt =====
-- part3/consumer.c: `main` with the stubs set, whatever its arguments.
use kernal_elevator.Base.{
  ℕ, ◌-◌, ◌≡◌, ◌≢◌, refl, sym, Bool, subst, Option, some, List, [], ◌∷◌, Bytes, codes, int_mod,
  true, Bool-cases, inl, inr,
}
use kernal_elevator.Elevator.State.{Globals}
use kernal_elevator.Elevator.Calls.{start_elevator, stop_elevator}
use kernal_elevator.Elevator.Contract.Outcomes as Calls
use kernal_elevator.Syscall.{Answer}
use kernal_elevator.Syscall.Entry.{all_stubs}
use kernal_elevator.User.{same_text}
use kernal_elevator.User.Requests.{same_text_iff}
use kernal_elevator.User.Programs.{Exit, complaint, consumer_main}
use kernal_elevator.User.Sessions.{answered, consumer_calls, consumer_ignores}

-- What the consumer ends with, by its arguments.
pub data Consumed (a : Answer) (args : List Bytes) (g : Globals) : Option Exit → Type 0 where
  starts :
      args ≡ codes "--start" ∷ []
      → Consumed a args g (
          some
            (answered (codes "Start elevator returned ") (start_elevator g).0 (start_elevator g).1))
  stops :
      {n : ℕ} {h : Globals}
      → args ≡ codes "--stop" ∷ []
      → stop_elevator a.locked g ≡ some (n, h)
      → Consumed a args g (some (answered (codes "Stop elevator returned ") n h))
  ignores :
      args ≢ codes "--start" ∷ []
      → args ≢ codes "--stop" ∷ []
      → Consumed a args g
          (some (record { status = int_mod - 1; output = complaint args; globals = g }))

returned :
    (locked : Bool) (g : Globals) (o : Option (ℕ × Globals))
    → Calls.Stopped locked g o
    → (n : ℕ) × (h : Globals) × (o ≡ some (n, h))
returned locked g _ (Calls.turned_away _) = (_, _, refl)
returned locked g _ (Calls.kept_aboard _ _ _) = (_, _, refl)
returned locked g _ (Calls.emptied _ _ _) = (_, _, refl)

module _ (a : Answer) (g : Globals) where
  ignored :
      (args : List Bytes)
      → args ≢ codes "--start" ∷ []
      → args ≢ codes "--stop" ∷ []
      → Consumed a args g (consumer_main (all_stubs true) a args g)
  ignored args n m =
      subst (Consumed a args g) (sym (consumer_ignores (all_stubs true) a args g n m)) (ignores n m)

  one_argument :
      (arg : Bytes) → Consumed a (arg ∷ []) g (consumer_main (all_stubs true) a (arg ∷ []) g)
  one_argument arg =
      let (n, h, e) =
        returned a.locked g (stop_elevator a.locked g) (Calls.stop_outcomes a.locked g) in
      let (s, t) = consumer_calls a g e in
      elim (Bool-cases (same_text arg (codes "--start"))) [
        | inl x ↦
            let same = (same_text_iff arg (codes "--start")).0 x in
            subst (λ b. Consumed a (b ∷ []) g (consumer_main (all_stubs true) a (b ∷ []) g))
              (sym same) (subst (Consumed a (codes "--start" ∷ []) g) (sym s) (starts refl))
        | inr x ↦ elim (Bool-cases (same_text arg (codes "--stop"))) [
          | inl y ↦
              let same = (same_text_iff arg (codes "--stop")).0 y in
              subst (λ b. Consumed a (b ∷ []) g (consumer_main (all_stubs true) a (b ∷ []) g))
                (sym same) (subst (Consumed a (codes "--stop" ∷ []) g) (sym t) (stops refl e))
          | inr y ↦
              ignored (arg ∷ [])
                (λ z. absurd (cc (x, (same_text_iff arg (codes "--start")).1 (first arg z))))
                (λ z. absurd (cc (y, (same_text_iff arg (codes "--stop")).1 (first arg z))))
        ]
      ]
    where
      first : (arg : Bytes) {c : Bytes} → arg ∷ [] ≡ c ∷ [] → arg ≡ c
      first arg z = cc

-- While the stubs are set, the consumer always ends, and its arguments decide how. With
-- `--start` alone it ends with status 0, prints what `start_elevator` answers and leaves the
-- state that it leaves; with `--stop` alone it does so for `stop_elevator`, which returns; with
-- any other arguments it ends with status -1 and leaves the module as it was.
pub consumer_outcomes :
    (a : Answer) (args : List Bytes) (g : Globals)
    → Consumed a args g (consumer_main (all_stubs true) a args g)
consumer_outcomes a [] g = ignored a g [] (λ z. cc) (λ z. cc)
consumer_outcomes a (arg ∷ []) g = one_argument a g arg
consumer_outcomes a (arg ∷ b ∷ args) g = ignored a g (arg ∷ b ∷ args) (λ z. cc) (λ z. cc)
