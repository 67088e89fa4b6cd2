-- ===== src/User/Sessions.antt =====
-- part3/producer.c and part3/consumer.c against the module.
use kernal_elevator.Base.{
  ℕ, ◌-◌, ◌<◌, ◌≡◌, refl, ap, ◌∙◌, ◌≢◌, inl, inr, Bool, true, none, some, List, [], ◌∷◌, ◌++◌,
  Bytes, codes, format_int, int_mod, arith, Bool-cases,
}
use kernal_elevator.Elevator.State.{Passenger, Globals}
use kernal_elevator.Elevator.Invariant.Defs.{Inv}
use kernal_elevator.Elevator.Invariant.Calls.{IsRequest}
use kernal_elevator.Elevator.Contract.Requests.{IsInts, Accepted, issue_accepts}
use kernal_elevator.Elevator.Calls.{start_elevator, stop_elevator}
use kernal_elevator.Syscall.{
  Stubs, Answer, wrap_start_elevator, wrap_stop_elevator, do_syscall, sys_start_elevator,
  sys_stop_elevator, libc_return,
}
use kernal_elevator.Syscall.Entry.{all_stubs, loaded_issue}
use kernal_elevator.User.{Request, producer, command, consumer, same_text}
use kernal_elevator.User.Requests.{IsProper, producer_sound, same_text_iff}
use kernal_elevator.User.Programs.{
  Exit, issue_text, complaint, carry_out, producer_main, run_command, consumer_main,
}

abbrev pub granted : Answer
granted = record { locked = true; allocated = true }

abbrev pub passenger : Request → Passenger
passenger r = record { type = r.type; start_floor = r.start; destination_floor = r.dest }

proper-IsRequest : (r : Request) → IsProper r → IsRequest (passenger r)
proper-IsRequest r p = record {
  kind = p.kind;
  from_above = p.from_above;
  from_below = p.from_below;
  above = p.above;
  below = p.below;
}

proper-IsInts : (r : Request) → IsProper r → IsInts (passenger r)
proper-IsInts r p = omega arith

-- While the stubs are set, in a state with the invariant and with the elevator started and not
-- deactivating, if the lock is granted and there is memory, every run of the producer without
-- arguments whose random numbers are enough ends with status 0 and the text of a call that
-- returned 0, and its passenger has joined the queue of his floor.
pub producer_joins_queue :
    (rands : List ℕ) (status : ℕ) (r : Request) (g : Globals)
    → producer 1 rands ≡ some (status, some r)
    → Inv g
    → g.started ≢ 0
    → g.deactiving ≡ 0
    → (h : Globals) × (producer_main (all_stubs true) granted 1 rands g
        ≡ some (record { status = 0; output = issue_text r 0; globals = h }))
      × Accepted (passenger r) g h
unfolding producer_main
producer_joins_queue rands status r g e v s d =
    let (_, z, proper) = producer_sound 1 rands e in
    let (h, f, a) =
      issue_accepts (passenger r) g v (proper-IsInts r proper) s d (proper-IsRequest r proper) in
    let called = loaded_issue granted r.start r.dest r.type g ∙ f in
    (
      h,
      rw (e, called)
          (ap (λ k. some (record { status = k; output = issue_text r 0; globals = h })) z),
      a,
    )

command_other : (arg : Bytes) → arg ≢ codes "--start" → arg ≢ codes "--stop" → command arg ≡ none
unfolding command
command_other arg n m = elim (Bool-cases (same_text arg (codes "--start"))) [
  | inl e ↦ absurd (n ((same_text_iff arg (codes "--start")).0 e))
  | inr e ↦ elim (Bool-cases (same_text arg (codes "--stop"))) [
    | inl f ↦ absurd (m ((same_text_iff arg (codes "--stop")).0 f))
    | inr f ↦ rw (e, f) refl
  ]
]

consumer_other :
    (args : List Bytes)
    → args ≢ codes "--start" ∷ []
    → args ≢ codes "--stop" ∷ []
    → consumer args ≡ (int_mod - 1, none)
unfolding consumer
consumer_other [] n m = refl
consumer_other (arg ∷ []) n m =
    rw (command_other arg (λ e. n (ap (λ x. x ∷ []) e)) (λ e. m (ap (λ x. x ∷ []) e)), consumer)
      refl
consumer_other (_ ∷ _ ∷ _) n m = refl

-- The consumer with any other arguments than `--start` alone or `--stop` alone ends with status
-- -1 and leaves the module as it was.
pub consumer_ignores :
    (s : Stubs) (a : Answer) (args : List Bytes) (g : Globals)
    → args ≢ codes "--start" ∷ []
    → args ≢ codes "--stop" ∷ []
    → consumer_main s a args g
      ≡ some (record { status = int_mod - 1; output = complaint args; globals = g })
unfolding consumer_main carry_out
consumer_ignores s a args g n m = ap (carry_out s a args g) (consumer_other args n m)

start_elevator-result : (g : Globals) → (start_elevator g).0 < 2
unfolding start_elevator
start_elevator-result g = ground arith

libc_return_small : (n : ℕ) → n < 2 → libc_return n ≡ n
unfolding libc_return
libc_return_small n h = ground arith

stop_elevator-result :
    (locked : Bool) (g : Globals) {n : ℕ} {h : Globals}
    → stop_elevator locked g ≡ some (n, h)
    → n < 2
unfolding stop_elevator
stop_elevator-result locked g e = ground arith

-- What the consumer prints and leaves, when the module answers `n` and leaves `h`.
abbrev pub answered : Bytes → ℕ → Globals → Exit
answered label n h = record {
  status = 0;
  output = label ++ format_int n ++ codes "\n";
  globals = h;
}

-- While the stubs are set, if the stop in the module returns, the consumer with `--start`, and
-- with `--stop`, ends with status 0, prints what the module answers, and leaves the state that
-- the module leaves.
pub consumer_calls :
    (a : Answer) (g : Globals) {n : ℕ} {h : Globals}
    → stop_elevator a.locked g ≡ some (n, h)
    → (consumer_main (all_stubs true) a (codes "--start" ∷ []) g
        ≡ some
            (answered (codes "Start elevator returned ") (start_elevator g).0 (start_elevator g).1))
      × (consumer_main (all_stubs true) a (codes "--stop" ∷ []) g
          ≡ some (answered (codes "Stop elevator returned ") n h))
unfolding consumer_main carry_out consumer command same_text run_command wrap_start_elevator
    wrap_stop_elevator do_syscall sys_start_elevator sys_stop_elevator
consumer_calls a g {n} {h} e = (
  rw (libc_return_small (start_elevator g).0 (start_elevator-result g)) refl,
  rw (e, libc_return_small n (stop_elevator-result a.locked g e)) refl,
)
