-- ===== src/User/Programs.antt =====
-- part3/producer.c and part3/consumer.c: `main` of each, with the call that it makes and the text that
-- it prints.
use kernal_elevator.Base.{
  ℕ, Option, none, some, List, [], ◌∷◌, ◌++◌, Bytes, codes, format_int, ◌>>=◌,
}
use kernal_elevator.Elevator.State.{Globals}
use kernal_elevator.Syscall.{
  Stubs, Answer, wrap_start_elevator, wrap_issue_request, wrap_stop_elevator,
}
use kernal_elevator.User.{Request, producer, Command, start_command, stop_command, consumer}

-- What a program leaves: its exit status, its output, and the state of the module.
pub record Exit : Type 0 where
  pub status : ℕ
  pub output : Bytes
  pub globals : Globals

abbrev pub usage : Bytes
usage = codes "wrong number of args\n"

-- `printf("Issue (%d, %d, %d) returned %ld\n", …)`; the result of the call is an int.
unfoldable pub issue_text : Request → ℕ → Bytes
issue_text r ret =
    codes "Issue ("
    ++ format_int r.start
    ++ codes ", "
    ++ format_int r.dest
    ++ codes ", "
    ++ format_int r.type
    ++ codes ") returned "
    ++ format_int ret
    ++ codes "\n"

unfoldable pub producer_main : Stubs → Answer → ℕ → List ℕ → Globals → Option Exit
producer_main s a argc rands g = do
  (status, asked) ← producer argc rands
  elim asked [
    | none ↦ some (record { status = status; output = usage; globals = g })
    | some r ↦ do
      (ret, h) ← wrap_issue_request s a r.start r.dest r.type g
      some (record { status = status; output = issue_text r ret; globals = h })
  ]

unfoldable pub run_command : Stubs → Answer → Command → Globals → Option (Bytes × Globals)
run_command s a start_command g = do
  (ret, h) ← wrap_start_elevator s a g
  some (codes "Start elevator returned " ++ format_int ret ++ codes "\n", h)
run_command s a stop_command g = do
  (ret, h) ← wrap_stop_elevator s a g
  some (codes "Stop elevator returned " ++ format_int ret ++ codes "\n", h)

-- Only a wrong number of arguments is reported; an unknown argument is not.
unfoldable pub complaint : List Bytes → Bytes
complaint (_ ∷ []) = []
complaint _ = usage

-- What follows once the arguments are read.
unfoldable pub carry_out : Stubs → Answer → List Bytes → Globals → ℕ × Option Command → Option Exit
carry_out s a args g (status, none) =
    some (record { status = status; output = complaint args; globals = g })
carry_out s a args g (status, some c) = do
  (output, h) ← run_command s a c g
  some (record { status = status; output = output; globals = h })

unfoldable pub consumer_main : Stubs → Answer → List Bytes → Globals → Option Exit
consumer_main s a args g = carry_out s a args g (consumer args)
