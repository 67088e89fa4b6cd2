-- ===== src/Proc/Session.antt =====
-- part3/elevator.c: a reader of /proc/elevator, and two at once.
use kernal_elevator.Base.{
  arith, ℕ, ◌+◌, ◌≡◌, refl, Bool, if◌then◌else◌, true, Option, none, some, [], Bytes, ◌>>=◌, length,
}
use kernal_elevator.Elevator.State.{Globals}
use kernal_elevator.Proc.{Proc, Opened, freed, compose, proc_open, proc_read, proc_release}

-- Reads until the end of the file, then a release: the results and the bytes of the two reads.
pub record Transcript : Type 0 where
  pub first : ℕ
  pub bytes : Bytes
  pub second : ℕ
  pub more : Bytes
  pub after : Proc

-- `cat /proc/elevator`, alone
pub session : Globals → Proc → Option Transcript
session g s = do
  (_, s1) ← proc_open true true g s
  (n, out, s2) ← proc_read s1
  (k, more, s3) ← proc_read s2
  s4 ← proc_release s3
  some (record { first = n; bytes = out; second = k; more = more; after = s4 })

-- If the text can be composed, a reader who opens the entry with memory for both buffers, reads
-- twice and releases it gets the whole text by the first read and the end of the file by the
-- second; the text is freed, and `read_p` is 1 again.
pub session_lem :
    (g : Globals) (s : Proc) {m : Bytes}
    → compose g ≡ some m
    → session g s
      ≡ some (record {
        first = length m;
        bytes = m;
        second = 0;
        more = [];
        after = record s { message = freed; read_p = 1 };
      })
unfolding session proc_open proc_read proc_release
session_lem g s e = rw e refl

-- If two readers open the entry, both with memory for both buffers and with a text that can be
-- composed, before either releases it, the second release frees a block that is free already.
pub double_release :
    (g h : Globals) (s : Proc) {m m' : Bytes}
    → compose g ≡ some m
    → compose h ≡ some m'
    → (do
      (_, s1) ← proc_open true true g s
      (_, s2) ← proc_open true true h s1
      s3 ← proc_release s2
      proc_release s3)
      ≡ none
unfolding proc_open proc_release
double_release g h s e f = rw (e, f) refl

-- On every branch on which an open of /proc/elevator returns, the number of live blocks for
-- `temp` is as before, except that it grows by one if there is memory for `temp` and none for
-- the text.
pub open-temps :
    (temp_ok message_ok : Bool) (g : Globals) (s : Proc) {o : Opened} {s' : Proc}
    → proc_open temp_ok message_ok g s ≡ some (o, s')
    → s'.temps ≡ s.temps + (if message_ok then 0 else if temp_ok then 1 else 0)
unfolding proc_open
open-temps temp_ok message_ok g s e = ground arith
