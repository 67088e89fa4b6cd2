-- ===== src/Timer.antt =====
-- timer/my_timer.c, the module that shows the time and what has passed since it was last read. A
-- `long` is its 64-bit pattern.
pub mod Elapsed
pub mod Report
pub mod Fraction
pub mod Written
pub mod ReadBack
pub mod Decimals
use kernal_elevator.Base.{
  ℕ, ◌+◌, ◌-◌, ◌%◌, ◌^◌, Bool, true, false, ◌||◌, Option, none, some, List, [], ◌++◌, Bytes, codes,
  ◌>>=◌, length, ltb, ◌==◌, if◌then◌else◌, decimal, take, drop,
}

abbrev pub buf_len : ℕ
buf_len = 100

abbrev pub nanos : ℕ
nanos = 1000000000

-- `a - b` and `a < b` on long
unfoldable pub sub_long : ℕ → ℕ → ℕ
sub_long a b = (a + (2 ^ 64 - b)) % 2 ^ 64

unfoldable pub add_long : ℕ → ℕ → ℕ
add_long a b = (a + b) % 2 ^ 64

abbrev bias : ℕ → ℕ
bias n = (n + 2 ^ 63) % 2 ^ 64

unfoldable pub slt_long : ℕ → ℕ → Bool
slt_long a b = ltb (bias a) (bias b)

-- `%ld`
unfoldable pub format_long : ℕ → Bytes
format_long n = if ltb n (2 ^ 63) then decimal n else codes "-" ++ decimal (2 ^ 64 - n)

pub record Timespec : Type 0 where
  pub tv_sec : ℕ
  pub tv_nsec : ℕ

-- The file-scope variables, but for the proc entry.
pub record Timer : Type 0 where
  pub msg : Bytes
  pub procfs_buf_len : ℕ
  pub t0 : Timespec
  pub t1 : Timespec
  pub diff : Timespec

unfoldable pub difference : Timespec → Timespec → Timespec
difference t1 t0 =
    if slt_long t1.tv_nsec t0.tv_nsec
    then record {
      tv_sec = sub_long (sub_long t1.tv_sec t0.tv_sec) 1;
      tv_nsec = sub_long (add_long nanos t1.tv_nsec) t0.tv_nsec;
    }
    else record { tv_sec = sub_long t1.tv_sec t0.tv_sec; tv_nsec = sub_long t1.tv_nsec t0.tv_nsec }

-- A text in a buffer of `size` bytes; past the end is a fault.
unfoldable pub fit : ℕ → Bytes → Option Bytes
fit size text = if ltb (length text) size then some text else none

-- `sprintf(time_1, "%ld.%ld", …)` into 21 bytes
unfoldable pub time_text : Timespec → Option Bytes
time_text t = fit 21 (format_long t.tv_sec ++ codes "." ++ format_long t.tv_nsec)

-- A labelled line in a buffer of `size` bytes.
unfoldable pub time_line : ℕ → Bytes → Timespec → Option Bytes
time_line size label t = do time ← time_text t; fit size (label ++ time ++ codes "\n")

-- A `char`, signed and of 8 bits, as a size: a negative one is close to 2 ^ 64.
unfoldable pub char_to_size : ℕ → ℕ
char_to_size c = if ltb c 128 then c else c + (2 ^ 64 - 256)

pub data Read : Type 0 where
  done : ℕ → Read
  efault : Read

pub record Reading : Type 0 where
  pub result : Read
  pub out : Bytes
  pub ppos : ℕ
  pub timer : Timer

-- From `procfs_buf_len = strlen(current_t)` on. `copied` tells whether copy_to_user returns 0.
unfoldable pub deliver : Bytes → ℕ → ℕ → Bool → Timer → Reading
deliver text count ppos copied t =
    let len = length text % 256 in
    let t' = record t { procfs_buf_len = len } in
    if ltb 0 ppos || ltb count (char_to_size len)
    then record { result = done 0; out = []; ppos = ppos; timer = t' }
    else if copied
    then record {
      result = done (char_to_size len);
      out = text;
      ppos = char_to_size len;
      timer = record t' { t0 = t'.t1 };
    }
    else record { result = efault; out = []; ppos = ppos; timer = t' }

unfoldable pub procfile_read : Timespec → ℕ → ℕ → Bool → Timer → Option Reading
procfile_read now count ppos copied t =
    if slt_long 0 t.t0.tv_nsec
    then (do
      current_t ← time_line 200 (codes "current time: ") now
      let d = difference now t.t0
      elapsed_t ← time_line 100 (codes "elapsed time: ") d
      all ← fit 200 (current_t ++ elapsed_t)
      some (deliver all count ppos copied (record t { t1 = now; diff = d })))
    else (do
      current_t ← time_line 1000 (codes "current time: ") now
      some (deliver current_t count ppos copied (record t { t1 = now })))

-- The bytes of the user that are copied go over the start of `msg`; all of them arrive.
unfoldable pub procfile_write : Bytes → ℕ → Timer → ℕ × Timer
procfile_write user count t =
    let len = if ltb buf_len count then buf_len else count in
    (len, record t { procfs_buf_len = len; msg = take len user ++ drop len t.msg })

-- `timer_init`: whether it returns 0 (or -ENOMEM), which is whether there is an entry `timer`.
unfoldable pub timer_init : Bool → Bool × Bool
timer_init created = if created then (true, true) else (false, false)

-- `timer_exit`: the entry is gone.
unfoldable pub timer_exit : Bool → Bool
timer_exit entry = false
