-- ===== src/Timer/Report.antt =====
-- timer/my_timer.c: what a read of /proc/timer shows.
use kernal_elevator.Base.{
  ℕ, ◌+◌, ◌%◌, ◌^◌, ◌≤◌, ◌<◌, ◌≡◌, refl, ap, ◌∙◌, ◌≢◌, Bool, true, false, some, [], ◌++◌, Bytes,
  codes, length, length-append, ltb, decimal, length-decimal, arith,
}
use kernal_elevator.Timer.{
  Timespec, Timer, nanos, slt_long, format_long, fit, time_text, time_line, char_to_size, done,
  deliver, difference, procfile_read,
}
use kernal_elevator.Timer.Elapsed.{IsTime, in_nanos, slt_long_small, difference_lem}

-- A time before the year 2286.
pub record IsShort (t : Timespec) : Type 0 where
  pub sec_lt : t.tv_sec < 10 ^ 10
  pub nsec_lt : t.tv_nsec < nanos

abbrev pub shown : Timespec → Bytes
shown t = decimal t.tv_sec ++ codes "." ++ decimal t.tv_nsec

abbrev pub line : Bytes → Timespec → Bytes
line label t = label ++ shown t ++ codes "\n"

fit_ok : (size : ℕ) (t : Bytes) → length t < size → fit size t ≡ some t
unfolding fit
fit_ok size t h = ground arith

format_long_small : (n : ℕ) → n < 2 ^ 63 → format_long n ≡ decimal n
unfolding format_long
format_long_small n h = ground arith

length-shown : (t : Timespec) → IsShort t → length (shown t) ≤ 20
length-shown t s = omega (
  arith,
  length-append {0} (decimal t.tv_sec) (codes "."),
  length-append {0} (decimal t.tv_sec ++ codes ".") (decimal t.tv_nsec),
  length-decimal 9 t.tv_sec s.sec_lt,
  length-decimal 8 t.tv_nsec s.nsec_lt,
)

time_text_lem : (t : Timespec) → IsShort t → time_text t ≡ some (shown t)
unfolding time_text
time_text_lem t s =
    rw (format_long_small t.tv_sec (omega arith), format_long_small t.tv_nsec (omega arith))
      (fit_ok 21 (shown t) (omega (arith, length-shown t s)))

length-line : (label : Bytes) (t : Timespec) → IsShort t → length (line label t) ≤ length label + 21
length-line label t s = omega (
  arith,
  length-append {0} label (shown t),
  length-append {0} (label ++ shown t) (codes "\n"),
  length-shown t s,
)

time_line_lem :
    (size : ℕ) (label : Bytes) (t : Timespec)
    → IsShort t
    → length label + 21 < size
    → time_line size label t ≡ some (line label t)
unfolding time_line
time_line_lem size label t s h =
    rw (time_text_lem t s) (fit_ok size (line label t) (omega (arith, length-line label t s)))

-- The reader's buffer has room, and he reads from the start.
deliver_lem :
    (text : Bytes) (count : ℕ) (t : Timer)
    → length text < 128
    → length text ≤ count
    → deliver text count 0 true t ≡ record {
      result = done (length text);
      out = text;
      ppos = length text;
      timer = record t { procfs_buf_len = length text; t0 = t.t1 };
    }
unfolding deliver char_to_size
deliver_lem text count t h k = rw (small, below, enough) refl
  where
    small : length text % 256 ≡ length text
    small = omega arith

    below : ltb (length text) 128 ≡ true
    below = ground arith

    enough : ltb count (length text) ≡ false
    enough = ground arith

pub IsShort-IsTime : (t : Timespec) → IsShort t → IsTime t
IsShort-IsTime t s = omega arith

difference-IsShort :
    (now before : Timespec)
    → IsShort now
    → IsShort before
    → in_nanos before ≤ in_nanos now
    → IsShort (difference now before)
difference-IsShort now before n b h =
    omega (arith, difference_lem now before (IsShort-IsTime now n) (IsShort-IsTime before b) h)

abbrev pub first_text : Timespec → Bytes
first_text now = line (codes "current time: ") now

abbrev pub second_text : Timespec → Timespec → Bytes
second_text now before = first_text now ++ line (codes "elapsed time: ") (difference now before)

pub read_first :
    (now : Timespec) (count : ℕ) (t : Timer)
    → IsShort now
    → 127 ≤ count
    → t.t0.tv_nsec ≡ 0
    → procfile_read now count 0 true t
      ≡ some (record {
        result = done (length (first_text now));
        out = first_text now;
        ppos = length (first_text now);
        timer = record t { procfs_buf_len = length (first_text now); t0 = now; t1 = now };
      })
unfolding procfile_read
read_first now count t s h z =
    rw (unset, time_line_lem 1000 (codes "current time: ") now s (omega arith))
      (ap some (deliver_lem (first_text now) count _ (omega (arith, l)) (omega (arith, l))))
  where
    unset : slt_long 0 t.t0.tv_nsec ≡ false
    unset = ap (slt_long 0) z ∙ slt_long_small 0 0 (omega arith) (omega arith)

    l : length (first_text now) ≤ 14 + 21
    l = length-line (codes "current time: ") now s

pub read_second :
    (now : Timespec) (count : ℕ) (t : Timer)
    → IsShort now
    → IsShort t.t0
    → in_nanos t.t0 ≤ in_nanos now
    → 127 ≤ count
    → t.t0.tv_nsec ≢ 0
    → let text = second_text now t.t0 in
      procfile_read now count 0 true t
      ≡ some (record {
        result = done (length text);
        out = text;
        ppos = length text;
        timer = record t {
          procfs_buf_len = length text;
          t0 = now;
          t1 = now;
          diff = difference now t.t0;
        };
      })
unfolding procfile_read
read_second now count t s s0 o h nz =
    rw
      (
        set,
        time_line_lem 200 (codes "current time: ") now s (omega arith),
        time_line_lem 100 (codes "elapsed time: ") (difference now t.t0) d (omega arith),
        fit_ok 200 (second_text now t.t0) (omega (arith, l)),
      )
      (ap some (deliver_lem (second_text now t.t0) count _ (omega (arith, l)) (omega (arith, l))))
  where
    set : slt_long 0 t.t0.tv_nsec ≡ true
    set = ground (arith, slt_long_small 0 t.t0.tv_nsec)

    d : IsShort (difference now t.t0)
    d = difference-IsShort now t.t0 s s0 o

    l : length (second_text now t.t0) ≤ 70
    l = omega (
      arith,
      length-append {0} (first_text now) (line (codes "elapsed time: ") (difference now t.t0)),
      length-line (codes "current time: ") now s,
      length-line (codes "elapsed time: ") (difference now t.t0) d,
    )

-- At the end of the file the next read returns 0, and does not move the start of the measurement.
pub deliver_end :
    (text : Bytes) (count ppos : ℕ) (copied : Bool) (t : Timer)
    → 0 < ppos
    → let r = deliver text count ppos copied t in
      (r.result ≡ done 0) × (r.out ≡ []) × (r.ppos ≡ ppos) × (r.timer.t0 ≡ t.t0)
unfolding deliver
deliver_end text count ppos copied t h = ground arith
