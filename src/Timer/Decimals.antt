-- ===== src/Timer/Decimals.antt =====
-- timer/my_timer.c: a reader of /proc/timer who takes what is behind a point for a decimal fraction.
use kernal_elevator.Base.{
  ℕ, ◌+◌, ◌^◌, ◌≤◌, ◌≡◌, ◌≢◌, ◌⊎◌, ◌↔◌, refl, subst, true, Option, some, [], ◌∷◌, ◌++◌, append-nil,
  Bytes, length, drop, drop-append, decimal, value, value-decimal, arith, ◌>>=◌,
}
use kernal_elevator.Timer.{Timespec, Timer, Reading, difference, procfile_read}
use kernal_elevator.Timer.Elapsed.{in_nanos, difference_lem}
use kernal_elevator.Timer.Fraction.{fraction, fraction_iff}
use kernal_elevator.Timer.ReadBack.{
  cut, cut-append, decimal-other, line-append, current_label, elapsed_label,
}
use kernal_elevator.Timer.Report.{IsShort, IsShort-IsTime, line, read_first, read_second}

-- A line `label sec.fraction`, and what comes behind it.
unfoldable pub read_line : Bytes → Bytes → Option (Timespec × Bytes)
read_line label text = do
  (sec, rest) ← cut b'.' (drop (length label) text)
  (digits, behind) ← cut b'\n' rest
  some (record { tv_sec = value 0 sec; tv_nsec = fraction digits }, behind)

-- The line is read, with the right seconds; the nanoseconds are right exactly if there are none or at
-- least 10 ^ 8.
pub record Reads (label text : Bytes) (t : Timespec) (behind : Bytes) : Type 0 where
  pub read : Timespec
  pub reads : read_line label text ≡ some (read, behind)
  pub seconds : read.tv_sec ≡ t.tv_sec
  pub nanoseconds : (read.tv_nsec ≡ t.tv_nsec) ↔ ((t.tv_nsec ≡ 0) ⊎ (10 ^ 8 ≤ t.tv_nsec))

read-line :
    (label : Bytes) (t : Timespec) (behind : Bytes)
    → read_line label (line label t ++ behind)
      ≡ some (record { tv_sec = t.tv_sec; tv_nsec = fraction (decimal t.tv_nsec) }, behind)
unfolding read_line
read-line label t behind =
    rw
      (
        line-append label t behind,
        drop-append label (decimal t.tv_sec ++ b'.' ∷ (decimal t.tv_nsec ++ b'\n' ∷ behind)),
        cut-append b'.' (decimal t.tv_sec) (decimal t.tv_nsec ++ b'\n' ∷ behind)
            (decimal-other b'.' t.tv_sec (omega arith)),
        cut-append b'\n' (decimal t.tv_nsec) behind (decimal-other b'\n' t.tv_nsec (omega arith)),
        value-decimal t.tv_sec,
      )
      refl

line-Reads :
    (label : Bytes) (t : Timespec) (behind : Bytes) → Reads label (line label t ++ behind) t behind
line-Reads label t behind = record {
  read = record { tv_sec = t.tv_sec; tv_nsec = fraction (decimal t.tv_nsec) };
  reads = read-line label t behind;
  seconds = refl;
  nanoseconds = fraction_iff t.tv_nsec;
}

last-Reads : (label : Bytes) (t : Timespec) → Reads label (line label t) t []
last-Reads label t =
    subst (λ x. Reads label x t []) (append-nil (line label t)) (line-Reads label t [])

-- What two reads one after the other show.
pub record Shown (before now : Timespec) (first second : Bytes) : Type 0 where
  pub elapsed : Timespec
  pub rest : Bytes
  pub first_line : Reads current_label first before []
  pub now_line : Reads current_label second now rest
  pub elapsed_line : Reads elapsed_label rest elapsed []
  pub adds_up : in_nanos before + in_nanos elapsed ≡ in_nanos now

-- Two reads from the start of /proc/timer with room for the text, at times before the year 2286
-- with the first not after the second, the first at no whole second and the time of the last
-- read not set before: both return. The first text has the line of the first time; the second
-- has the line of the second time and that of a difference that added to the first time makes
-- the second. A reader who takes what is behind the point for a decimal fraction of a second
-- gets the seconds of each line right, and its nanoseconds exactly if these are 0 or at least 10
-- ^ 8.
pub two_reads :
    (before now : Timespec) (count : ℕ) (t : Timer)
    → IsShort before
    → IsShort now
    → in_nanos before ≤ in_nanos now
    → before.tv_nsec ≢ 0
    → t.t0.tv_nsec ≡ 0
    → 127 ≤ count
    → (r1 : Reading) × (r2 : Reading) × (procfile_read before count 0 true t ≡ some r1)
      × (procfile_read now count 0 true r1.timer ≡ some r2)
      × Shown before now r1.out r2.out
two_reads before now count t b n o nz z enough = (
  _,
  _,
  read_first before count t b enough z,
  read_second now count _ n b o enough nz,
  record {
    elapsed = difference now before;
    rest = line elapsed_label (difference now before);
    first_line = last-Reads current_label before;
    now_line = line-Reads current_label now (line elapsed_label (difference now before));
    elapsed_line = last-Reads elapsed_label (difference now before);
    adds_up = (difference_lem now before (IsShort-IsTime now n) (IsShort-IsTime before b) o).0;
  },
)
