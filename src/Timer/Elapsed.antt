-- ===== src/Timer/Elapsed.antt =====
-- timer/my_timer.c: the difference of two times.
use kernal_elevator.Base.{ℕ, ◌+◌, ◌*◌, ◌^◌, ◌≤◌, ◌<◌, ◌≡◌, arith, ltb}
use kernal_elevator.Timer.{Timespec, nanos, sub_long, add_long, slt_long, difference}

-- What `current_kernel_time` returns: a time since the epoch.
pub record IsTime (t : Timespec) : Type 0 where
  pub sec_lt : t.tv_sec < 2 ^ 62
  pub nsec_lt : t.tv_nsec < nanos

abbrev pub in_nanos : Timespec → ℕ
in_nanos t = t.tv_sec * nanos + t.tv_nsec

pub slt_long_small : (a b : ℕ) → a < 2 ^ 63 → b < 2 ^ 63 → slt_long a b ≡ ltb a b
unfolding slt_long
slt_long_small a b h k = ground arith

-- Of two times with less than 2 ^ 62 seconds and less than 10 ^ 9 nanoseconds, the earlier one
-- and the computed difference add up to the later one, and the difference is such a time.
pub difference_lem :
    (now before : Timespec)
    → IsTime now
    → IsTime before
    → in_nanos before ≤ in_nanos now
    → (in_nanos before + in_nanos (difference now before) ≡ in_nanos now)
      × IsTime (difference now before)
unfolding difference sub_long add_long
difference_lem now before n b h = ground (arith, slt_long_small now.tv_nsec before.tv_nsec)
