-- ===== src/Tests/Clock.antt =====
-- The timer at concrete times.
use kernal_elevator.Base.{codes, ◌≡◌, refl, true, some, [], arith, replicate}
use kernal_elevator.Timer.{Reading, procfile_write, Timespec, Timer, procfile_read}
use kernal_elevator.Timer.Decimals.{Shown, two_reads}
use kernal_elevator.Timer.ReadBack.{whole_second_forgotten, parse_line, current_label}
use kernal_elevator.Timer.Written.{Written, write_keeps_buffer}
use kernal_elevator.Timer.Report.{IsShort}

abbrev monday : Timespec
monday = record { tv_sec = 3; tv_nsec = 7 }

abbrev tuesday : Timespec
tuesday = record { tv_sec = 5; tv_nsec = 3 }

abbrev never : Timespec
never = record { tv_sec = 0; tv_nsec = 0 }

abbrev fresh : Timer
fresh = record {
  msg = replicate 100 b'\0';
  procfs_buf_len = 0;
  t0 = never;
  t1 = never;
  diff = never;
}

abbrev used : Timer
used = record fresh { t0 = monday; t1 = monday }

monday-IsShort : IsShort monday
monday-IsShort = omega arith

tuesday-IsShort : IsShort tuesday
tuesday-IsShort = omega arith

two_reads_example :
    (r1 : Reading) × (r2 : Reading) × (procfile_read monday 200 0 true fresh ≡ some r1)
    × (procfile_read tuesday 200 0 true r1.timer ≡ some r2)
    × Shown monday tuesday r1.out r2.out
two_reads_example =
    two_reads monday tuesday 200 fresh monday-IsShort tuesday-IsShort (omega arith) (omega arith)
      refl (omega arith)

-- At a whole second.
abbrev noon : Timespec
noon = record { tv_sec = 4; tv_nsec = 0 }

whole_second_forgotten_example :
    (r1 : Reading) × (r2 : Reading) × (procfile_read noon 200 0 true fresh ≡ some r1)
    × (procfile_read tuesday 200 0 true r1.timer ≡ some r2)
    × (parse_line current_label r2.out ≡ some (tuesday, []))
whole_second_forgotten_example =
    whole_second_forgotten noon tuesday 200 fresh (omega arith) tuesday-IsShort refl refl
      (omega arith)

write_keeps_buffer_example :
    let (n, t) = procfile_write (codes "hello") 5 fresh in Written (codes "hello") 5 n fresh t
write_keeps_buffer_example = write_keeps_buffer (codes "hello") 5 fresh (omega arith) refl
