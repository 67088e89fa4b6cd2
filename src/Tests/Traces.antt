-- ===== src/Tests/Traces.antt =====
-- The two programs of part1: the second makes seven calls more.
use kernal_elevator.Base.{◌+◌, ◌≡◌, refl, length}
use kernal_elevator.Part1.{empty_main, part1_main}

seven_more : length part1_main ≡ length empty_main + 7
unfolding part1_main empty_main
seven_more = refl
