-- ===== src/Condition/Tests.antt =====
-- The deadline at a clock value that makes exactly a second.
use lfz.Prelude.{◌+◌, ◌*◌, ◌%◌, ◌≤◌, ◌≡◌, ◌↔◌, arith}
use lfz.Condition.{Timespec, wait_deadline}
use lfz.Condition.Deadline.{nanoseconds, wait_deadline_bounds}

abbrev clock : Timespec
clock = record { tv_sec = 7; tv_nsec = 999_000_000 }

wait_deadline_bounds_example :
    (nanoseconds (wait_deadline clock 2001) ≡ nanoseconds clock + 2001 * 1_000_000)
    × ((wait_deadline clock 2001).tv_nsec ≤ 1_000_000_000)
    × (((wait_deadline clock 2001).tv_nsec ≡ 1_000_000_000)
        ↔ (999_000_000 + 2001 % 1000 * 1_000_000 ≡ 1_000_000_000))
wait_deadline_bounds_example = wait_deadline_bounds clock 2001 (omega arith)
