-- ===== src/Condition.antt =====
-- The point in time until which `condition::wait` of lib/mutex.cpp waits, with a timeout in
-- milliseconds that is not negative.
mod Tests
pub mod Deadline
use lfz.Prelude.{ℕ, ◌+◌, ◌-◌, ◌*◌, ◌/◌, ◌%◌, ltb, if◌then◌else◌}

-- `timespec`.
pub record Timespec : Type 0 where
  pub tv_sec : ℕ
  pub tv_nsec : ℕ

unfoldable pub add_timeout : Timespec → ℕ → Timespec
add_timeout ts timeout = record {
  tv_sec = ts.tv_sec + timeout / 1000;
  tv_nsec = ts.tv_nsec + timeout % 1000 * 1000 * 1000;
}

-- The carry into the seconds.
unfoldable pub carry : Timespec → Timespec
carry ts =
    if ltb 1_000_000_000 ts.tv_nsec
    then record { tv_sec = ts.tv_sec + 1; tv_nsec = ts.tv_nsec - 1_000_000_000 }
    else ts

unfoldable pub wait_deadline : Timespec → ℕ → Timespec
wait_deadline now timeout = carry (add_timeout now timeout)
