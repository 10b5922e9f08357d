-- ===== src/Condition/Deadline.antt =====
-- The bounds of the deadline of `condition::wait`.
use lfz.Prelude.{ℕ, ◌+◌, ◌*◌, ◌%◌, ◌≤◌, ◌<◌, ◌≡◌, ◌↔◌, arith}
use lfz.Condition.{Timespec, add_timeout, carry, wait_deadline}

abbrev pub nanoseconds : Timespec → ℕ
nanoseconds ts = ts.tv_sec * 1_000_000_000 + ts.tv_nsec

-- From a clock value in range, the deadline is the clock's time and the timeout; its nanoseconds are
-- at most 10 ^ 9, which they reach, out of the range of a timespec, exactly where the sum is 10 ^ 9.
pub wait_deadline_bounds :
    (now : Timespec) (timeout : ℕ)
    → now.tv_nsec < 1_000_000_000
    → (nanoseconds (wait_deadline now timeout) ≡ nanoseconds now + timeout * 1_000_000)
      × ((wait_deadline now timeout).tv_nsec ≤ 1_000_000_000)
      × (((wait_deadline now timeout).tv_nsec ≡ 1_000_000_000)
          ↔ (now.tv_nsec + timeout % 1000 * 1_000_000 ≡ 1_000_000_000))
unfolding wait_deadline carry add_timeout
wait_deadline_bounds now timeout h = ground arith
