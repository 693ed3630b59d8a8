-- ===== src/Threads/Clock/Offset.antt =====
-- The time that the clock thread waits for.
use dragon_ntpd.Base.{ℕ, ◌+◌, ◌*◌, ◌%◌, ◌<◌, ◌≡◌, inl, inr, leb, arith, Bool-cases}
use dragon_ntpd.Threads.Clock.{deadline}

-- For every time, with its nanoseconds below a second, and every interval: the thread waits for the time that
-- is `interval_ms` thousandths of a second later, written with its nanoseconds below a second.
pub deadline_lem :
    (sec nsec interval_ms : ℕ)
    → nsec < 1000000000
    → ((deadline sec nsec interval_ms).0 * 1000000000 + (deadline sec nsec interval_ms).1
        ≡ sec * 1000000000 + nsec + interval_ms * 1000000)
      × ((deadline sec nsec interval_ms).1 < 1000000000)
unfolding deadline
deadline_lem sec nsec interval_ms h =
    elim (Bool-cases (leb 1000000000 (nsec + interval_ms % 1000 * 1000000))) [
      | inl over ↦ (rw over (ground arith), rw over (ground arith))
      | inr under ↦ (rw under (omega arith), rw under (ground arith))
    ]
