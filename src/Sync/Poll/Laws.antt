-- ===== src/Sync/Poll/Laws.antt =====
-- Bounds of the poll interval.
use dragon_ntpd.Base.{ℕ, arith, if◌then◌else◌}
use dragon_ntpd.Base.Int.{ℤ, pos, negsuc, ◌≤ℤ◌, ltb_ℤ, ◌+ℤ◌, ◌-ℤ◌}
use dragon_ntpd.Sync.Poll.{adjust_poll_interval, poll_min, poll_max}

-- The smaller of the two.
abbrev pub lower : ℤ → ℤ → ℤ
lower peer current = if ltb_ℤ peer current then peer else current

-- A current interval from 4 to 12. The new one is at most 12 and at most one step from the smaller of
-- the current one and the peer's; it is at least 4, or at least the
-- peer's where that is below 4.
pub adjust_poll_interval_lem :
    (current peer : ℤ) (delay_us : ℕ) (offset_us : ℤ)
    → poll_min ≤ℤ current
    → current ≤ℤ poll_max
    → (adjust_poll_interval current peer delay_us offset_us ≤ℤ poll_max)
      × (adjust_poll_interval current peer delay_us offset_us ≤ℤ (lower peer current +ℤ pos 1))
      × ((lower peer current -ℤ pos 1) ≤ℤ adjust_poll_interval current peer delay_us offset_us)
      × (lower peer poll_min ≤ℤ adjust_poll_interval current peer delay_us offset_us)
unfolding adjust_poll_interval ◌+ℤ◌ ◌-ℤ◌
adjust_poll_interval_lem (pos c) (pos p) delay_us offset_us low high =
    (ground arith, ground arith, ground arith, ground arith)
adjust_poll_interval_lem (pos c) (negsuc p) delay_us offset_us low high =
    (ground arith, ground arith, ground arith, ground arith)
adjust_poll_interval_lem (negsuc c) peer delay_us offset_us low high = absurd (omega arith)
