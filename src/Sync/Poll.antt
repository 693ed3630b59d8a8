-- ===== src/Sync/Poll.antt =====
-- The poll interval of time_sync.c.
pub mod Laws
use dragon_ntpd.Base.{ℕ, ◌+◌, ◌≤◌, ◌≡◌, Bool, ◌&&◌, ◌||◌, ltb, if◌then◌else◌}
use dragon_ntpd.Base.Int.{ℤ, pos, negsuc, ltb_ℤ, ◌+ℤ◌, ◌-ℤ◌}

-- POLL_INTERVAL_MIN and POLL_INTERVAL_MAX, and the thresholds in microseconds.
abbrev pub poll_min : ℤ
poll_min = pos 4

abbrev pub poll_max : ℤ
poll_max = pos 12

unfoldable pub adjust_poll_interval : ℤ → ℤ → ℕ → ℤ → ℤ
unfolding ◌+ℤ◌ ◌-ℤ◌
adjust_poll_interval current_poll peer_poll delay_us offset_us =
    let new_poll = if ltb_ℤ peer_poll current_poll then peer_poll else current_poll in
    if ltb 100000 delay_us || (ltb_ℤ (pos 50000) offset_us || ltb_ℤ offset_us (negsuc 49999))
    then (if ltb_ℤ new_poll poll_max then new_poll +ℤ pos 1 else new_poll)
    else if ltb delay_us 10000 && (ltb_ℤ (negsuc 9999) offset_us && ltb_ℤ offset_us (pos 10000))
    then (if ltb_ℤ poll_min new_poll then new_poll -ℤ pos 1 else new_poll)
    else new_poll
