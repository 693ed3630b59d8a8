-- ===== src/Leap.antt =====
-- leap_second.c: the leap second state under `g_leap_second_mutex`, and `handle_leap_indicator` of
-- ntp_algorithms.c.
-- `World` is what the operating system answers during one call: `time`, the seconds of
-- `clock_gettime`, `localtime` as year, month and day, and the files. A leap file that exists can be
-- opened or not, and has a number (`%hhu`) at its start or not. `correct` is
-- `apply_time_correction_slew_or_step`, which does not use this state. Times are at or after 1970.
pub mod Laws
pub mod Files
use dragon_ntpd.Base.{
  ℕ, zero, suc, ◌+◌, ◌-◌, ◌*◌, ◌/◌, ◌%◌, Bool, true, false, not, ◌&&◌, List, [], ◌∷◌, ◌++◌, Option,
  none, some, ltb, leb, ◌==◌, if◌then◌else◌, Status, ok, error,
}
use dragon_ntpd.Base.Int.{ℤ, pos, negsuc, ◌+ℤ◌, ◌-ℤ◌, leb_ℤ, ltb_ℤ}
use dragon_ntpd.Base.Lock.{M, ◌>>=◌, ◌>>◌, pure, lock, unlock, get, modify}

pub record LeapSecondState : Type 0 where
  pub initialized : Bool
  pub last_check_time : ℕ
  pub next_check_time : ℕ
  pub pending_offset_us : ℤ
  pub pending_leap_dir : ℕ
  pub event_scheduled : Bool
  pub event_time : ℤ
  pub leap_file_dir : List ℕ
  pub leap_file_prefix : List ℕ
  pub leap_file_suffix : List ℕ
  pub check_interval_sec : ℕ
  pub event_interval_sec : ℕ

pub record World : Type 0 where
  pub time : ℕ
  pub realtime : Option ℕ
  pub localtime : Option (ℕ × ℕ × ℕ)
  pub stat : List ℕ → Bool
  pub leap_file : List ℕ → Option (Option ℕ)

-- `LEAP_SECOND_DIR_POSITIVE` and `LEAP_SECOND_DIR_NEGATIVE`
abbrev pub dir_positive : ℕ
dir_positive = 1

abbrev pub dir_negative : ℕ
dir_negative = 2

unfoldable pub leap_second_get_end_of_minute_time : World → ℕ
leap_second_get_end_of_minute_time w = elim w.realtime [
  | none ↦ 0
  | some now ↦ now + (60 - now % 60)
]

unfoldable pub leap_second_init : M LeapSecondState Status
leap_second_init = do
  lock
  modify (λ s. record {
    initialized = true;
    last_check_time = 0;
    next_check_time = 0;
    pending_offset_us = pos 0;
    pending_leap_dir = 0;
    event_scheduled = false;
    event_time = pos 0;
    leap_file_dir = b'/' ∷ b'e' ∷ b't' ∷ b'c' ∷ b'/' ∷ b'n' ∷ b't' ∷ b'p' ∷ [];
    leap_file_prefix = b'l' ∷ b'e' ∷ b'a' ∷ b'p' ∷ b'-' ∷ [];
    leap_file_suffix = b'.' ∷ b's' ∷ [];
    check_interval_sec = 300;
    event_interval_sec = 60;
  })
  unlock
  pure ok

unfoldable pub leap_second_cleanup : M LeapSecondState Status
leap_second_cleanup = do
  lock
  modify (λ s. record s {
    initialized = false;
    last_check_time = 0;
    next_check_time = 0;
    pending_offset_us = pos 0;
    pending_leap_dir = 0;
    event_scheduled = false;
    event_time = pos 0;
  })
  unlock
  pure ok

-- The time of the event: an interval before the end of the minute, or, where that has passed, an
-- interval behind it.
unfoldable pub event_time_from : ℕ → ℕ → ℕ → ℤ
unfolding ◌-ℤ◌
event_time_from end_of_minute interval now =
    let event_time = pos end_of_minute -ℤ pos interval in
    if leb_ℤ event_time (pos now) then pos (end_of_minute + interval) else event_time

abbrev pub offset_of : ℕ → ℤ
offset_of leap_dir = if leap_dir == dir_positive then pos 60000000 else negsuc 59999999

-- The event that is stored.
abbrev pub schedule : ℕ → ℤ → LeapSecondState → LeapSecondState
schedule leap_dir event_time s = record s {
  pending_offset_us = offset_of leap_dir;
  pending_leap_dir = leap_dir;
  event_time = event_time;
  event_scheduled = true;
}

unfoldable pub leap_second_schedule_event : World → ℕ → M LeapSecondState Status
unfolding leap_second_get_end_of_minute_time event_time_from
leap_second_schedule_event w leap_dir = do
  lock
  s ← get
  (if s.event_scheduled
      then (do unlock; pure error)
      else let end_of_minute = leap_second_get_end_of_minute_time w in
        if end_of_minute == 0 then (do unlock; pure error) else (do
          modify (schedule leap_dir (event_time_from end_of_minute s.event_interval_sec w.time))
          unlock
          pure ok))

-- The event cleared.
abbrev pub settle : LeapSecondState → LeapSecondState
settle s = record s { pending_offset_us = pos 0; pending_leap_dir = 0; event_scheduled = false }

-- The argument `leap_dir` is not used. The second part of the result is the correction that was asked
-- for.
unfoldable pub leap_second_apply_correction :
    (ℤ → Status) → World → M LeapSecondState (Status × Option ℤ)
leap_second_apply_correction correct w = do
  lock
  s ← get
  (if not s.event_scheduled
      then (do unlock; pure (error, none))
      else if ltb_ℤ (pos w.time) s.event_time
      then (do unlock; pure (error, none))
      else (do
        let result = correct s.pending_offset_us
        modify settle
        unlock
        pure (result, some s.pending_offset_us)))

unfoldable pub leap_second_check_and_apply : (ℤ → Status) → World → M LeapSecondState Status
unfolding leap_second_apply_correction
leap_second_check_and_apply correct w = do
  lock
  s ← get
  (if s.event_scheduled && leb_ℤ s.event_time (pos w.time)
      then (do _ ← leap_second_apply_correction correct w; unlock; pure ok)
      else (do unlock; pure ok))

-- True where the packet is to be skipped.
unfoldable pub handle_leap_indicator : World → ℕ → M LeapSecondState Bool
unfolding leap_second_schedule_event
handle_leap_indicator w li =
    if li == 0
    then pure false
    else if li == 1
    then (do _ ← leap_second_schedule_event w dir_positive; pure false)
    else if li == 2
    then (do _ ← leap_second_schedule_event w dir_negative; pure false)
    else pure true
