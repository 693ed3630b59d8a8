-- ===== src/Leap/Laws.antt =====
-- When leap second events are scheduled and applied, and which calls come back.
use dragon_ntpd.Base.{
  ℕ, ◌+◌, ◌≤◌, ◌≡◌, refl, ◌⊎◌, inl, inr, true, false, not, ◌&&◌, some, List, ltb, ◌==◌, Status, ok,
  arith, Bool-cases,
}
use dragon_ntpd.Base.Int.{ℤ, pos, ◌≤ℤ◌, leb_ℤ}
use dragon_ntpd.Base.Lock.{done, blocked, free}
use dragon_ntpd.Leap.{
  LeapSecondState, World, leap_second_schedule_event, leap_second_apply_correction,
  leap_second_check_and_apply,
}
use dragon_ntpd.Leap.Files.{
  leap_second_check_file, check_date, read_leap_file, leap_second_get_file_name,
}

-- With the mutex free, `leap_second_check_and_apply` never comes back if an event is scheduled and due:
-- the call of `leap_second_apply_correction` waits for the mutex. Else it returns 0 and changes
-- nothing.
pub leap_second_check_and_apply_lem :
    (correct : ℤ → Status) (w : World) (s : LeapSecondState)
    → ((s.event_scheduled ≡ true)
        × (s.event_time ≤ℤ pos w.time)
        × (leap_second_check_and_apply correct w (free s) ≡ blocked))
      ⊎ ((¬ ((s.event_scheduled ≡ true) × (s.event_time ≤ℤ pos w.time)))
          × (leap_second_check_and_apply correct w (free s) ≡ done ok (free s)))
unfolding leap_second_check_and_apply leap_second_apply_correction
leap_second_check_and_apply_lem correct w s =
    elim (Bool-cases (s.event_scheduled && leb_ℤ s.event_time (pos w.time))) [
      | inl due ↦ inl (ground arith, ground arith, rw due refl)
      | inr not_due ↦ inr (λ h. ground (arith, h), rw not_due refl)
    ]

-- `leap_second_check_file`, called with the mutex free, an interval after the last check, never comes
-- back if the file of the day exists, can be opened and begins with a direction: the call of
-- `leap_second_schedule_event` waits for the mutex.
pub leap_second_check_file-blocked :
    (w : World) (s : LeapSecondState) (year month day : ℕ) (name : List ℕ) (leap_dir : ℕ)
    → s.initialized ≡ true
    → s.last_check_time + s.check_interval_sec ≤ w.time
    → w.localtime ≡ some (year, month, day)
    → leap_second_get_file_name s year month day ≡ some name
    → w.stat name ≡ true
    → w.leap_file name ≡ some (some leap_dir)
    → (leap_dir ≡ 1) ⊎ (leap_dir ≡ 2)
    → leap_second_check_file w (free s) ≡ blocked
unfolding leap_second_check_file check_date read_leap_file leap_second_schedule_event
leap_second_check_file-blocked w s year month day name leap_dir init late date named there says
      known =
    let new : ltb w.time (s.last_check_time + s.check_interval_sec) ≡ false = ground arith in
    let direction : (not (leap_dir == 1) && not (leap_dir == 2)) ≡ false = ground arith in
    simp (init, new, check_date, date, named, there, read_leap_file, says, direction)
