-- ===== src/Server/Answer.antt =====
-- What `handle_peer_request_thread` sends.
use dragon_ntpd.Base.{
  ℕ, zero, suc, ◌≡◌, refl, inl, inr, false, not, ◌&&◌, ◌||◌, some, leb, ◌==◌, if◌then◌else◌, arith,
  Bool-cases, ok, error,
}
use dragon_ntpd.Base.Lock
use dragon_ntpd.Base.Lock.{done, free}
use dragon_ntpd.Mode.{ModeState}
use dragon_ntpd.Mode.RateLimit.{rate_limit_insert, touched}
use dragon_ntpd.Leap.{
  LeapSecondState, World, handle_leap_indicator, leap_second_schedule_event, schedule,
  event_time_from, leap_second_get_end_of_minute_time,
}
use dragon_ntpd.Daemon.{ClockState, ◌>>=◌}
use dragon_ntpd.Server.{Env, PeerRequestData, synced_header, unsynced_header}
use dragon_ntpd.Server.Response.{Header}

-- The leap second state after a packet with a leap indicator: 1 and 2 schedule an event where none is
-- scheduled and the clock can be read.
abbrev pub leap_after : World → ℕ → LeapSecondState → LeapSecondState
leap_after w li l =
    let end_of_minute = leap_second_get_end_of_minute_time w in
    if ((li == 1) || (li == 2)) && (not l.event_scheduled && not (end_of_minute == 0))
    then schedule li (event_time_from end_of_minute l.event_interval_sec w.time) l
    else l

schedule_lem :
    (w : World) (li : ℕ) (l : LeapSecondState)
    → leap_second_schedule_event w li (free l) ≡ (
        if l.event_scheduled
        then done error (free l)
        else if leap_second_get_end_of_minute_time w == 0
        then done error (free l)
        else done ok (
            free (
              schedule li
                (event_time_from (leap_second_get_end_of_minute_time w) l.event_interval_sec w.time)
                l)))
unfolding leap_second_schedule_event
schedule_lem w li l = elim (Bool-cases l.event_scheduled) [
  | inl e ↦ rw e
  | inr e ↦ elim (Bool-cases (leap_second_get_end_of_minute_time w == 0)) [
    | inl f ↦ rw (e, f)
    | inr f ↦ rw (e, f)
  ]
]

leap_positive :
    (w : World) (l : LeapSecondState)
    → handle_leap_indicator w 1 (free l) ≡ done false (free (leap_after w 1 l))
unfolding handle_leap_indicator
leap_positive w l = elim (Bool-cases l.event_scheduled) [
  | inl e ↦ rw (Lock.◌>>=◌, schedule_lem w 1 l, e)
  | inr e ↦ elim (Bool-cases (leap_second_get_end_of_minute_time w == 0)) [
    | inl f ↦ rw (Lock.◌>>=◌, schedule_lem w 1 l, e, f)
    | inr f ↦ rw (Lock.◌>>=◌, schedule_lem w 1 l, e, f)
  ]
]

leap_negative :
    (w : World) (l : LeapSecondState)
    → handle_leap_indicator w 2 (free l) ≡ done false (free (leap_after w 2 l))
unfolding handle_leap_indicator
leap_negative w l = elim (Bool-cases l.event_scheduled) [
  | inl e ↦ rw (Lock.◌>>=◌, schedule_lem w 2 l, e)
  | inr e ↦ elim (Bool-cases (leap_second_get_end_of_minute_time w == 0)) [
    | inl f ↦ rw (Lock.◌>>=◌, schedule_lem w 2 l, e, f)
    | inr f ↦ rw (Lock.◌>>=◌, schedule_lem w 2 l, e, f)
  ]
]

pub handle_leap_indicator_lem :
    (w : World) (li : ℕ) (l : LeapSecondState)
    → handle_leap_indicator w li (free l) ≡ done (leb 3 li) (free (leap_after w li l))
unfolding handle_leap_indicator
handle_leap_indicator_lem w zero l = refl
handle_leap_indicator_lem w (suc zero) l = leap_positive w l
handle_leap_indicator_lem w (suc (suc zero)) l = leap_negative w l
handle_leap_indicator_lem w (suc (suc (suc n))) l = ground arith

-- The header of a response: the clock's where it is synchronised, else stratum 16, the alarm 3 and
-- "LOCL".
abbrev pub header_for : ClockState → Header
header_for k =
    if k.time_synced
    then synced_header k k.local_li k.local_stratum k.local_ref_id
    else unsynced_header k

-- The state of the mode handler behind an answer: the client is in the rate limit's table.
abbrev pub mode_after : ModeState → Env → PeerRequestData → ModeState
mode_after m env request = record m {
  rate_limit_entries =
      touched env.update_time (rate_limit_insert env.libc (some request.ip) m.rate_limit_entries);
}
