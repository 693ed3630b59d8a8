-- ===== src/Sync/Commit.antt =====
-- time_sync.c: what `sync_ntp_time` does with a reply that passed its checks.
use dragon_ntpd.Base.{
  ℕ, ◌+◌, ◌-◌, ◌^◌, ◌&&◌, List, Option, none, some, ltb, leb, ◌==◌, if◌then◌else◌, length, Status,
  ok, error,
}
use dragon_ntpd.Base.Int.{ℤ, pos_part, neg_part}
use dragon_ntpd.Base.Lock
use dragon_ntpd.Algorithms.{ntp_u16_16_from_us}
use dragon_ntpd.Correction.{Os, apply_time_correction_slew_or_step}
use dragon_ntpd.Filter.{NtpSample}
use dragon_ntpd.Leap.{World, leap_second_check_and_apply}
use dragon_ntpd.Leap.Files.{leap_second_check_file}
use dragon_ntpd.Daemon.{ClockState, M, ◌>>=◌, ◌>>◌, pure, on_clock, on_mode, on_leap}
use dragon_ntpd.Sync.Poll.{adjust_poll_interval}
use dragon_ntpd.Sync.Examine.{Accepted}

-- The floating-point parts, and the calls they make: the standard deviation of the offsets, the
-- frequency discipline, the microseconds of the new dispersion from the elapsed seconds, the offset
-- and the jitter. Then the clock at two calls, `inet_pton`, and the correction by a leap second.
pub record Discipline : Type 0 where
  pub deviation : List NtpSample → ℕ
  pub update_frequency : ClockState → ℤ → ℤ → ℕ → Status
  pub dispersion : ℕ → ℕ → ℕ → ℕ
  pub now : ℕ
  pub inet_pton : List ℕ → Option ℕ
  pub leap_correction : ℤ → Status

-- `g_mutex` is locked here, also where the caller holds it.
unfoldable pub ntp_offset_jitter_us_locked : Discipline → Lock.M ClockState ℕ
ntp_offset_jitter_us_locked x l =
    Lock.◌>>=◌ Lock.lock
      (λ u. Lock.◌>>=◌ Lock.get (λ k.
        Lock.◌>>=◌ Lock.unlock
          (λ v. Lock.pure (if leb (length k.samples) 1 then 0 else x.deviation k.samples))))
      l

unfoldable pub update_frequency_discipline : Discipline → ℤ → ℤ → M Status
update_frequency_discipline x offset_us poll_exp = do
  on_clock Lock.lock
  jitter_us ← on_clock (ntp_offset_jitter_us_locked x)
  k ← on_clock Lock.get
  on_clock Lock.unlock
  pure (x.update_frequency k offset_us poll_exp jitter_us)

unfoldable pub update_root_dispersion : Discipline → ℕ → ℕ → ℕ → M ℕ
update_root_dispersion x current_disp offset_us jitter_us = do
  on_clock Lock.lock
  k ← on_clock Lock.get
  on_clock (Lock.modify (λ (k : ClockState). record k { last_dispersion_update = x.now }))
  on_clock Lock.unlock
  (if k.last_dispersion_update == 0
      then pure current_disp
      else pure (
          ntp_u16_16_from_us (
            x.dispersion
              (if ltb x.now k.last_dispersion_update then 0 else x.now - k.last_dispersion_update)
              (if ltb (2 ^ 32 - 1) offset_us then 2 ^ 32 - 1 else offset_us) jitter_us)))

-- 0x4C4F434C is "LOCL".
abbrev pub ref_id_for : Discipline → ClockState → List ℕ → ℕ
ref_id_for x k ip =
    if k.time_synced && leb 2 k.local_stratum
    then elim (x.inet_pton ip) [ none ↦ 0x4C4F434C | some address ↦ address ]
    else 0x4C4F434C

unfoldable pub leap_second_integration_check : Discipline → World → M Status
leap_second_integration_check x w = do
  checked ← on_leap (leap_second_check_file w)
  elim checked [
    | error ↦ pure error
    | ok ↦ on_leap (leap_second_check_and_apply x.leap_correction w)
  ]

-- The new state of the clock, under `g_mutex`, and the check for a leap second.
unfoldable pub finish : Discipline → World → List ℕ → Accepted → M Status
finish x w ip a = do
  on_clock Lock.lock
  on_clock (
      Lock.modify (λ (k : ClockState). record k {
        time_synced = leb a.stratum 15;
        local_stratum = a.stratum;
        last_sync_ts = a.t4;
        local_ref_ts = a.t4;
        local_root_delay = ntp_u16_16_from_us a.delay_us;
      }))
  jitter_us ← on_clock (ntp_offset_jitter_us_locked x)
  k ← on_clock Lock.get
  root_disp ←
      update_root_dispersion x k.local_root_disp (pos_part a.offset_us + neg_part a.offset_us)
        jitter_us
  on_clock (
      Lock.modify (λ (k : ClockState). record k {
        local_root_disp = root_disp;
        local_li = a.li;
        local_ref_id = ref_id_for x k ip;
      }))
  on_clock Lock.unlock
  _ ← leap_second_integration_check x w
  pure ok

-- `g_mutex` is released here, though it was not taken. The result of the correction is only logged.
unfoldable pub commit : Discipline → Os → World → List ℕ → Accepted → M Status
commit x os w ip a = do
  on_clock (
      Lock.modify (λ (k : ClockState). record k {
        local_poll = adjust_poll_interval k.local_poll a.peer_poll a.delay_us a.offset_us;
      }))
  on_clock Lock.unlock
  _ ← on_mode (apply_time_correction_slew_or_step os a.offset_us)
  k ← on_clock Lock.get
  _ ← update_frequency_discipline x a.offset_us k.local_poll
  finish x w ip a
