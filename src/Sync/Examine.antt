-- ===== src/Sync/Examine.antt =====
-- time_sync.c: the checks of `sync_ntp_time` on a reply, up to the filter.
use dragon_ntpd.Base.{
  ℕ, ◌+◌, ◌*◌, Bool, false, not, ◌&&◌, ◌||◌, List, [], ◌∷◌, Option, none, some, ltb, ◌==◌,
  if◌then◌else◌,
}
use dragon_ntpd.Base.Int.{ℤ, pos_part, neg_part}
use dragon_ntpd.Base.Lock
use dragon_ntpd.Algorithms.{calculate_delay_offset, ntp_local_stratum_from_peer}
use dragon_ntpd.Algorithms.Selection.{compute_system_offset}
use dragon_ntpd.Filter.{marx_add_sample_us}
use dragon_ntpd.Filter.Outliers.{marx_filter_outliers}
use dragon_ntpd.Leap.{World, handle_leap_indicator}
use dragon_ntpd.Packet.{NtpPacket, NtpTimestamp, li_of, mode_of, ntp_is_kod}
use dragon_ntpd.Packet.Parse.{parse_ntp_packet}
use dragon_ntpd.Daemon.{
  ClockState, M, ◌>>=◌, ◌>>◌, pure, unless_fault, on_clock, on_leap, on_samples,
}

-- The time of arrival, what stands in `pkt` before it is filled, the clock calls of leap_second.c, and
-- the answer of `gettimeofday`, seconds and microseconds.
pub record Reply : Type 0 where
  pub t4 : NtpTimestamp
  pub pkt : NtpPacket
  pub world : World
  pub gettimeofday : Option (ℕ × ℕ)

-- What the rest of the call needs of an accepted reply.
pub record Accepted : Type 0 where
  pub li : ℕ
  pub stratum : ℕ
  pub peer_poll : ℤ
  pub delay_us : ℕ
  pub offset_us : ℤ
  pub t4 : NtpTimestamp

pub data Examined : Type 0 where
  rejected : Examined
  accepted : Accepted → Examined

-- MAXDIST
abbrev pub maxdist : ℕ
maxdist = 1000000

abbrev pub unsynced_16 : ClockState → ClockState
unsynced_16 k = record k { local_stratum = 16; time_synced = false }

abbrev pub unsynced : ClockState → ClockState
unsynced k = record k { time_synced = false }

-- The result -1 with the clock no longer synchronised, with and without a change of the stratum.
abbrev pub unsynchronise : M Examined
unsynchronise = do
  on_clock Lock.lock
  on_clock (Lock.modify unsynced_16)
  on_clock Lock.unlock
  pure rejected

abbrev pub unsynchronise_only : M Examined
unsynchronise_only = do
  on_clock Lock.lock
  on_clock (Lock.modify unsynced)
  on_clock Lock.unlock
  pure rejected

abbrev pub same_stamp : NtpTimestamp → NtpTimestamp → Bool
same_stamp a b = (a.sec == b.sec) && (a.frac == b.frac)

-- The sample goes to the filter where the time of day can be read.
abbrev pub add_sample : Option (ℕ × ℕ) → ℕ → ℤ → M (Unit {0})
add_sample none delay_us offset_us = pure tt
add_sample (some (sec, usec)) delay_us offset_us =
    on_samples (marx_add_sample_us (sec * 1000000000 + usec * 1000) delay_us offset_us)

abbrev pub accepted_of : Reply → NtpPacket → ℕ → ℤ → Accepted
accepted_of reply pkt delay_us offset_us = record {
  li = li_of pkt.li_vn_mode;
  stratum = ntp_local_stratum_from_peer pkt.stratum;
  peer_poll = pkt.poll;
  delay_us = delay_us;
  offset_us = offset_us;
  t4 = reply.t4;
}

-- Behind the calculation of delay and offset. `compute_system_offset` is called for the log alone.
unfoldable pub examine_sample : Reply → NtpPacket → ℕ → ℤ → M Examined
examine_sample reply pkt delay_us offset_us =
    if (pkt.stratum == 0) || ltb 15 pkt.stratum
    then unsynchronise
    else if ltb maxdist (pos_part offset_us + neg_part offset_us)
    then unsynchronise
    else if ltb (maxdist * 10) delay_us
    then unsynchronise_only
    else unless_fault (compute_system_offset (offset_us ∷ []) 1) (λ system_offset. do
      add_sample reply.gettimeofday delay_us offset_us
      valid_count ← on_samples (marx_filter_outliers 3)
      (if valid_count == 0
          then unsynchronise_only
          else pure (accepted (accepted_of reply pkt delay_us offset_us))))

-- The checks of the header, on a packet that the parser accepts.
unfoldable pub examine_packet : Reply → NtpPacket → NtpTimestamp → M Examined
examine_packet reply pkt t1 = do
  skip ← on_leap (handle_leap_indicator reply.world (li_of pkt.li_vn_mode))
  (if skip
      then pure rejected
      else if not (mode_of pkt.li_vn_mode == 4)
      then pure rejected
      else if ntp_is_kod pkt
      then pure rejected
      else if not (same_stamp pkt.orig_ts t1)
      then pure rejected
      else if (pkt.xmit_ts.sec == 0) && (pkt.xmit_ts.frac == 0)
      then pure rejected
      else elim (calculate_delay_offset t1 pkt.recv_ts pkt.xmit_ts reply.t4) [
        | none ↦ pure rejected
        | some (delay_us, offset_us) ↦ examine_sample reply pkt delay_us offset_us
      ])

unfoldable pub examine : Reply → List ℕ → ℕ → NtpTimestamp → M Examined
examine reply buffer recv_len t1 d =
    unless_fault (parse_ntp_packet d.ido (some buffer) recv_len reply.pkt)
      (λ (parsed, pkt, ido) d'.
        (if parsed then examine_packet reply pkt t1 else pure rejected) (record d' { ido = ido }))
      d
