-- ===== src/Algorithms.antt =====
-- ntp_algorithms.c: timestamps, the on-wire calculation and the small conversions.
-- Pointers are to objects that are there; the guards against null have no counterpart.
pub mod Laws
pub mod Selection
use dragon_ntpd.Base.{
  ℕ, ◌+◌, ◌-◌, ◌*◌, ◌/◌, ◌%◌, ◌^◌, Bool, true, false, not, ◌||◌, Option, none, some, ltb, leb, ◌==◌,
  if◌then◌else◌,
}
use dragon_ntpd.Base.Int.{ℤ, pos, negsuc, pos_part, ◌+ℤ◌, ◌-ℤ◌, ◌/ℤ◌, ltb_ℤ}
use dragon_ntpd.Packet.{NtpTimestamp}
use dragon_ntpd.Correction.{times, int64_max, int64_min}

-- `NTP_UNIX_EPOCH_DELTA`
abbrev pub epoch_delta : ℕ
epoch_delta = 2208988800

-- The second checks compare with INT64_MAX / 10^9 - 1 and INT64_MIN / 10^9 + 1.
unfoldable pub ntp_timestamp_to_ns : NtpTimestamp → ℤ
unfolding times ◌+ℤ◌ ◌-ℤ◌
ntp_timestamp_to_ns t =
    let sec = pos t.sec -ℤ pos epoch_delta in
    if ltb_ℤ (pos 9223372035) sec
    then int64_max
    else if ltb_ℤ sec (negsuc 9223372034)
    then int64_min
    else times sec 1000000000 +ℤ pos (t.frac * 1000000000 % 2 ^ 64 / 2 ^ 32)

-- The delay and the offset in microseconds, or none for the result false.
unfoldable pub calculate_delay_offset :
    NtpTimestamp → NtpTimestamp → NtpTimestamp → NtpTimestamp → Option (ℕ × ℤ)
unfolding ntp_timestamp_to_ns ◌+ℤ◌ ◌-ℤ◌ ◌/ℤ◌
calculate_delay_offset t1 t2 t3 t4 =
    let T1 = ntp_timestamp_to_ns t1 in
    let T2 = ntp_timestamp_to_ns t2 in
    let T3 = ntp_timestamp_to_ns t3 in
    let T4 = ntp_timestamp_to_ns t4 in
    let delay_ns = (T4 -ℤ T1) -ℤ (T3 -ℤ T2) in
    let offset_ns = ((T2 -ℤ T1) +ℤ (T3 -ℤ T4)) /ℤ 2 in
    if ltb_ℤ delay_ns (pos 0) then none else some (pos_part (delay_ns /ℤ 1000), offset_ns /ℤ 1000)

unfoldable pub ntp_local_stratum_from_peer : ℕ → ℕ
ntp_local_stratum_from_peer peer_stratum =
    if (peer_stratum == 0) || ltb 15 peer_stratum
    then 16
    else if ltb 15 (peer_stratum + 1)
    then 15
    else peer_stratum + 1

unfoldable pub ntp_u16_16_from_us : ℕ → ℕ
ntp_u16_16_from_us us =
    if ltb ((2 ^ 64 - 1) / 65536) us
    then 2 ^ 32 - 1
    else let v = us * 65536 % 2 ^ 64 / 1000000 in if ltb (2 ^ 32 - 1) v then 2 ^ 32 - 1 else v

unfoldable pub calculate_network_quality : ℕ → ℕ
unfolding ◌-ℤ◌
calculate_network_quality delay =
    let quality = pos 100 -ℤ pos (delay / 1000) in
    if ltb_ℤ quality (pos 0) then 0 else if ltb_ℤ (pos 100) quality then 100 else pos_part quality
