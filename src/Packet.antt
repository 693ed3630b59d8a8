-- ===== src/Packet.antt =====
-- ntp_packet.c: the NTP packet, its parser and the client's request.
-- A buffer is the list of its bytes beside the size that is passed with it (they may differ: a buffer
-- can be longer than what was received); null is `none`. A result `none` is a read outside the
-- buffer, or extension fields that never end. `pkt` is the packet the caller passes in and gets back.
pub mod Extension
pub mod Parse
pub mod Laws
pub mod Request
use dragon_ntpd.Base.{
  ℕ, ◌+◌, ◌/◌, ◌%◌, Bool, true, false, not, ◌&&◌, ◌||◌, List, Option, none, some, ltb, leb, ◌==◌,
  if◌then◌else◌, ◌>>=◌,
}
use dragon_ntpd.Base.Int.{ℤ, int8}

-- `NtpTimestamp` of ntpd.h
pub record NtpTimestamp : Type 0 where
  pub sec : ℕ
  pub frac : ℕ

-- `NtpPacket` of ntpd.h
pub record NtpPacket : Type 0 where
  pub li_vn_mode : ℕ
  pub stratum : ℕ
  pub poll : ℤ
  pub precision : ℤ
  pub root_delay : ℕ
  pub root_disp : ℕ
  pub ref_id : ℕ
  pub ref_ts : NtpTimestamp
  pub orig_ts : NtpTimestamp
  pub recv_ts : NtpTimestamp
  pub xmit_ts : NtpTimestamp
  pub extension_len : ℕ
  pub key_id : ℕ
  pub mac_digest : List ℕ

-- The masks and shifts of ntpd.h on the first byte: bits 6 and 7, bits 3 to 5, bits 0 to 2.
abbrev pub li_of : ℕ → ℕ
li_of b = b / 64 % 4

abbrev pub vn_of : ℕ → ℕ
vn_of b = b / 8 % 8

abbrev pub mode_of : ℕ → ℕ
mode_of b = b % 8

unfoldable pub ntp_is_kod : NtpPacket → Bool
ntp_is_kod pkt = (pkt.stratum == 127) && (li_of pkt.li_vn_mode == 3)
