-- ===== src/Packet/Parse.antt =====
-- `parse_ntp_packet` of ntp_packet.c.
use dragon_ntpd.Base.{
  ℕ, ◌+◌, Bool, true, false, not, ◌||◌, List, Option, none, some, ltb, ◌==◌, if◌then◌else◌, ◌>>=◌,
  drop,
}
use dragon_ntpd.Base.Int.{int8}
use dragon_ntpd.Bytes.{read, read_u32be}
use dragon_ntpd.Ido.{IdoState}
use dragon_ntpd.Autokey.Keys.{read_bytes, digest_size}
use dragon_ntpd.Packet.{NtpPacket, NtpTimestamp, li_of, vn_of, mode_of, ntp_is_kod}
use dragon_ntpd.Packet.Extension.{skip_extension_fields}

unfoldable pub read_timestamp : List ℕ → ℕ → Option NtpTimestamp
read_timestamp bytes i = do
  s ← read_u32be bytes i
  f ← read_u32be bytes (i + 4)
  some (record { sec = s; frac = f })

-- The 48 bytes of the header.
unfoldable pub read_header : List ℕ → NtpPacket → Option NtpPacket
read_header bytes pkt = do
  b₀ ← read bytes 0
  b₁ ← read bytes 1
  b₂ ← read bytes 2
  b₃ ← read bytes 3
  delay ← read_u32be bytes 4
  disp ← read_u32be bytes 8
  id ← read_u32be bytes 12
  reference ← read_timestamp bytes 16
  origin ← read_timestamp bytes 24
  receive ← read_timestamp bytes 32
  transmit ← read_timestamp bytes 40
  some (record pkt {
    li_vn_mode = b₀;
    stratum = b₁;
    poll = int8 b₂;
    precision = int8 b₃;
    root_delay = delay;
    root_disp = disp;
    ref_id = id;
    ref_ts = reference;
    orig_ts = origin;
    recv_ts = receive;
    xmit_ts = transmit;
  })

-- The MAC behind the header.
unfoldable pub read_mac : List ℕ → ℕ → NtpPacket → Option NtpPacket
read_mac bytes size pkt =
    if ltb 68 size
    then (do
      id ← read bytes 64
      digest ← read_bytes digest_size (drop 65 bytes)
      some (record pkt { key_id = id; mac_digest = digest }))
    else some pkt

-- The checks at the end, on the parsed packet.
unfoldable pub header_accepted : NtpPacket → Bool
header_accepted pkt =
    if not (vn_of pkt.li_vn_mode == 4)
    then false
    else if (mode_of pkt.li_vn_mode == 0) || ltb 7 (mode_of pkt.li_vn_mode)
    then false
    else if ltb 3 (li_of pkt.li_vn_mode)
    then false
    else if ltb 16 pkt.stratum
    then false
    else true

-- The C result, the packet and the negotiation state.
unfoldable pub parse_ntp_packet :
    IdoState → Option (List ℕ) → ℕ → NtpPacket → Option (Bool × NtpPacket × IdoState)
parse_ntp_packet s none size pkt = some (false, pkt, s)
parse_ntp_packet s (some bytes) size pkt = if ltb size 48 then some (false, pkt, s) else (do
  skipped ← skip_extension_fields bytes size s
  if ntp_is_kod pkt then some (false, pkt, skipped.1) else (do
    header ← read_header bytes pkt
    full ← read_mac bytes size header
    some (header_accepted full, full, skipped.1)))
