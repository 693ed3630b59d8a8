-- ===== src/Packet/Laws.antt =====
-- What `skip_extension_fields` and `parse_ntp_packet` do on every buffer.
use dragon_ntpd.Base.{
  ℕ, zero, suc, ◌+◌, ◌≤◌, ◌<◌, ◌≡◌, refl, ◌⊎◌, Bool, true, false, not, ◌&&◌, List, none, some, ltb,
  leb, ◌==◌, if◌then◌else◌, arith, length, get_or, get_elem?-eq-get_or, take, drop, length-drop,
  not-ltb→le, le→not-ltb, lt→ltb, Bool-cases, inl, inr,
}
use dragon_ntpd.Base.Int.{int8}
use dragon_ntpd.Bytes.Laws.{word_at, read_u32be-eq-word_at}
use dragon_ntpd.Ido.{IdoState}
use dragon_ntpd.Autokey.Valid.{read_bytes-eq-take, read_bytes-eq-none}
use dragon_ntpd.Packet.{NtpPacket, NtpTimestamp, vn_of, mode_of, ntp_is_kod}
use dragon_ntpd.Packet.Extension.{skip_extension_fields, skip_loop, parse_extension_field_header}
use dragon_ntpd.Packet.Parse.{
  read_timestamp, read_header, read_mac, header_accepted, parse_ntp_packet,
}

loop_stops :
    (n : ℕ) (bytes : List ℕ) (size : ℕ) (s : IdoState)
    → skip_loop (suc n) bytes size 48 0 s ≡ some (0, s)
unfolding skip_loop parse_extension_field_header
loop_stops n bytes size s = ground arith

-- On every buffer and for every size `skip_extension_fields` ends, reads nothing outside the buffer,
-- answers that no byte was skipped, and leaves the negotiation state as it was: no extension field is
-- ever handled.
pub skip_extension_fields_lem :
    (bytes : List ℕ) (size : ℕ) (s : IdoState) → skip_extension_fields bytes size s ≡ some (0, s)
unfolding skip_extension_fields
skip_extension_fields_lem bytes zero s = refl
skip_extension_fields_lem bytes (suc n) s = ground (arith, loop_stops n bytes (suc n) s)

abbrev timestamp_at : List ℕ → ℕ → NtpTimestamp
timestamp_at d i = record { sec = word_at d i; frac = word_at d (i + 4) }

read_timestamp-eq :
    (d : List ℕ) (i : ℕ) → i + 8 ≤ length d → read_timestamp d i ≡ some (timestamp_at d i)
unfolding read_timestamp
read_timestamp-eq d i h =
    rw (read_u32be-eq-word_at d i (omega arith), read_u32be-eq-word_at d (i + 4) (omega arith))

-- The layout of the header (RFC 5905, section 7.3): what stands at which byte.
abbrev pub header_of : List ℕ → NtpPacket → NtpPacket
header_of d pkt = record pkt {
  li_vn_mode = get_or d 0 0;
  stratum = get_or d 1 0;
  poll = int8 (get_or d 2 0);
  precision = int8 (get_or d 3 0);
  root_delay = word_at d 4;
  root_disp = word_at d 8;
  ref_id = word_at d 12;
  ref_ts = timestamp_at d 16;
  orig_ts = timestamp_at d 24;
  recv_ts = timestamp_at d 32;
  xmit_ts = timestamp_at d 40;
}

pub read_header-eq :
    (d : List ℕ) (pkt : NtpPacket) → 48 ≤ length d → read_header d pkt ≡ some (header_of d pkt)
unfolding read_header
read_header-eq d pkt h = rw (
  get_elem?-eq-get_or d 0 0 (omega arith),
  get_elem?-eq-get_or d 1 0 (omega arith),
  get_elem?-eq-get_or d 2 0 (omega arith),
  get_elem?-eq-get_or d 3 0 (omega arith),
  read_u32be-eq-word_at d 4 (omega arith),
  read_u32be-eq-word_at d 8 (omega arith),
  read_u32be-eq-word_at d 12 (omega arith),
  read_timestamp-eq d 16 (omega arith),
  read_timestamp-eq d 24 (omega arith),
  read_timestamp-eq d 32 (omega arith),
  read_timestamp-eq d 40 (omega arith),
)

-- The packet after parsing: the header, and behind 68 bytes the key id and the digest.
abbrev pub decoded : List ℕ → ℕ → NtpPacket → NtpPacket
decoded d size pkt =
    if ltb 68 size
    then record (header_of d pkt) { key_id = get_or d 64 0; mac_digest = take 20 (drop 65 d) }
    else header_of d pkt

read_mac-eq :
    (d : List ℕ) (size : ℕ) (pkt : NtpPacket)
    → (size ≤ 68) ⊎ (85 ≤ length d)
    → read_mac d size pkt
      ≡ some (
          if ltb 68 size
          then record pkt { key_id = get_or d 64 0; mac_digest = take 20 (drop 65 d) }
          else pkt)
unfolding read_mac
read_mac-eq d size pkt h = elim (Bool-cases (ltb 68 size)) [
  | inl large ↦
      let there : 85 ≤ length d = ground arith in
      rw (
        large,
        get_elem?-eq-get_or d 64 0 (omega arith),
        read_bytes-eq-take 20 (drop 65 d) (rw length-drop (omega arith)),
      )
  | inr small ↦ rw small
]

-- The packets that the parser accepts.
abbrev pub well_formed : List ℕ → Bool
well_formed d =
    (vn_of (get_or d 0 0) == 4) && (not (mode_of (get_or d 0 0) == 0) && leb (get_or d 1 0) 16)

accepted-eq :
    (d : List ℕ) (size : ℕ) (pkt : NtpPacket) → header_accepted (decoded d size pkt) ≡ well_formed d
unfolding header_accepted
accepted-eq d size pkt = ground arith

-- A buffer of `size` bytes or more, and of 85 where `size` is above 68. With fewer than 48 bytes, or
-- with a packet passed in that looks like a kiss-o'-death, the parser answers false and leaves the
-- packet as it was. Otherwise it fills the packet by the layout of the header and answers true exactly
-- if the version is 4, the mode is not 0 and the stratum is at most 16. The negotiation state never
-- changes, and nothing outside the buffer is read.
pub parse_ntp_packet_lem :
    (s : IdoState) (d : List ℕ) (size : ℕ) (pkt : NtpPacket)
    → size ≤ length d
    → (size ≤ 68) ⊎ (85 ≤ length d)
    → parse_ntp_packet s (some d) size pkt
      ≡ some (
          if ltb size 48
          then (false, pkt, s)
          else if ntp_is_kod pkt
          then (false, pkt, s)
          else (well_formed d, decoded d size pkt, s))
unfolding parse_ntp_packet
parse_ntp_packet_lem s d size pkt fits mac = elim (Bool-cases (ltb size 48)) [
  | inl short ↦ rw short
  | inr long ↦ elim (Bool-cases (ntp_is_kod pkt)) [
    | inl kod ↦ rw (long, skip_extension_fields_lem, kod)
    | inr fresh ↦
        let enough : 48 ≤ length d = omega (arith, not-ltb→le size 48 long) in
        rw (
          long,
          skip_extension_fields_lem,
          fresh,
          read_header-eq d pkt enough,
          read_mac-eq d size (header_of d pkt) mac,
          accepted-eq d size pkt,
        )
  ]
]

-- No packet that the parser accepts, whatever the buffer and the sizes, is a kiss-o'-death by
-- `ntp_is_kod`.
pub accepted-not_kod :
    (s : IdoState) (d : List ℕ) (size : ℕ) (pkt : NtpPacket) {pkt' : NtpPacket} {s' : IdoState}
    → parse_ntp_packet s (some d) size pkt ≡ some (true, pkt', s')
    → ntp_is_kod pkt' ≡ false
unfolding parse_ntp_packet header_accepted ntp_is_kod
accepted-not_kod s d size pkt e = ground (arith, skip_extension_fields_lem d size s)

-- A buffer of 69 to 84 bytes that was received whole: unless the packet passed in looks like a
-- kiss-o'-death, the copy of the digest reads outside the buffer.
pub parse_ntp_packet-over_read :
    (s : IdoState) (d : List ℕ) (pkt : NtpPacket)
    → 68 < length d
    → length d < 85
    → ntp_is_kod pkt ≡ false
    → parse_ntp_packet s (some d) (length d) pkt ≡ none
unfolding parse_ntp_packet read_mac
parse_ntp_packet-over_read s d pkt lo hi fresh = rw (
  le→not-ltb (length d) 48 (omega arith),
  skip_extension_fields_lem,
  fresh,
  read_header-eq d pkt (omega arith),
  lt→ltb 68 (length d) lo,
  get_elem?-eq-get_or d 64 0 (omega arith),
  read_bytes-eq-none 20 (drop 65 d) (rw length-drop (omega arith)),
)
