-- ===== src/Packet/Request.antt =====
-- `create_ntp_request` of ntp_packet.c, and the parser on what it makes.
use dragon_ntpd.Base.{
  ℕ, ◌+◌, ◌*◌, ◌/◌, ◌%◌, ◌≤◌, ◌<◌, ◌^◌, ◌≡◌, true, false, List, ◌++◌, Option, none, some, ltb,
  if◌then◌else◌, arith, ◌∙◌, ap, inl, le→not-ltb, length, length-drop, drop, replicate, set,
}
use dragon_ntpd.Base.Int.{ℤ, pos, negsuc, pos_part, neg_part, ltb_ℤ, int8, uint8}
use dragon_ntpd.Bytes.{write_u32be}
use dragon_ntpd.Ido.{IdoState}
use dragon_ntpd.Packet.{NtpPacket, NtpTimestamp, ntp_is_kod}
use dragon_ntpd.Packet.Parse.{parse_ntp_packet}
use dragon_ntpd.Packet.Laws.{parse_ntp_packet_lem}

-- `li` 0, version 4, mode 3 (client)
abbrev pub request_byte : ℕ
request_byte = 35

-- The stores into the cleared buffer.
abbrev fill : ℤ → ℤ → NtpTimestamp → List ℕ → List ℕ
unfolding write_u32be
fill local_poll local_precision t1 p₀ =
    let p₁ = set (set p₀ 0 request_byte) 1 0 in
    let p₂ = set p₁ 2 (uint8 (if ltb_ℤ local_poll (pos 0) then pos 12 else local_poll)) in
    let p₃ = set p₂ 3 (uint8 local_precision) in write_u32be (write_u32be p₃ 40 t1.sec) 44 t1.frac

-- `t1` is `ntp_timestamp_now()`. A null buffer is left alone; one shorter than 48 bytes is a fault. The
-- result is the buffer and `*xmit_out`.
unfoldable pub create_ntp_request :
    ℤ → ℤ → NtpTimestamp → Option (List ℕ) → Option (Option (List ℕ × NtpTimestamp))
unfolding write_u32be
create_ntp_request local_poll local_precision t1 none = some none
create_ntp_request local_poll local_precision t1 (some buffer) =
    if ltb (length buffer) 48
    then none
    else some (some (fill local_poll local_precision t1 (replicate 48 0 ++ drop 48 buffer), t1))

-- An `int8_t` and a 32-bit timestamp.
abbrev pub IsInt8 : ℤ → Type 0
IsInt8 z = (pos_part z ≤ 127) × (neg_part z ≤ 128)

abbrev pub IsStamp : NtpTimestamp → Type 0
IsStamp t = (t.sec < 2 ^ 32) × (t.frac < 2 ^ 32)

pub int8-uint8 : (z : ℤ) → IsInt8 z → int8 (uint8 z) ≡ z
int8-uint8 (pos n) h = ground arith
int8-uint8 (negsuc n) h = ground arith

-- The poll exponent of the request.
abbrev pub request_poll : ℤ → ℤ
request_poll poll = if ltb_ℤ poll (pos 0) then pos 12 else poll

request_poll-IsInt8 : (z : ℤ) → IsInt8 z → IsInt8 (request_poll z)
request_poll-IsInt8 (pos n) h = ground arith
request_poll-IsInt8 (negsuc n) h = ground arith

-- A word is the sum of its four bytes.
pub word_bytes :
    (v : ℕ)
    → v < 2 ^ 32
    → v / 2 ^ 24 % 256 * 2 ^ 24 + v / 2 ^ 16 % 256 * 2 ^ 16 + v / 2 ^ 8 % 256 * 2 ^ 8 + v % 256 ≡ v
word_bytes v h = omega arith

-- The parser accepts the request and finds in it what was put there: a client packet of version 4 that
-- carries the precision, the poll exponent (12 in place of a negative one) and `t1` as its transmit
-- time, and zero everywhere else.
pub parse-create_ntp_request :
    (s : IdoState) (poll precision : ℤ) (t1 : NtpTimestamp) (buffer : List ℕ) (pkt : NtpPacket)
    → IsInt8 poll
    → IsInt8 precision
    → IsStamp t1
    → 48 ≤ length buffer
    → ntp_is_kod pkt ≡ false
    → (request : List ℕ) × (create_ntp_request poll precision t1 (some buffer)
        ≡ some (some (request, t1)))
      × (length request ≡ length buffer)
      × (parse_ntp_packet s (some request) 48 pkt
          ≡ some (
            true,
            record pkt {
              li_vn_mode = 35;
              stratum = 0;
              poll = request_poll poll;
              precision = precision;
              root_delay = 0;
              root_disp = 0;
              ref_id = 0;
              ref_ts = record { sec = 0; frac = 0 };
              orig_ts = record { sec = 0; frac = 0 };
              recv_ts = record { sec = 0; frac = 0 };
              xmit_ts = t1;
            },
            s,
          ))
unfolding create_ntp_request
parse-create_ntp_request s poll precision t1 buffer pkt ip iprec it long fresh = (
  fill poll precision t1 (replicate 48 0 ++ drop 48 buffer),
  rw (le→not-ltb (length buffer) 48 long),
  omega (arith, length-drop 48 buffer),
  parse_ntp_packet_lem s (fill poll precision t1 (replicate 48 0 ++ drop 48 buffer)) 48 pkt
        (omega arith) (inl (omega arith))
      ∙ rw fresh (
          ap (λ p. some (true, p, s))
            (rw (
              int8-uint8 (request_poll poll) (request_poll-IsInt8 poll ip),
              int8-uint8 precision iprec,
              word_bytes t1.sec it.0,
              word_bytes t1.frac it.1,
            ))),
)
