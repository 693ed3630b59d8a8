-- ===== src/Server/RoundTrip.antt =====
-- What the parser of ntp_packet.c reads in a response of socket.c.
use dragon_ntpd.Base.{
  ℕ, ◌+◌, ◌*◌, ◌/◌, ◌%◌, ◌≤◌, ◌<◌, ◌^◌, ◌≡◌, true, false, some, arith, ◌∙◌, inl, leb, ◌==◌,
}
use dragon_ntpd.Ido.{IdoState}
use dragon_ntpd.Packet.{NtpPacket, NtpTimestamp, ntp_is_kod}
use dragon_ntpd.Packet.Parse.{parse_ntp_packet}
use dragon_ntpd.Packet.Laws.{parse_ntp_packet_lem}
use dragon_ntpd.Packet.Request.{IsInt8, IsStamp, int8-uint8, word_bytes}
use dragon_ntpd.Server.Response.{Header, make_response}

-- The fields have the widths of their types, the indicator is one of the four and the stratum one of
-- those that the parser accepts.
pub record IsHeader (out : Header) : Type 0 where
  pub li : out.li < 4
  pub stratum : out.stratum ≤ 16
  pub ref_id : out.ref_id < 2 ^ 32
  pub ref_ts : IsStamp out.ref_ts
  pub root_delay : out.root_delay < 2 ^ 32
  pub root_disp : out.root_disp < 2 ^ 32
  pub precision : IsInt8 out.precision

first_byte :
    (li mode : ℕ)
    → li < 4
    → 1 ≤ mode
    → mode ≤ 7
    → ((li % 4 * 64 + 32 + mode) / 8 % 8 ≡ 4)
      × ((li % 4 * 64 + 32 + mode) % 8 ≡ mode)
      × (li % 4 ≡ li)
first_byte li mode h₁ h₂ h₃ = (omega arith, omega arith, omega arith)

-- The parser accepts every response with a header of these widths and a mode from 1 to 7, and finds in
-- it what was put there: version 4 with the leap indicator and the mode, the header's fields, the poll
-- exponent of the request, the request's transmit time as the originate time, and the two times of
-- the call as receive and transmit time.
pub parse-make_response :
    (s : IdoState) (out : Header) (mode : ℕ) (request : NtpPacket) (t2 t3 : NtpTimestamp)
    (pkt : NtpPacket)
    → IsHeader out
    → 1 ≤ mode
    → mode ≤ 7
    → IsInt8 request.poll
    → IsStamp request.xmit_ts
    → IsStamp t2
    → IsStamp t3
    → ntp_is_kod pkt ≡ false
    → parse_ntp_packet s (some (make_response out mode request t2 t3)) 48 pkt
      ≡ some (
        true,
        record pkt {
          li_vn_mode = out.li * 64 + 32 + mode;
          stratum = out.stratum;
          poll = request.poll;
          precision = out.precision;
          root_delay = out.root_delay;
          root_disp = out.root_disp;
          ref_id = out.ref_id;
          ref_ts = out.ref_ts;
          orig_ts = request.xmit_ts;
          recv_ts = t2;
          xmit_ts = t3;
        },
        s,
      )
unfolding make_response
parse-make_response s out mode request t2 t3 pkt h low high poll xmit it2 it3 fresh =
    let (v, m, l) = first_byte out.li mode h.li low high in
    let in_range : leb out.stratum 16 ≡ true = let x = h.stratum in ground arith in
    let nonzero : (mode == 0) ≡ false = ground arith in
    parse_ntp_packet_lem s (make_response out mode request t2 t3) 48 pkt (omega arith)
      (inl (omega arith))
    ∙ rw (
      fresh,
      v,
      m,
      l,
      nonzero,
      in_range,
      int8-uint8 request.poll poll,
      int8-uint8 out.precision h.precision,
      word_bytes out.root_delay h.root_delay,
      word_bytes out.root_disp h.root_disp,
      word_bytes out.ref_id h.ref_id,
      word_bytes out.ref_ts.sec h.ref_ts.0,
      word_bytes out.ref_ts.frac h.ref_ts.1,
      word_bytes request.xmit_ts.sec xmit.0,
      word_bytes request.xmit_ts.frac xmit.1,
      word_bytes t2.sec it2.0,
      word_bytes t2.frac it2.1,
      word_bytes t3.sec it3.0,
      word_bytes t3.frac it3.1,
    )
