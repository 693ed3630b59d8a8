-- ===== src/Server/Response.antt =====
-- The 48 bytes of a response, as `handle_peer_request_thread` of socket.c stores them.
use dragon_ntpd.Base.{ℕ, ◌+◌, ◌*◌, ◌%◌, List, replicate, set}
use dragon_ntpd.Base.Int.{ℤ, uint8}
use dragon_ntpd.Bytes.{write_u32be}
use dragon_ntpd.Packet.{NtpPacket, NtpTimestamp}

-- The `out_` variables, and the precision.
pub record Header : Type 0 where
  pub li : ℕ
  pub stratum : ℕ
  pub ref_id : ℕ
  pub ref_ts : NtpTimestamp
  pub root_delay : ℕ
  pub root_disp : ℕ
  pub precision : ℤ

abbrev pub write_timestamp : List ℕ → ℕ → NtpTimestamp → List ℕ
unfolding write_u32be
write_timestamp p i t = write_u32be (write_u32be p i t.sec) (i + 4) t.frac

-- NTP_VN_4 at bit 3 is 32. The joined bits of the first byte do not overlap, so the model adds.
unfoldable pub make_response : Header → ℕ → NtpPacket → NtpTimestamp → NtpTimestamp → List ℕ
unfolding write_u32be
make_response out response_mode pkt t2 t3 =
    let p₀ = set (replicate 48 0) 0 (out.li % 4 * 64 + 32 + response_mode) in
    let p₁ = set (set (set p₀ 1 out.stratum) 2 (uint8 pkt.poll)) 3 (uint8 out.precision) in
    let p₂ = write_u32be (write_u32be p₁ 4 out.root_delay) 8 out.root_disp in
    let p₃ = write_u32be p₂ 12 out.ref_id in
    let p₄ = write_timestamp (write_timestamp p₃ 16 out.ref_ts) 24 pkt.xmit_ts in
    write_timestamp (write_timestamp p₄ 32 t2) 40 t3
