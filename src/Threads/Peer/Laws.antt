-- ===== src/Threads/Peer/Laws.antt =====
-- When `handle_peer_request` answers.
use dragon_ntpd.Base.{
  ℕ, ◌≤◌, ◌≡◌, refl, inl, inr, Bool, true, false, not, ◌&&◌, List, some, ltb, leb, ◌==◌,
  if◌then◌else◌, length, get_or, ◌>>=◌, arith, Bool-cases, ◌∙◌, ap,
}
use dragon_ntpd.Base.Int.{pos}
use dragon_ntpd.Ido.{IdoState}
use dragon_ntpd.Packet.{NtpPacket, mode_of, ntp_is_kod}
use dragon_ntpd.Packet.Parse.{parse_ntp_packet}
use dragon_ntpd.Packet.Laws.{parse_ntp_packet_lem, well_formed, decoded}
use dragon_ntpd.Threads.{usable}
use dragon_ntpd.Threads.Peer.{
  Env, Peer, Peers, handle_peer_request, handle_packet, reply, refuse, zero_packet, packet_size,
}

-- At least the 80 bytes of the struct, a version, mode and stratum that the parser accepts, and mode 3.
abbrev pub is_served : List ℕ → ℕ → Bool
is_served buffer size =
    not (ltb size packet_size) && (well_formed buffer && (mode_of (get_or buffer 0 0) == 3))

judged :
    (e : Env) (peer : Peer) (good : Bool) (pkt : NtpPacket) (s : IdoState)
    → usable peer.sock_mutex ≡ true
    → handle_packet e peer (good, pkt, s)
      ≡ some (if good && (mode_of pkt.li_vn_mode == 3) then reply e peer pkt s else refuse s)
judged e peer false pkt s live = refl
judged e peer true pkt s live = elim (Bool-cases (mode_of pkt.li_vn_mode == 3)) [
  | inl client ↦ rw (client, live) refl
  | inr other ↦ rw other refl
]

parsed :
    (s : IdoState) (buffer : List ℕ) (size : ℕ)
    → size ≤ length buffer
    → 85 ≤ length buffer
    → 80 ≤ size
    → parse_ntp_packet s (some buffer) size zero_packet
      ≡ some (well_formed buffer, decoded buffer size zero_packet, s)
unfolding ntp_is_kod
parsed s buffer size fits mac long =
    let fresh : ltb size 48 ≡ false = ground arith in
    parse_ntp_packet_lem s buffer size zero_packet fits (inr mac) ∙ rw fresh refl

mode-decoded :
    (buffer : List ℕ) (size : ℕ) → (decoded buffer size zero_packet).li_vn_mode ≡ get_or buffer 0 0
mode-decoded buffer size = ground arith

pub handle_peer_request_lem :
    (e : Env) (s : IdoState) (peers : Peers) (buffer : List ℕ) (size i : ℕ)
    → i ≤ 7
    → size ≤ length buffer
    → 85 ≤ length buffer
    → usable (peers i).sock_mutex ≡ true
    → handle_peer_request e s peers buffer size (pos i)
      ≡ some (
          if is_served buffer size
          then reply e (peers i) (decoded buffer size zero_packet) s
          else refuse s)
unfolding handle_peer_request
handle_peer_request_lem e s peers buffer size i h fits mac live =
    let valid : leb 8 i ≡ false = ground arith in
    elim (Bool-cases (ltb size 80)) [
      | inl short ↦ rw (valid, short) refl
      | inr long ↦
          rw (valid, long)
            (ap (λ r. r >>= handle_packet e (peers i))
                (parsed s buffer size fits mac (ground arith))
              ∙ judged e (peers i) (well_formed buffer) (decoded buffer size zero_packet) s live
              ∙ ap
                  (λ b. some (
                    if well_formed buffer && (mode_of b == 3)
                    then reply e (peers i) (decoded buffer size zero_packet) s
                    else refuse s))
                  (mode-decoded buffer size))
    ]
