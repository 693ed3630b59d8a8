-- ===== src/Examples/Packets.antt =====
-- Concrete packets through ntp_packet.c and the search for a MAC.
use dragon_ntpd.Base.{ℕ, ◌≡◌, ◌++◌, refl, List, ◌∷◌, some, arith, length, inl, replicate, true}
use dragon_ntpd.Base.Int.{pos, negsuc}
use dragon_ntpd.Examples.Negotiation.{idle}
use dragon_ntpd.Packet.{NtpPacket, ntp_is_kod}
use dragon_ntpd.Packet.Parse.{parse_ntp_packet}
use dragon_ntpd.Packet.Laws.{parse_ntp_packet_lem, header_of}
use dragon_ntpd.Packet.Request.{create_ntp_request, parse-create_ntp_request}

abbrev pub cleared : NtpPacket
cleared = record {
  li_vn_mode = 0;
  stratum = 0;
  poll = pos 0;
  precision = pos 0;
  root_delay = 0;
  root_disp = 0;
  ref_id = 0;
  ref_ts = record { sec = 0; frac = 0 };
  orig_ts = record { sec = 0; frac = 0 };
  recv_ts = record { sec = 0; frac = 0 };
  xmit_ts = record { sec = 0; frac = 0 };
  extension_len = 0;
  key_id = 0;
  mac_digest = replicate 20 0;
}

-- A server's reply of stratum 2, and the same with `n` bytes behind the header.
abbrev pub reply : List ℕ
reply = 36 ∷ 2 ∷ 6 ∷ 236 ∷ replicate 44 1

abbrev longer : ℕ → List ℕ
longer n = reply ++ replicate n 8

parse_example :
    parse_ntp_packet idle (some reply) 48 cleared ≡ some (true, header_of reply cleared, idle)
unfolding ntp_is_kod
parse_example = parse_ntp_packet_lem idle reply 48 cleared (omega arith) (inl (omega arith))

request_example :
    (request : List ℕ) × (create_ntp_request
        (pos 6)
        (negsuc 19)
        (record { sec = 3900000000; frac = 7 })
        (some (longer 20))
      ≡ some (some (request, record { sec = 3900000000; frac = 7 })))
    × (length request ≡ 68)
    × (parse_ntp_packet idle (some request) 48 cleared
        ≡ some (
          true,
          record cleared {
            li_vn_mode = 35;
            poll = pos 6;
            precision = negsuc 19;
            xmit_ts = record { sec = 3900000000; frac = 7 };
          },
          idle,
        ))
unfolding ntp_is_kod
request_example =
    parse-create_ntp_request idle (pos 6) (negsuc 19) (record { sec = 3900000000; frac = 7 })
      (longer 20) cleared (omega arith) (omega arith) (omega arith) (omega arith) refl
