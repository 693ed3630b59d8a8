-- ===== src/Examples/Requests.antt =====
-- Concrete requests to socket.c.
use dragon_ntpd.Base.{ℕ, ◌≡◌, refl, List, [], ◌∷◌, some, none, arith, inl, replicate, true, false}
use dragon_ntpd.Base.Int.{pos, negsuc}
use dragon_ntpd.Examples.Negotiation.{idle}
use dragon_ntpd.Examples.Packets.{cleared}
use dragon_ntpd.Examples.Limits.{libc, start, client}
use dragon_ntpd.Examples.Clock.{world, ready}
use dragon_ntpd.Mode.{ModeState, default_config}
use dragon_ntpd.Mode.Network.{parse_ip}
use dragon_ntpd.Network4.{Net}
use dragon_ntpd.Packet.{ntp_is_kod}
use dragon_ntpd.Packet.Parse.{parse_ntp_packet}
use dragon_ntpd.Packet.Laws.{decoded}
use dragon_ntpd.Daemon.{ClockState, Sockets}
use dragon_ntpd.Server.{Env, PeerRequestData, dropped}
use dragon_ntpd.Server.Response.{make_response}
use dragon_ntpd.Server.Admission.{AnsweredOrDropped, handle_peer_request_thread_lem}
use dragon_ntpd.Server.Answer.{header_for}
use dragon_ntpd.Server.RoundTrip.{parse-make_response}
use dragon_ntpd.Server.Lifetime.{
  handle_client_request, use_it, free_it, handle_client_request-use_after_free, stop, first, second,
  run,
}

abbrev net : Net
net = record {
  socket = some 5;
  enable_option = true;
  sendto = λ sock response addr. some 48;
  inet_pton = λ text. some (libc.inet_addr text);
  htons = λ n. n;
  htonl = λ n. n;
  ntohl = λ n. n;
}

abbrev pub env : Env
env = record {
  libc = libc;
  pkt = cleared;
  world = world 1000;
  check_time = 100;
  update_time = 100;
  t2 = record { sec = 3900000000; frac = 1 };
  t3 = record { sec = 3900000000; frac = 2 };
  strtoul = λ text. record { value = 123; end = 3; out_of_range = false };
  net = net;
  broadcast_net = net;
  broadcast_time = 100;
  broadcast_mode = false;
  broadcast_interval = 64;
  broadcast_addr = none;
}

-- A server that serves everyone, and a clock as it is at the start.
abbrev pub everyone : ModeState
everyone = record start { config = record default_config { acl_default_policy = 0 } }

abbrev pub clock : ClockState
clock = record {
  time_synced = false;
  local_stratum = 16;
  local_ref_id = 0x4C4F434C;
  local_ref_ts = record { sec = 0; frac = 0 };
  local_root_delay = 0;
  local_root_disp = 0;
  local_li = 3;
  local_precision = negsuc 19;
  local_poll = pos 4;
  last_sync_ts = record { sec = 0; frac = 0 };
  last_dispersion_update = 0;
  samples = [];
  peer_pool = [];
}

abbrev pub sockets : Sockets
sockets = record { last_broadcast = 0; sync_sock = none }

-- A client's packet of version 4, and a control packet.
abbrev packet : List ℕ
packet = 35 ∷ 0 ∷ 6 ∷ 236 ∷ replicate 44 1

abbrev pub control : List ℕ
control = 38 ∷ 0 ∷ 6 ∷ 236 ∷ replicate 44 1

abbrev pub asked : PeerRequestData
asked = record { buffer = none; size = 48; ip = client; port = b'1' ∷ b'2' ∷ b'3' ∷ [] }

serve_example : AnsweredOrDropped idle everyone ready clock sockets env asked packet
unfolding parse_ip ntp_is_kod
serve_example =
    handle_peer_request_thread_lem idle everyone ready clock sockets env asked packet (omega arith)
      (omega arith) (inl (omega arith)) refl

response_example :
    parse_ntp_packet idle
      (some (make_response (header_for clock) 4 (decoded packet 48 cleared) env.t2 env.t3))
      48
      cleared
    ≡ some (
      true,
      record cleared {
        li_vn_mode = 228;
        stratum = 16;
        poll = pos 6;
        precision = negsuc 19;
        ref_id = 0x4C4F434C;
        orig_ts = record { sec = 16843009; frac = 16843009 };
        recv_ts = env.t2;
        xmit_ts = env.t3;
      },
      idle,
    )
unfolding ntp_is_kod
response_example =
    parse-make_response idle (header_for clock) 4 (decoded packet 48 cleared) env.t2 env.t3 cleared
      (record {
        li = omega arith;
        stratum = omega arith;
        ref_id = omega arith;
        ref_ts = (omega arith, omega arith);
        root_delay = omega arith;
        root_disp = omega arith;
        precision = (omega arith, omega arith);
      })
      (omega arith) (omega arith) (omega arith, omega arith) (omega arith, omega arith)
      (omega arith, omega arith) (omega arith, omega arith) refl

-- The caller frees between two reads of the thread.
lifetime_example : run true (use_it ∷ free_it ∷ use_it ∷ free_it ∷ []) ≡ none
unfolding handle_client_request
lifetime_example =
    handle_client_request-use_after_free
      (record { malloc_data = true; malloc_buffer = true; pthread_create = true }) packet 48
      (some client) (some (b'1' ∷ [])) dropped 2 (use_it ∷ free_it ∷ use_it ∷ free_it ∷ [])
      (record {
        caller = free_it ∷ [];
        thread = some (record { buffer = some packet; size = 48; ip = client; port = b'1' ∷ [] });
      })
      (record { buffer = some packet; size = 48; ip = client; port = b'1' ∷ [] }) refl refl refl
      (second (first (second (second stop))))
