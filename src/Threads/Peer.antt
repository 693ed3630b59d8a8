-- ===== src/Threads/Peer.antt =====
-- threads.c: the threads that receive requests.
-- `g_peer_ctx`, `g_peer_threads_running` and `g_peer_threads` are one table, by index. A descriptor that
-- is negative is `none`; one whose bytes are zero is 0. The size of `NtpPacket` is that of 64-bit hosts.
-- The address of a client is the contents of `client_addr_storage`; the reply is the struct that is handed
-- to `sendto`.
pub mod Laws
pub mod Loop
pub mod Lifetime
use dragon_ntpd.Base.{
  ℕ, Bool, true, false, not, List, [], ◌∷◌, Option, none, some, ltb, leb, ◌==◌, if◌then◌else◌,
  replicate, Status, ok, error, ◌>>=◌,
}
use dragon_ntpd.Base.Int.{ℤ, pos, negsuc}
use dragon_ntpd.Ido.{IdoState}
use dragon_ntpd.Network4.{SockAddr}
use dragon_ntpd.Packet.{NtpPacket, NtpTimestamp, mode_of}
use dragon_ntpd.Packet.Parse.{parse_ntp_packet}
use dragon_ntpd.Daemon.{ClockState}
use dragon_ntpd.Threads.{Object, zeroed, usable, Thread, absent}

-- `PeerThreadContext`, with the running flag and the handle of its thread. The state of the peer is its
-- place in the pool, none for a null pointer.
pub record Peer : Type 0 where
  pub idx : ℤ
  pub sock_fd : Option ℕ
  pub ip : List ℕ
  pub port : List ℕ
  pub sock_mutex : Object
  pub client_addr : SockAddr
  pub client_addr_len : ℕ
  pub peer_state : Option ℕ
  pub sock_valid : Bool
  pub running : Bool
  pub thread : Thread

abbrev pub Peers : Type 0
Peers = ℕ → Peer

abbrev pub set_peer : Peers → ℕ → Peer → Peers
set_peer peers i peer j = if j == i then peer else peers j

-- An entry whose bytes are zero, for a thread that runs or not.
abbrev pub zero_peer : Bool → Thread → Peer
zero_peer running thread = record {
  idx = pos 0;
  sock_fd = some 0;
  ip = [];
  port = [];
  sock_mutex = zeroed;
  client_addr = record { port = 0; address = 0 };
  client_addr_len = 0;
  peer_state = none;
  sock_valid = false;
  running = running;
  thread = thread;
}

-- The globals as the program starts.
abbrev pub g_peer_ctx : Peers
g_peer_ctx i = zero_peer false absent

-- `MAX_PEERS`
abbrev pub max_peers : ℕ
max_peers = 8

-- `sizeof(NtpPacket)`
abbrev pub packet_size : ℕ
packet_size = 80

-- An index that is neither negative nor `MAX_PEERS` or more.
abbrev pub valid_index : ℤ → Option ℕ
valid_index (pos i) = if leb max_peers i then none else some i
valid_index (negsuc i) = none

abbrev pub zero_packet : NtpPacket
zero_packet = record {
  li_vn_mode = 0;
  stratum = 0;
  poll = pos 0;
  precision = pos 0;
  root_delay = 0;
  root_disp = 0;
  ref_id = 0;
  ref_ts = record { sec = 0; frac = 0 };
  orig_ts = record { sec = 0; frac = 0 };
  recv_ts = record { sec = 0; frac = 0 };
  xmit_ts = record { sec = 0; frac = 0 };
  extension_len = 0;
  key_id = 0;
  mac_digest = replicate 20 0;
}

-- What one request finds: the clock's globals, `g_peer_poll`, the time, and whether `sendto` fails.
pub record Env : Type 0 where
  pub clock : ClockState
  pub peer_poll : ℤ
  pub now : NtpTimestamp
  pub sendto : Option ℕ → NtpPacket → SockAddr → Bool

-- The first byte is LI 0, version 4 and mode 3: 0 + 4 * 8 + 3.
abbrev pub response_to : Env → NtpPacket → NtpPacket
response_to e pkt = record zero_packet {
  li_vn_mode = 35;
  stratum = e.clock.local_stratum;
  precision = e.clock.local_precision;
  poll = e.peer_poll;
  root_delay = e.clock.local_root_delay;
  root_disp = e.clock.local_root_disp;
  ref_id = e.clock.local_ref_id;
  ref_ts = e.clock.local_ref_ts;
  recv_ts = pkt.recv_ts;
  xmit_ts = pkt.xmit_ts;
  orig_ts = e.now;
}

-- The result, the datagrams that were sent, and the negotiation state.
pub record Handled : Type 0 where
  pub status : Status
  pub sent : List (NtpPacket × SockAddr)
  pub ido : IdoState

abbrev pub refuse : IdoState → Handled
refuse ido = record { status = error; sent = []; ido = ido }

-- The part under the mutex.
abbrev pub reply : Env → Peer → NtpPacket → IdoState → Handled
reply e peer pkt ido =
    if not peer.sock_valid
    then record { status = ok; sent = []; ido = ido }
    else if e.sendto peer.sock_fd (response_to e pkt) peer.client_addr
    then record { status = ok; sent = (response_to e pkt, peer.client_addr) ∷ []; ido = ido }
    else refuse ido

-- The part behind the parser.
abbrev pub handle_packet : Env → Peer → Bool × NtpPacket × IdoState → Option Handled
handle_packet e peer r =
    if not r.0
    then some (refuse r.2)
    else if not (mode_of r.1.li_vn_mode == 3)
    then some (refuse r.2)
    else if usable peer.sock_mutex
    then some (reply e peer r.1 r.2)
    else none

-- With the index that was checked.
abbrev pub handle_at : Env → IdoState → Peers → List ℕ → ℕ → Option ℕ → Option Handled
handle_at e s peers buffer size none = some (refuse s)
handle_at e s peers buffer size (some i) =
    if ltb size packet_size
    then some (refuse s)
    else (do r ← parse_ntp_packet s (some buffer) size zero_packet; handle_packet e (peers i) r)

-- `none` for what is undefined: a read outside the buffer, or the use of a destroyed mutex.
unfoldable pub handle_peer_request : Env → IdoState → Peers → List ℕ → ℕ → ℤ → Option Handled
handle_peer_request e s peers buffer size idx = handle_at e s peers buffer size (valid_index idx)
