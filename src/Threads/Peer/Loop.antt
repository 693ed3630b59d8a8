-- ===== src/Threads/Peer/Loop.antt =====
-- threads.c: `peer_thread_main`.
pub mod Laws
use dragon_ntpd.Base.{
  ℕ, ◌-◌, Bool, true, false, not, List, [], ◌∷◌, ◌++◌, Option, none, some, if◌then◌else◌, length,
  take, replicate, ◌>>=◌, ◌==◌,
}
use dragon_ntpd.Base.Int.{pos}
use dragon_ntpd.Ido.{IdoState}
use dragon_ntpd.Network4.{SockAddr}
use dragon_ntpd.Packet.{NtpPacket}
use dragon_ntpd.Threads.{usable}
use dragon_ntpd.Threads.Peer.{Peer, Peers, Env, set_peer, valid_index, handle_peer_request}

-- One round of the loop, by what `recvfrom` brings: nothing yet, an error, or a datagram and its sender.
-- The flag is what the other threads have made of it behind the round.
pub data Round : Type 0 where
  no_data : Bool → Round
  failed : Round
  datagram : Env → List ℕ → SockAddr → Bool → Round

-- `BUFFER_SIZE`
abbrev pub buffer_size : ℕ
buffer_size = 1024

-- The cleared buffer with the datagram, as much as fits, and the length of that.
abbrev pub buffer_with : List ℕ → List ℕ
buffer_with bytes =
    take buffer_size bytes ++ replicate (buffer_size - length (take buffer_size bytes)) 0

-- What the thread leaves behind: the table, the negotiation state and the datagrams, in order.
pub record Served : Type 0 where
  pub peers : Peers
  pub ido : IdoState
  pub sent : List (NtpPacket × SockAddr)

-- The end of the thread.
abbrev pub finished : ℕ → Peers → IdoState → Option Served
finished i peers s = some (record {
  peers = set_peer peers i (record (peers i) { sock_valid = false; running = false });
  ido = s;
  sent = [];
})

abbrev pub after_sent : List (NtpPacket × SockAddr) → Option Served → Option Served
after_sent sent none = none
after_sent sent (some r) = some (record r { sent = sent ++ r.sent })

abbrev pub with_flag : Peers → ℕ → Bool → Peers
with_flag peers i flag = set_peer peers i (record (peers i) { running = flag })

-- `recvfrom` stores as much of the sender's address as `client_addr_len` says, which is 0 at first, and
-- leaves the size of the whole address there.
abbrev pub with_sender : Peers → ℕ → SockAddr → Peers
with_sender peers i from =
    let stored = if (peers i).client_addr_len == 0 then (peers i).client_addr else from in
    set_peer peers i (record (peers i) { client_addr = stored; client_addr_len = 16 })

-- The loop over the rounds that the thread makes; where they end, it goes on.
unfoldable pub peer_loop : List Round → ℕ → Peers → IdoState → Option Served
peer_loop [] i peers s = some (record { peers = peers; ido = s; sent = [] })
peer_loop (no_data flag ∷ rounds) i peers s =
    if not (peers i).running
    then finished i peers s
    else peer_loop rounds i (with_flag peers i flag) s
peer_loop (failed ∷ rounds) i peers s = finished i peers s
peer_loop (datagram e bytes from flag ∷ rounds) i peers s =
    if not (peers i).running
    then finished i peers s
    else elim (handle_peer_request e s (with_sender peers i from) (buffer_with bytes)
        (length (take buffer_size bytes)) (pos i)) [
          | none ↦ none
          | some h ↦
              after_sent h.sent
                (peer_loop rounds i (with_flag (with_sender peers i from) i flag) h.ido)
        ]

-- The state that the loop begins in.
abbrev pub peer_thread_begin : Peer → ℕ → Peers → Option Peers
peer_thread_begin ctx i peers =
    if usable (peers i).sock_mutex
    then some (
        set_peer peers i (record (peers i) {
          running = true;
          sock_valid = true;
          sock_fd = ctx.sock_fd;
          peer_state = ctx.peer_state;
        }))
    else none

-- With the index that was checked.
abbrev pub main_at : List Round → Peer → Peers → IdoState → Option ℕ → Option Served
main_at rounds ctx peers s none = some (record { peers = peers; ido = s; sent = [] })
main_at rounds ctx peers s (some i) = do
  peers₁ ← peer_thread_begin ctx i peers
  peer_loop rounds i peers₁ s

unfoldable pub peer_thread_main : List Round → Peer → Peers → IdoState → Option Served
unfolding peer_loop
peer_thread_main rounds ctx peers s = main_at rounds ctx peers s (valid_index ctx.idx)
