-- ===== src/Sync.antt =====
-- time_sync.c: `sync_ntp_time`, an exchange with a server. Here are the request and what a call finds
-- around it; Examine has the checks of the reply, Commit what follows them.
-- Text and addresses are lists of bytes and numbers as elsewhere; a time is a whole second.
pub mod Examine
pub mod Commit
pub mod Poll
pub mod Laws
pub mod Deadlock
pub mod Acceptance
use dragon_ntpd.Base.{
  ℕ, ◌+◌, ◌*◌, Bool, true, false, not, ◌&&◌, ◌||◌, List, [], ◌∷◌, Option, none, some, ltb, ◌==◌,
  if◌then◌else◌, take, replicate, Status, ok, error,
}
use dragon_ntpd.Base.Int.{ℤ, pos, ltb_ℤ, pos_part}
use dragon_ntpd.Base.Lock
use dragon_ntpd.Correction.{Os}
use dragon_ntpd.Leap.{World}
use dragon_ntpd.Mode.Network.{same_text}
use dragon_ntpd.Network4.{Net, network4_create_socket}
use dragon_ntpd.Packet.{NtpPacket, NtpTimestamp}
use dragon_ntpd.Packet.Request.{create_ntp_request}
use dragon_ntpd.Daemon.{
  Daemon, ClockState, PeerState, M, returns, faults, ◌>>=◌, ◌>>◌, pure, unless_fault, on_clock,
}
use dragon_ntpd.Sync.Examine.{Reply, Examined, rejected, accepted, examine}
use dragon_ntpd.Sync.Commit.{Discipline, commit}

-- What one call finds around it: the command line's address family, the sockets' answers, `strtol` and
-- `errno` behind it, `getaddrinfo`, `setsockopt`, the clock, `sendto`, what the receive buffer holds
-- after `recvfrom` and how many bytes were received (0 for none and for an error).
pub record Env : Type 0 where
  pub family_preference : ℕ
  pub net4 : Net
  pub net6 : Net
  pub strtol : List ℕ → ℤ
  pub errno : ℕ
  pub getaddrinfo : List ℕ → ℕ → Option ℕ
  pub set_timeout : Bool
  pub t1 : NtpTimestamp
  pub request : List ℕ
  pub sendto : ℕ → List ℕ → ℕ → ℕ → Bool
  pub time : ℕ
  pub buffer : List ℕ
  pub recv_len : ℕ
  pub reply : Reply
  pub os : Os
  pub discipline : Discipline

-- `network6_create_socket` is `socket` with two options whose failing is only logged.
unfoldable pub get_sync_socket : Env → M (Option ℕ)
get_sync_socket env d = elim d.sockets.sync_sock [
  | some sock ↦ returns (some sock) d
  | none ↦
      let created =
        if env.family_preference == 2 then env.net6.socket else network4_create_socket env.net4 0 in
      returns created (record d { sockets = record d.sockets { sync_sock = created } })
]

-- The port of a server, or none where it is refused: `errno` is not cleared before `strtol`.
unfoldable pub server_port : Env → List ℕ → Option ℕ
server_port env port =
    let n = env.strtol port in
    if ltb_ℤ n (pos 1) || (ltb_ℤ (pos 65535) n || not (env.errno == 0))
    then none
    else some (pos_part n)

-- `strncmp` of the first `n` bytes.
abbrev pub same_prefix : ℕ → List ℕ → List ℕ → Bool
same_prefix n a b = same_text (take n a) (take n b)

-- The first peer of that address and port has answered.
unfoldable pub mark_reachable : List ℕ → List ℕ → ℕ → List PeerState → List PeerState
mark_reachable ip port now [] = []
mark_reachable ip port now (peer ∷ peers) =
    let rest = mark_reachable ip port now peers in
    if same_prefix 63 peer.ip ip && same_prefix 15 peer.port port
    then record peer { reachable = true; last_update = now } ∷ peers
    else peer ∷ rest

-- The request as it is handed to `sendto`, and its transmit time where it was sent.
unfoldable pub send_made :
    Env → ℕ → ℕ → ℕ → Option (List ℕ × NtpTimestamp) → M (Option NtpTimestamp)
send_made env sock port_num address none = pure none
send_made env sock port_num address (some (request, t1)) =
    if env.sendto sock request address port_num then pure (some t1) else pure none

unfoldable pub send_resolved : Env → ℕ → ℕ → Option ℕ → M (Option NtpTimestamp)
send_resolved env sock port_num none = pure none
send_resolved env sock port_num (some address) = if not env.set_timeout then pure none else (do
  clock ← on_clock Lock.get
  unless_fault (create_ntp_request clock.local_poll clock.local_precision env.t1 (some env.request))
      (send_made env sock port_num address))

unfoldable pub send_request : Env → ℕ → List ℕ → List ℕ → M (Option NtpTimestamp)
send_request env sock ip port = elim (server_port env port) [
  | none ↦ pure none
  | some port_num ↦ send_resolved env sock port_num (env.getaddrinfo ip port_num)
]

-- Behind `recvfrom`: the pool, the checks and the rest.
unfoldable pub handle_reply : Env → List ℕ → List ℕ → NtpTimestamp → M Status
handle_reply env ip port t1 = if env.recv_len == 0 then pure error else (do
  on_clock Lock.lock
  on_clock (
      Lock.modify
        (λ (k : ClockState). record k { peer_pool = mark_reachable ip port env.time k.peer_pool }))
  on_clock Lock.unlock
  examined ← examine env.reply env.buffer env.recv_len t1
  elim examined [
    | rejected ↦ pure error
    | accepted a ↦ commit env.discipline env.os env.reply.world ip a
  ])

unfoldable pub sync_ntp_time : Env → Option (List ℕ) → Option (List ℕ) → M Status
sync_ntp_time env none port = pure error
sync_ntp_time env (some ip) none = pure error
sync_ntp_time env (some ip) (some port) = do
  sock ← get_sync_socket env
  elim sock [
    | none ↦ pure error
    | some fd ↦ do
      sent ← send_request env fd ip port
      elim sent [ none ↦ pure error | some t1 ↦ handle_reply env ip port t1 ]
  ]
