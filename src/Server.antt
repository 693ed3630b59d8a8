-- ===== src/Server.antt =====
-- socket.c: the answer to a request (`handle_peer_request_thread`, `send_broadcast_response`), and the
-- defaults of mode_handler.c that it asks for.
pub mod Response
pub mod Laws
pub mod Admission
pub mod Answer
pub mod RoundTrip
pub mod Lifetime
use dragon_ntpd.Base.{
  ℕ, ◌+◌, Bool, true, false, not, ◌&&◌, ◌||◌, List, [], ◌∷◌, Option, none, some, ltb, leb, ◌==◌,
  if◌then◌else◌, length, Status, ok, error,
}
use dragon_ntpd.Base.Lock
use dragon_ntpd.Mode.{
  Result, success, ModeConfig, ModeState, mode_handler_get_config, validate_ntp_version,
  validate_packet_mode,
}
use dragon_ntpd.Mode.Network.{Libc}
use dragon_ntpd.Mode.Acl.{acl_check_client}
use dragon_ntpd.Mode.RateLimit.{Verdict, pass, rate_limit_check, rate_limit_update}
use dragon_ntpd.Mode.Auth.{Authentication, not_supported, validate_packet_authentication}
use dragon_ntpd.Leap.{World, handle_leap_indicator}
use dragon_ntpd.Network4.{
  Net, SockAddr, network4_create_socket, network4_sendto, network4_enable_broadcast,
  network4_parse_address, network4_set_broadcast_addr,
}
use dragon_ntpd.Packet.{NtpPacket, NtpTimestamp, li_of, vn_of, mode_of, ntp_is_kod}
use dragon_ntpd.Packet.Parse.{parse_ntp_packet}
use dragon_ntpd.Daemon.{
  Daemon, ClockState, M, returns, ◌>>=◌, ◌>>◌, pure, unless_fault, on_mode, on_leap, on_clock,
}
use dragon_ntpd.Server.Response.{Header, make_response}

-- `PeerRequestData`
pub record PeerRequestData : Type 0 where
  pub buffer : Option (List ℕ)
  pub size : ℕ
  pub ip : List ℕ
  pub port : List ℕ

-- What `strtoul` makes of a text: the value, the index of `*endp`, and whether `errno` is ERANGE.
pub record Number : Type 0 where
  pub value : ℕ
  pub end : ℕ
  pub out_of_range : Bool

-- What one call finds around it: the C library, what stands in `pkt` before it is filled, the clock at
-- its calls, the command line, and what the network answers to the reply and to the broadcast.
pub record Env : Type 0 where
  pub libc : Libc
  pub pkt : NtpPacket
  pub world : World
  pub check_time : ℕ
  pub update_time : ℕ
  pub t2 : NtpTimestamp
  pub t3 : NtpTimestamp
  pub strtoul : List ℕ → Number
  pub net : Net
  pub broadcast_net : Net
  pub broadcast_time : ℕ
  pub broadcast_mode : Bool
  pub broadcast_interval : ℕ
  pub broadcast_addr : Option (List ℕ)

-- The datagrams that are sent, in order, and whether the request's memory is freed at the end.
pub record Reply : Type 0 where
  pub sent : List (List ℕ × SockAddr)
  pub freed : Bool

abbrev pub dropped : Reply
dropped = record { sent = []; freed = true }

abbrev pub leaked : Reply
leaked = record { sent = []; freed = false }

abbrev pub is_ok : Status → Bool
is_ok status = elim status [ ok ↦ true | error ↦ false ]

-- NTP_PORT
abbrev pub ntp_port : ℕ
ntp_port = 123

abbrev pub broadcast_due : ℕ → ℕ → ℕ → Bool
broadcast_due interval now last = not (ltb 0 interval && ltb now (last + interval))

-- By what `sendto` answered; the address may be null.
abbrev pub broadcast_sent :
    Env → List ℕ → SockAddr → Option ℕ → M (List (List ℕ × SockAddr) × Status)
broadcast_sent env response addr none d = returns ([], error) d
broadcast_sent env response addr (some n) d =
    returns ((response, addr) ∷ [], ok)
      (record d { sockets = record d.sockets { last_broadcast = env.broadcast_time } })

-- With the socket that was created, or none.
abbrev pub broadcast_on : Env → List ℕ → Option ℕ → M (List (List ℕ × SockAddr) × Status)
broadcast_on env response none = pure ([], error)
broadcast_on env response (some sock) =
    let addr = network4_set_broadcast_addr env.broadcast_net env.broadcast_addr ntp_port in
    if is_ok (network4_enable_broadcast env.broadcast_net (some sock))
    then broadcast_sent env response addr
        (network4_sendto env.broadcast_net (some sock) (some response) (some addr))
    else pure ([], error)

-- The datagram, where one is sent, and the result.
unfoldable pub send_broadcast_response : Env → List ℕ → M (List (List ℕ × SockAddr) × Status)
send_broadcast_response env response d =
    if not env.broadcast_mode
    then returns ([], ok) d
    else if not (broadcast_due env.broadcast_interval env.broadcast_time d.sockets.last_broadcast)
    then returns ([], ok) d
    else broadcast_on env response (network4_create_socket env.broadcast_net 0) d

-- The three defaults of mode_handler.c: NTP_LI_ALARM is 3, NTP_REF_ID_INIT is "INIT".
unfoldable pub mode_get_default_li : ClockState → Lock.M ModeState ℕ
mode_get_default_li clock l =
    Lock.◌>>=◌ Lock.lock
      (λ u.
        Lock.◌>>=◌ Lock.unlock (λ v. Lock.pure (if clock.time_synced then clock.local_li else 3)))
      l

unfoldable pub mode_get_default_stratum : ClockState → Lock.M ModeState ℕ
mode_get_default_stratum clock l =
    Lock.◌>>=◌ Lock.lock
      (λ u. Lock.◌>>=◌ Lock.get (λ s. Lock.◌>>=◌ Lock.unlock (λ v.
        Lock.pure (if clock.time_synced then clock.local_stratum else s.config.initial_stratum))))
      l

unfoldable pub mode_get_default_ref_id : ClockState → Lock.M ModeState ℕ
mode_get_default_ref_id clock l =
    Lock.◌>>=◌ Lock.lock
      (λ u.
        Lock.◌>>=◌ Lock.unlock
          (λ v. Lock.pure (if clock.time_synced then clock.local_ref_id else 0)))
      l

abbrev pub synced_header : ClockState → ℕ → ℕ → ℕ → Header
synced_header clock li stratum ref_id = record {
  li = li;
  stratum = stratum;
  ref_id = ref_id;
  ref_ts = clock.local_ref_ts;
  root_delay = clock.local_root_delay;
  root_disp = clock.local_root_disp;
  precision = clock.local_precision;
}

-- 0x4C4F434C is "LOCL".
abbrev pub unsynced_header : ClockState → Header
unsynced_header clock = record {
  li = 3;
  stratum = 16;
  ref_id = 0x4C4F434C;
  ref_ts = record { sec = 0; frac = 0 };
  root_delay = 0;
  root_disp = 0;
  precision = clock.local_precision;
}

-- The section under `g_mutex`, and what follows where the clock is not synchronised.
unfoldable pub served_header : M Header
served_header = do
  on_clock Lock.lock
  clock ← on_clock Lock.get
  stratum ← on_mode (mode_get_default_stratum clock)
  ref_id ← on_mode (mode_get_default_ref_id clock)
  li ← on_mode (mode_get_default_li clock)
  on_clock Lock.unlock
  (if clock.time_synced
      then pure (synced_header clock li stratum ref_id)
      else pure (unsynced_header clock))

-- The port of the request as a number, or none where it is refused.
unfoldable pub port_number : (List ℕ → Number) → List ℕ → Option ℕ
port_number strtoul port =
    let n = strtoul port in
    if (n.end == 0) || (ltb n.end (length port) || (n.out_of_range || ltb 65535 n.value))
    then none
    else some n.value

-- The reply on its way, and whether it was sent.
unfoldable pub send_response : Env → PeerRequestData → List ℕ → Option SockAddr
send_response env request response = elim (port_number env.strtoul request.port) [
  | none ↦ none
  | some port ↦ elim (network4_parse_address env.net (some request.ip) port) [
    | none ↦ none
    | some client_addr ↦ elim (network4_create_socket env.net 0) [
      | none ↦ none
      | some sock ↦ elim (network4_sendto env.net (some sock) (some response) (some client_addr)) [
        | none ↦ none
        | some n ↦ some client_addr
      ]
    ]
  ]
]

-- Behind the sending of the response, to the client or to none.
abbrev pub answered : Env → PeerRequestData → ℕ → List ℕ → Option SockAddr → M Reply
answered env request response_mode response none = pure leaked
answered env request response_mode response (some client) = do
  (more, status) ←
      (if response_mode == 5 then send_broadcast_response env response else pure ([], ok))
  on_mode (rate_limit_update env.libc env.update_time (some request.ip))
  pure (record { sent = (response, client) ∷ more; freed = true })

-- Behind the checks: the response is made and sent.
unfoldable pub answer : Env → PeerRequestData → NtpPacket → ℕ → M Reply
answer env request pkt response_mode = if ntp_is_kod pkt then pure leaked else (do
  skip ← on_leap (handle_leap_indicator env.world (li_of pkt.li_vn_mode))
  (if skip then pure leaked else (do
    header ← served_header
    let response = make_response header response_mode pkt env.t2 env.t3
    answered env request response_mode response (send_response env request response))))

-- The mode of the response, or none where the request is dropped.
unfoldable pub response_mode_for : Bool → ℕ → Option ℕ
response_mode_for broadcast_mode mode =
    if mode == 3
    then some 4
    else if (mode == 1) || (mode == 2)
    then some 2
    else if mode == 5
    then (if broadcast_mode then some 5 else none)
    else none

-- Control and private packets pass only where the configuration enables them.
unfoldable pub control_allowed : ℕ → M Bool
control_allowed mode =
    if (mode == 6) || (mode == 7)
    then (do cfg ← on_mode mode_handler_get_config; pure (not (cfg.enable_control_messages == 0)))
    else pure true

abbrev pub is_pass : Verdict → Bool
is_pass v = elim v [ pass ↦ true | _ ↦ false ]

abbrev pub is_success : Result → Bool
is_success r = elim r [ success ↦ true | _ ↦ false ]

abbrev pub is_supported : Authentication → Bool
is_supported a = elim a [ not_supported ↦ false | _ ↦ true ]

-- The checks of the configuration, in the code's order: whether the request goes on.
unfoldable pub check_policy : Env → PeerRequestData → ℕ → M Bool
check_policy env request mode = do
  allowed ← control_allowed mode
  (if not allowed then pure false else (do
    admitted ← on_mode (acl_check_client env.libc (some request.ip) mode)
    (if not admitted then pure false else (do
      limited ← on_mode (rate_limit_check env.libc env.check_time (some request.ip))
      pure (is_pass limited)))))

-- Behind the authentication: policy, mode and size.
unfoldable pub handle_authenticated : Env → PeerRequestData → NtpPacket → M Reply
handle_authenticated env request pkt = do
  admitted ← check_policy env request (mode_of pkt.li_vn_mode)
  (if not admitted
      then pure dropped
      else elim (response_mode_for env.broadcast_mode (mode_of pkt.li_vn_mode)) [
        | none ↦ pure dropped
        | some response_mode ↦ if response_mode == 0 then pure dropped else (do
          fits ← on_mode (validate_packet_mode response_mode request.size 48)
          (if not (is_success fits) then pure dropped else answer env request pkt response_mode))
      ])

-- The parsed request: version and authentication, then the rest.
unfoldable pub handle_parsed : Env → PeerRequestData → List ℕ → NtpPacket → M Reply
handle_parsed env request buffer pkt =
    if not (is_success (validate_ntp_version (vn_of pkt.li_vn_mode)))
    then pure dropped
    else unless_fault (validate_packet_authentication (some buffer) request.size) (λ validate. do
      authentication ← on_mode validate
      (if not (is_supported authentication)
          then pure dropped
          else handle_authenticated env request pkt))

-- With the buffer of the request, or null.
abbrev pub handle_bytes : Env → PeerRequestData → Option (List ℕ) → M Reply
handle_bytes env request none d = returns dropped d
handle_bytes env request (some buffer) d =
    if ltb request.size 48
    then returns dropped d
    else if (length request.ip == 0) || (length request.port == 0)
    then returns dropped d
    else unless_fault (parse_ntp_packet d.ido (some buffer) request.size env.pkt)
        (λ (accepted, pkt, ido) d'.
          (if accepted then handle_parsed env request buffer pkt else pure dropped)
            (record d' { ido = ido }))
        d

unfoldable pub handle_peer_request_thread : Env → PeerRequestData → M Reply
handle_peer_request_thread env request = handle_bytes env request request.buffer
