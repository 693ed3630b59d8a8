-- ===== src/Listeners/Endpoints.antt =====
-- socket.c: the sockets that the daemon keeps, that of the synchronisation and that of ntpq.
use dragon_ntpd.Base.{
  ℕ, Bool, false, ◌||◌, List, [], ◌∷◌, Option, none, some, ◌==◌, if◌then◌else◌, Status, ok, error,
}
use dragon_ntpd.Base.Int.{ℤ}
use dragon_ntpd.Base.Lock.{M, ◌>>=◌, ◌>>◌, pure, lock, unlock, get, modify}
use dragon_ntpd.CommandLine.{CliConfig}
use dragon_ntpd.Listeners.{
  Call, closed, Kernel, network4_create_socket, network6_create_socket, create_udp_socket,
  create_tcp_socket,
}
use dragon_ntpd.Threads.{System}

-- `g_sync_sock`, `g_tcp_sock` and the calls made. `g_tcp_sock_mutex` protects the second.
pub record Endpoints : Type 0 where
  pub sync_sock : Option ℕ
  pub tcp_sock : Option ℕ
  pub calls : List Call

-- As the program starts.
abbrev pub g_endpoints : Endpoints
g_endpoints = record { sync_sock = none; tcp_sock = none; calls = [] }

-- `==` of C on descriptors: -1 differs from a number.
abbrev pub is_sock : Option ℕ → ℕ → Bool
is_sock none sock = false
is_sock (some s) sock = sock == s

abbrev pub sync_created : Endpoints → Option ℕ × List Call → Endpoints
sync_created e (sock, calls) = record e { sync_sock = sock; calls = calls }

-- The family is compared with 2.
abbrev pub sync_from : Kernel → CliConfig → Endpoints → Option ℕ → Endpoints
sync_from k cli e (some sock) = e
sync_from k cli e none =
    if cli.family_preference == 2
    then sync_created e (network6_create_socket k e.calls)
    else sync_created e (network4_create_socket k e.calls)

unfoldable pub get_sync_socket : Kernel → CliConfig → M Endpoints (Option ℕ)
get_sync_socket k cli = do modify (λ e. sync_from k cli e e.sync_sock); e ← get; pure e.sync_sock

abbrev pub close_unless_kept : Option ℕ → Option ℕ → Endpoints → Endpoints
close_unless_kept none tcp e = e
close_unless_kept (some sock) tcp e =
    if is_sock e.sync_sock sock || is_sock tcp sock
    then e
    else record e { calls = closed sock ∷ e.calls }

unfoldable pub close_socket : Option ℕ → M Endpoints (Unit {0})
close_socket sock = do lock; e ← get; unlock; modify (close_unless_kept sock e.tcp_sock)

unfoldable pub get_tcp_socket : M Endpoints (Option ℕ)
get_tcp_socket = do lock; e ← get; unlock; pure e.tcp_sock

abbrev pub tcp_created : Endpoints → Option ℕ × List Call → Endpoints
tcp_created e (sock, calls) = record e { tcp_sock = sock; calls = calls }

-- `DEFAULT_NTPQ_PORT`
abbrev pub default_ntpq_port : ℕ
default_ntpq_port = 323

abbrev pub tcp_from : Kernel → Endpoints → Option ℕ → M Endpoints (Option ℕ)
tcp_from k e (some sock) = do unlock; pure (some sock)
tcp_from k e none = do
  modify (λ e. tcp_created e (create_tcp_socket k default_ntpq_port e.calls))
  unlock
  e ← get
  pure e.tcp_sock

unfoldable pub start_tcp_listener : Kernel → M Endpoints (Option ℕ)
start_tcp_listener k = do lock; e ← get; tcp_from k e e.tcp_sock

abbrev pub tcp_stopped : Endpoints → Option ℕ → Endpoints
tcp_stopped e none = e
tcp_stopped e (some sock) = record e { tcp_sock = none; calls = closed sock ∷ e.calls }

unfoldable pub stop_tcp_listener : M Endpoints (Unit {0})
stop_tcp_listener = do lock; modify (λ e. tcp_stopped e e.tcp_sock); unlock

-- The thread that accepts is detached in either case.
abbrev pub ntpq_from : System → Option ℕ → Status
ntpq_from sys none = error
ntpq_from sys (some sock) = if sys.create then ok else error

unfoldable pub start_ntpq_thread : System → Endpoints → Status
start_ntpq_thread sys e = ntpq_from sys e.tcp_sock

-- The calls of socket.c that create and close sockets, by any part of the daemon.
pub data Operation : Type 0 where
  sync : CliConfig → Operation
  udp : CliConfig → ℤ → Operation
  close : Option ℕ → Operation
  start_tcp stop_tcp : Operation

abbrev pub udp_created : Endpoints → Option ℕ × List Call → Endpoints
udp_created e (sock, calls) = record e { calls = calls }

unfoldable pub perform : Kernel → Operation → M Endpoints (Unit {0})
unfolding get_sync_socket close_socket start_tcp_listener stop_tcp_listener
perform k (sync cli) = do _ ← get_sync_socket k cli; pure tt
perform k (udp cli port) = modify (λ e. udp_created e (create_udp_socket k cli port e.calls))
perform k (close sock) = close_socket sock
perform k start_tcp = do _ ← start_tcp_listener k; pure tt
perform k stop_tcp = stop_tcp_listener

-- One call after the other.
unfoldable pub perform_all : Kernel → List Operation → M Endpoints (Unit {0})
unfolding perform
perform_all k [] = pure tt
perform_all k (o ∷ os) = do perform k o; perform_all k os
