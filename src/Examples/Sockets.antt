-- ===== src/Examples/Sockets.antt =====
-- Sockets of socket.c.
use dragon_ntpd.Base.{
  ℕ, suc, ◌≡◌, refl, Bool, true, false, List, [], ◌∷◌, Option, none, some, error, ◌==◌, arith, inl,
  inr, ◌≤◌, max, Bool-cases,
}
use dragon_ntpd.Base.Int.{pos}
use dragon_ntpd.Base.Lock.{done, free}
use dragon_ntpd.CommandLine.{CliConfig, g_cli, parse_arguments, parse_loop, kind_of}
use dragon_ntpd.CommandLine.Exclusive.{first}
use dragon_ntpd.Examples.Commands.{strtol}
use dragon_ntpd.Listeners.{
  Call, opened, closed, ipv4, ipv6, SocketType, dgram, Kernel, create_udp_socket,
  network4_create_socket, network4_bind_socket,
}
use dragon_ntpd.Listeners.Endpoints.{
  Endpoints, g_endpoints, sync, udp, close, start_tcp, stop_tcp, perform_all, start_ntpq_thread,
  get_sync_socket,
}
use dragon_ntpd.Listeners.Families.{create_udp_socket-parse_arguments}
use dragon_ntpd.Listeners.Ntpq.{Accepted, interrupted, failed, client}
use dragon_ntpd.Listeners.Open.{type_of, IsKernel, IsOpen}
use dragon_ntpd.Listeners.Reach.{perform_all-IsKept}
use dragon_ntpd.Mode.ConfigFile.{codes}
use dragon_ntpd.Mode.Network.{same_text}
use dragon_ntpd.Threads.{System, destroyed}
use dragon_ntpd.Threads.Clock.{ClockThread, g_clock_ctx}

-- Above every descriptor so far, and above 2.
abbrev next_descriptor : List Call → ℕ
next_descriptor [] = 3
next_descriptor (opened f t s ∷ h) = max (suc s) (next_descriptor h)
next_descriptor (closed s ∷ h) = next_descriptor h

abbrev is_dgram : Option SocketType → Bool
is_dgram (some dgram) = true
is_dgram t = false

abbrev kernel : Kernel
kernel = record {
  socket = λ h f t. some (next_descriptor h);
  bind4 = λ h s a. true;
  bind6 = λ h s a. true;
  listen = λ h s. elim (is_dgram (type_of h s)) [ true ↦ false | false ↦ true ];
  inet_pton = λ text. none;
  if_nametoindex = λ text. 0;
  htons = λ n. n;
}

above_none : (h : List Call) (n : ℕ) → next_descriptor h ≤ n → type_of h n ≡ none
above_none [] n le = refl
above_none (opened f t s ∷ h) n le = elim (Bool-cases (s == n)) [
  | inl e ↦ absurd (ground arith)
  | inr e ↦ rw e (above_none h n (omega arith))
]
above_none (closed s ∷ h) n le = elim (Bool-cases (s == n)) [
  | inl e ↦ rw e refl
  | inr e ↦ rw e (above_none h n le)
]

kernel-IsKernel : IsKernel kernel
kernel-IsKernel = record {
  fresh = λ h f s e. above_none h s (ground arith);
  not_listening = λ h s e. rw (kernel, e) refl;
}

abbrev six : List (List ℕ)
six = codes "-6" ∷ []

abbrev for_six : CliConfig
for_six = (parse_arguments strtol g_cli (codes "dntpd" ∷ six)).0

abbrev server_calls : List Call
server_calls = (create_udp_socket kernel for_six (pos 123) []).1

-- The server of "dntpd -6" has an IPv4 socket.
swapped_example :
    (server_calls ≡ opened ipv4 dgram 3 ∷ [])
    × (get_sync_socket kernel for_six
          (free (record { sync_sock = none; tcp_sock = none; calls = server_calls }))
        ≡ done (some 4) (
            free (record {
              sync_sock = some 4;
              tcp_sock = none;
              calls = opened ipv6 dgram 4 ∷ server_calls;
            })))
unfolding parse_arguments parse_loop kind_of same_text create_udp_socket network4_create_socket
    network4_bind_socket
swapped_example =
    create_udp_socket-parse_arguments strtol g_cli (codes "dntpd") six ipv6 kernel (pos 123) []
      server_calls none 3 4 first refl refl refl

abbrev threads : System
threads = record { mutex_init = true; cond_init = true; create = true; detach = true }

operations_example :
    (e : Endpoints) × (perform_all kernel
        (sync g_cli
          ∷ udp g_cli (pos 123)
          ∷ start_tcp
          ∷ close (some 3)
          ∷ close (some 4)
          ∷ stop_tcp
          ∷ [])
        (free g_endpoints)
      ≡ done tt (free e))
    × IsOpen e.calls e.sync_sock
    × (e.tcp_sock ≡ none)
    × (start_ntpq_thread threads e ≡ error)
operations_example =
    perform_all-IsKept kernel
      (sync g_cli
        ∷ udp g_cli (pos 123)
        ∷ start_tcp
        ∷ close (some 3)
        ∷ close (some 4)
        ∷ stop_tcp
        ∷ [])
      threads kernel-IsKernel

-- Behind the start of the clock thread.
abbrev broken : ClockThread
broken = record g_clock_ctx { clock_mutex = destroyed }

abbrev visits : List Accepted
visits = interrupted ∷ client 5 (some (codes "version")) ∷ client 6 none ∷ failed ∷ []
