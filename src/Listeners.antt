-- ===== src/Listeners.antt =====
-- socket.c with network4.c and network6.c: the sockets of the daemon, from their creation to their close.
-- A state carries the calls that the program has made, the last one first, and `Kernel` is what the
-- operating system answers to a call behind those. A descriptor that is not negative is a number, a
-- negative one is `none`; null is `none`. The failing of SO_REUSEADDR and IPV6_V6ONLY is only logged.
pub mod Created
pub mod Endpoints
pub mod Families
pub mod Open
pub mod Reach
pub mod Ntpq
use dragon_ntpd.Base.{
  ℕ, Bool, true, false, ◌||◌, List, [], ◌∷◌, Option, none, some, ltb, ◌==◌, if◌then◌else◌, Status,
  ok, error,
}
use dragon_ntpd.Base.Int.{ℤ, pos, negsuc}
use dragon_ntpd.CommandLine.{CliConfig}
use dragon_ntpd.Network4.{SockAddr}

pub data Family : Type 0 where
  ipv4 ipv6 : Family

pub data SocketType : Type 0 where
  dgram stream : SocketType

-- `socket` with the descriptor that it returned, and `close`.
pub data Call : Type 0 where
  opened : Family → SocketType → ℕ → Call
  closed : ℕ → Call

-- Port and scope of a `struct sockaddr_in6` with the address `in6addr_any`.
pub record AnyAddress : Type 0 where
  pub port : ℕ
  pub scope_id : ℕ

pub record Kernel : Type 0 where
  pub socket : List Call → Family → SocketType → Option ℕ
  pub bind4 : List Call → ℕ → SockAddr → Bool
  pub bind6 : List Call → ℕ → AnyAddress → Bool
  pub listen : List Call → ℕ → Bool
  pub inet_pton : List ℕ → Option ℕ
  pub if_nametoindex : List ℕ → ℕ
  pub htons : ℕ → ℕ

abbrev pub opening : Family → List Call → Option ℕ → Option ℕ × List Call
opening family calls none = (none, calls)
opening family calls (some sock) = (some sock, opened family dgram sock ∷ calls)

unfoldable pub network4_create_socket : Kernel → List Call → Option ℕ × List Call
network4_create_socket k calls = opening ipv4 calls (k.socket calls ipv4 dgram)

unfoldable pub network6_create_socket : Kernel → List Call → Option ℕ × List Call
network6_create_socket k calls = opening ipv6 calls (k.socket calls ipv6 dgram)

-- A socket that cannot be bound is closed.
abbrev pub bound : ℕ → List Call → Bool → Status × List Call
bound sock calls true = (ok, calls)
bound sock calls false = (error, closed sock ∷ calls)

abbrev pub bind_to4 : Kernel → ℕ → ℕ → List Call → Option ℕ → Status × List Call
bind_to4 k sock port calls none = (error, calls)
bind_to4 k sock port calls (some address) =
    bound sock calls (k.bind4 calls sock (record { port = k.htons port; address = address }))

-- The address of the interface, INADDR_ANY without one, none where the text cannot be read.
abbrev pub interface_address : Kernel → Option (List ℕ) → Option ℕ
interface_address k none = some 0
interface_address k (some []) = some 0
interface_address k (some (c ∷ cs)) = k.inet_pton (c ∷ cs)

unfoldable pub network4_bind_socket :
    Kernel → ℕ → Option (List ℕ) → ℕ → List Call → Status × List Call
network4_bind_socket k sock interface port calls =
    bind_to4 k sock port calls (interface_address k interface)

-- The index of the interface, 0 without one or where it is unknown.
abbrev pub interface_scope : Kernel → Option (List ℕ) → ℕ
interface_scope k none = 0
interface_scope k (some []) = 0
interface_scope k (some (c ∷ cs)) = k.if_nametoindex (c ∷ cs)

unfoldable pub network6_bind_socket :
    Kernel → ℕ → Option (List ℕ) → ℕ → List Call → Status × List Call
network6_bind_socket k sock interface port calls =
    bound sock calls
      (k.bind6 calls sock (record { port = k.htons port; scope_id = interface_scope k interface }))

unfoldable pub network4_bind_to_port : Kernel → ℕ → ℕ → List Call → Status × List Call
unfolding network4_bind_socket
network4_bind_to_port k sock port calls = network4_bind_socket k sock none port calls

-- `network4_close_socket` and `network6_close_socket`
abbrev pub network4_close_socket : Option ℕ → List Call → List Call
network4_close_socket none calls = calls
network4_close_socket (some sock) calls = closed sock ∷ calls

abbrev pub network6_close_socket : Option ℕ → List Call → List Call
network6_close_socket none calls = calls
network6_close_socket (some sock) calls = closed sock ∷ calls

-- The guard on the port.
abbrev pub valid_port : ℤ → Option ℕ
valid_port (negsuc n) = none
valid_port (pos n) = if (n == 0) || ltb 65535 n then none else some n

-- Behind the attempt to bind.
abbrev pub udp_bound4 : ℕ → Status × List Call → Option ℕ × List Call
udp_bound4 sock (ok, calls) = (some sock, calls)
udp_bound4 sock (error, calls) = (none, network4_close_socket (some sock) calls)

abbrev pub udp_bound6 : ℕ → Status × List Call → Option ℕ × List Call
udp_bound6 sock (ok, calls) = (some sock, calls)
udp_bound6 sock (error, calls) = (none, network6_close_socket (some sock) calls)

-- Behind the creation.
abbrev pub udp_created4 : Kernel → Option (List ℕ) → ℕ → Option ℕ × List Call → Option ℕ × List Call
udp_created4 k interface port (none, calls) = (none, calls)
udp_created4 k interface port (some sock, calls) =
    udp_bound4 sock (network4_bind_socket k sock interface port calls)

abbrev pub udp_created6 : Kernel → Option (List ℕ) → ℕ → Option ℕ × List Call → Option ℕ × List Call
udp_created6 k interface port (none, calls) = (none, calls)
udp_created6 k interface port (some sock, calls) =
    udp_bound6 sock (network6_bind_socket k sock interface port calls)

-- `NETWORK_FAMILY_IPV6_ONLY` is 1; the other two branches are the same.
abbrev pub udp_for : Kernel → CliConfig → List Call → Option ℕ → Option ℕ × List Call
udp_for k cli calls none = (none, calls)
udp_for k cli calls (some port) =
    if cli.family_preference == 1
    then udp_created6 k cli.interface port (network6_create_socket k calls)
    else udp_created4 k cli.interface port (network4_create_socket k calls)

unfoldable pub create_udp_socket : Kernel → CliConfig → ℤ → List Call → Option ℕ × List Call
create_udp_socket k cli port calls = udp_for k cli calls (valid_port port)

abbrev pub tcp_listening : ℕ → List Call → Bool → Option ℕ × List Call
tcp_listening sock calls true = (some sock, calls)
tcp_listening sock calls false = (none, network4_close_socket (some sock) calls)

abbrev pub tcp_bound : Kernel → ℕ → Status × List Call → Option ℕ × List Call
tcp_bound k sock (error, calls) = (none, network4_close_socket (some sock) calls)
tcp_bound k sock (ok, calls) = tcp_listening sock calls (k.listen calls sock)

abbrev pub tcp_created : Kernel → ℕ → Option ℕ × List Call → Option ℕ × List Call
tcp_created k port (none, calls) = (none, calls)
tcp_created k port (some sock, calls) = tcp_bound k sock (network4_bind_to_port k sock port calls)

-- The conversion of the port to 16 bits keeps the 323 that it is called with.
unfoldable pub create_tcp_socket : Kernel → ℕ → List Call → Option ℕ × List Call
create_tcp_socket k port calls = tcp_created k port (network4_create_socket k calls)
