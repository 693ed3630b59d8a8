-- ===== src/Network4.antt =====
-- network4.c: IPv4 addresses and datagrams.
-- `Net` is what the operating system and the C library answer: `socket`, `setsockopt`, `bind`,
-- `sendto`, `inet_pton` and the byte order conversions. A descriptor that is not negative is a number,
-- a negative one is `none`; null is `none`.
pub mod Options
use dragon_ntpd.Base.{
  ℕ, ◌/◌, ◌^◌, ◌-◌, Bool, false, ◌&&◌, List, [], ◌∷◌, Option, none, some, ◌==◌, if◌then◌else◌,
  Status, ok, error,
}

-- `struct sockaddr_in`: the port and the address in network byte order.
pub record SockAddr : Type 0 where
  pub port : ℕ
  pub address : ℕ

pub record Net : Type 0 where
  pub socket : Option ℕ
  pub enable_option : Bool
  pub sendto : ℕ → List ℕ → SockAddr → Option ℕ
  pub inet_pton : List ℕ → Option ℕ
  pub htons : ℕ → ℕ
  pub htonl : ℕ → ℕ
  pub ntohl : ℕ → ℕ

-- A failing SO_REUSEADDR is only logged.
unfoldable pub network4_create_socket : Net → ℕ → Option ℕ
network4_create_socket net port = net.socket

unfoldable pub network4_sendto : Net → Option ℕ → Option (List ℕ) → Option SockAddr → Option ℕ
network4_sendto net none buf dest = none
network4_sendto net (some sock) none dest = none
network4_sendto net (some sock) (some buf) none = none
network4_sendto net (some sock) (some buf) (some dest) = net.sendto sock buf dest

unfoldable pub network4_enable_broadcast : Net → Option ℕ → Status
network4_enable_broadcast net none = error
network4_enable_broadcast net (some sock) = if net.enable_option then ok else error

-- The address that is filled in, or none where -1 is returned.
unfoldable pub network4_parse_address : Net → Option (List ℕ) → ℕ → Option SockAddr
network4_parse_address net none port = none
network4_parse_address net (some addr_str) port = elim (net.inet_pton addr_str) [
  | none ↦ none
  | some address ↦ some (record { port = net.htons port; address = address })
]

-- `INADDR_BROADCAST`
abbrev inaddr_broadcast : ℕ
inaddr_broadcast = 2 ^ 32 - 1

-- A null, an empty and an unreadable text all mean the broadcast address.
unfoldable pub network4_set_broadcast_addr : Net → Option (List ℕ) → ℕ → SockAddr
network4_set_broadcast_addr net none port = record {
  port = net.htons port;
  address = net.htonl inaddr_broadcast;
}
network4_set_broadcast_addr net (some []) port = record {
  port = net.htons port;
  address = net.htonl inaddr_broadcast;
}
network4_set_broadcast_addr net (some (c ∷ cs)) port = elim (net.inet_pton (c ∷ cs)) [
  | none ↦ record { port = net.htons port; address = net.htonl inaddr_broadcast }
  | some address ↦ record { port = net.htons port; address = address }
]

unfoldable pub network4_is_loopback : Net → Option SockAddr → Bool
network4_is_loopback net none = false
network4_is_loopback net (some addr) = net.ntohl addr.address / 2 ^ 24 == 127

unfoldable pub network4_is_multicast : Net → Option SockAddr → Bool
network4_is_multicast net none = false
network4_is_multicast net (some addr) = net.ntohl addr.address / 2 ^ 28 == 14

unfoldable pub network4_addresses_equal : Option SockAddr → Option SockAddr → Bool
network4_addresses_equal none b = false
network4_addresses_equal (some a) none = false
network4_addresses_equal (some a) (some b) = (a.address == b.address) && (a.port == b.port)
