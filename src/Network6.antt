-- ===== src/Network6.antt =====
-- network6.c: IPv6 addresses, datagrams and multicast groups. `Net6` is what the operating system and
-- the C library answer: `setsockopt` with an option, `sendto`, `recvfrom`, `inet_pton`, `inet_ntop`,
-- `htons` and the macros IN6_IS_ADDR_LOOPBACK, IN6_IS_ADDR_MULTICAST and IN6_IS_ADDR_LINKLOCAL.
-- Negative descriptors, null pointers and the result -1 of a transfer are `none`.
pub mod Laws
use dragon_ntpd.Base.{
  ℕ, zero, suc, ◌-◌, Bool, true, false, ◌&&◌, List, [], ◌∷◌, Option, none, some, ◌==◌, take, length,
  if◌then◌else◌, Status, ok, error,
}
use dragon_ntpd.Base.Int.{ℤ, pos_part}
use dragon_ntpd.Mode.Network.{same_text}

-- `struct sockaddr_in6`: the port in network byte order, the sixteen bytes and the scope.
pub record SockAddr6 : Type 0 where
  pub port : ℕ
  pub address : List ℕ
  pub scope_id : ℕ

-- The options that are set, with their values; a group has the index of its interface.
pub data SocketOption : Type 0 where
  reuseaddr : SocketOption
  v6only : Bool → SocketOption
  receive_timeout send_timeout : ℤ → SocketOption
  join_group leave_group : List ℕ → ℕ → SocketOption

pub record Net6 : Type 0 where
  pub setsockopt : Option ℕ → SocketOption → Bool
  pub sendto : ℕ → List ℕ → SockAddr6 → Option ℕ
  pub recvfrom : ℕ → ℕ → Option (List ℕ × SockAddr6)
  pub inet_pton : List ℕ → Option (List ℕ)
  pub inet_ntop : List ℕ → Option (List ℕ)
  pub htons : ℕ → ℕ
  pub is_loopback : List ℕ → Bool
  pub is_multicast : List ℕ → Bool
  pub is_link_local : List ℕ → Bool

-- 0 or -1 by the result of `setsockopt`.
abbrev pub set_option : Net6 → Option ℕ → SocketOption → Status
set_option net sock o = if net.setsockopt sock o then ok else error

unfoldable pub network6_set_v6only : Net6 → Option ℕ → Bool → Status
network6_set_v6only net sock value = set_option net sock (v6only value)

unfoldable pub network6_sendto : Net6 → Option ℕ → Option (List ℕ) → Option SockAddr6 → Option ℕ
network6_sendto net none buf dest = none
network6_sendto net (some sock) none dest = none
network6_sendto net (some sock) (some buf) none = none
network6_sendto net (some sock) (some buf) (some dest) = net.sendto sock buf dest

-- With the size of the buffer, none for a null pointer: the bytes received and their sender.
unfoldable pub network6_recvfrom : Net6 → Option ℕ → Option ℕ → Option (List ℕ × SockAddr6)
network6_recvfrom net none len = none
network6_recvfrom net (some sock) none = none
network6_recvfrom net (some sock) (some len) = net.recvfrom sock len

-- The address that is filled in, or none where -1 is returned.
unfoldable pub network6_parse_address : Net6 → Option (List ℕ) → ℕ → Option SockAddr6
network6_parse_address net none port = none
network6_parse_address net (some addr_str) port = elim (net.inet_pton addr_str) [
  | none ↦ none
  | some address ↦ some (record { port = net.htons port; address = address; scope_id = 0 })
]

-- The result with the text that the buffer holds, none where nothing is written.
abbrev pub formatted : ℕ → Option (List ℕ) → ℕ × Option (List ℕ)
formatted n none = (0, some [])
formatted n (some addr_str) = (length (take n addr_str), some (take n addr_str))

-- With the size of the buffer, none for a null pointer.
unfoldable pub network6_format_address : Net6 → Option SockAddr6 → Option ℕ → ℕ × Option (List ℕ)
network6_format_address net none buf = (0, none)
network6_format_address net (some addr) none = (0, none)
network6_format_address net (some addr) (some zero) = (0, none)
network6_format_address net (some addr) (some (suc n)) = formatted n (net.inet_ntop addr.address)

unfoldable pub network6_is_loopback : Net6 → Option SockAddr6 → Bool
network6_is_loopback net none = false
network6_is_loopback net (some addr) = net.is_loopback addr.address

unfoldable pub network6_is_multicast : Net6 → Option SockAddr6 → Bool
network6_is_multicast net none = false
network6_is_multicast net (some addr) = net.is_multicast addr.address

unfoldable pub network6_is_link_local : Net6 → Option SockAddr6 → Bool
network6_is_link_local net none = false
network6_is_link_local net (some addr) = net.is_link_local addr.address

unfoldable pub network6_addresses_equal : Option SockAddr6 → Option SockAddr6 → Bool
network6_addresses_equal none b = false
network6_addresses_equal (some a) none = false
network6_addresses_equal (some a) (some b) = same_text a.address b.address && (a.port == b.port)

unfoldable pub network6_enable_reuseaddr : Net6 → Option ℕ → Status
network6_enable_reuseaddr net sock = set_option net sock reuseaddr

-- The second option is set only behind the first.
unfoldable pub network6_set_timeout : Net6 → Option ℕ → ℤ → Status
network6_set_timeout net sock seconds =
    if net.setsockopt sock (receive_timeout seconds)
    then set_option net sock (send_timeout seconds)
    else error

-- `join_group` or `leave_group`, where the group can be read.
abbrev pub group_option : Net6 → ℕ → (List ℕ → ℕ → SocketOption) → ℤ → Option (List ℕ) → Status
group_option net sock option index none = error
group_option net sock option index (some group) =
    set_option net (some sock) (option group (pos_part index))

-- An index that is not positive means any interface.
unfoldable pub network6_join_multicast : Net6 → Option ℕ → Option (List ℕ) → ℤ → Status
network6_join_multicast net none group_addr index = error
network6_join_multicast net (some sock) none index = error
network6_join_multicast net (some sock) (some group_addr) index =
    group_option net sock join_group index (net.inet_pton group_addr)

unfoldable pub network6_leave_multicast : Net6 → Option ℕ → Option (List ℕ) → ℤ → Status
network6_leave_multicast net none group_addr index = error
network6_leave_multicast net (some sock) none index = error
network6_leave_multicast net (some sock) (some group_addr) index =
    group_option net sock leave_group index (net.inet_pton group_addr)
