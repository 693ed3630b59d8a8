-- ===== src/Network4/Options.antt =====
-- network4.c: the options of a socket, the receiving of datagrams and the printing of addresses.
-- `Net4` is what the operating system and the C library answer; otherwise as in Network6.
use dragon_ntpd.Base.{
  ℕ, zero, suc, Bool, List, Option, none, some, if◌then◌else◌, Status, ok, error,
}
use dragon_ntpd.Base.Int.{ℤ}
use dragon_ntpd.Network4.{SockAddr}
use dragon_ntpd.Network6.{SocketOption, reuseaddr, receive_timeout, send_timeout, formatted}

pub record Net4 : Type 0 where
  pub setsockopt : Option ℕ → SocketOption → Bool
  pub recvfrom : ℕ → ℕ → Option (List ℕ × SockAddr)
  pub inet_ntop : ℕ → Option (List ℕ)

unfoldable pub network4_recvfrom : Net4 → Option ℕ → Option ℕ → Option (List ℕ × SockAddr)
network4_recvfrom net none len = none
network4_recvfrom net (some sock) none = none
network4_recvfrom net (some sock) (some len) = net.recvfrom sock len

unfoldable pub network4_format_address : Net4 → Option SockAddr → Option ℕ → ℕ × Option (List ℕ)
network4_format_address net none buf = (0, none)
network4_format_address net (some addr) none = (0, none)
network4_format_address net (some addr) (some zero) = (0, none)
network4_format_address net (some addr) (some (suc n)) = formatted n (net.inet_ntop addr.address)

unfoldable pub network4_enable_reuseaddr : Net4 → Option ℕ → Status
network4_enable_reuseaddr net sock = if net.setsockopt sock reuseaddr then ok else error

unfoldable pub network4_set_timeout : Net4 → Option ℕ → ℤ → Status
network4_set_timeout net sock seconds =
    if net.setsockopt sock (receive_timeout seconds)
    then (if net.setsockopt sock (send_timeout seconds) then ok else error)
    else error
