-- ===== src/Listeners/Created.antt =====
-- What the functions of socket.c that create a socket return, and which calls they have made by then.
use dragon_ntpd.Base.{
  ℕ, ◌≡◌, Bool, true, false, List, ◌∷◌, Option, none, some, ◌==◌, if◌then◌else◌, Status, ok, error,
  inl, inr, Bool-cases, Option-cases,
}
use dragon_ntpd.Base.Int.{ℤ}
use dragon_ntpd.CommandLine.{CliConfig}
use dragon_ntpd.Listeners.{
  Call, opened, closed, Family, ipv4, ipv6, dgram, Kernel, opening, bound, bind_to4,
  interface_address, interface_scope, network4_create_socket, network6_create_socket,
  network4_bind_socket, network6_bind_socket, network4_bind_to_port, valid_port, udp_bound4,
  udp_bound6, udp_created4, udp_created6, udp_for, create_udp_socket, tcp_listening, tcp_bound,
  create_tcp_socket,
}

-- Nothing was opened, a socket was opened and is returned, or it was closed, once or twice.
pub data Created (k : Kernel) (f : Family) (h : List Call) : Option ℕ × List Call → Type 0 where
  nothing : Created k f h (none, h)
  listening : (s : ℕ) → k.socket h f dgram ≡ some s → Created k f h (some s, opened f dgram s ∷ h)
  closed_once :
      (s : ℕ) → k.socket h f dgram ≡ some s → Created k f h (none, closed s ∷ opened f dgram s ∷ h)
  closed_twice :
      (s : ℕ)
      → k.socket h f dgram ≡ some s
      → Created k f h (none, closed s ∷ closed s ∷ opened f dgram s ∷ h)

pub opening-Created :
    (k : Kernel) (f : Family) (h : List Call) → Created k f h (opening f h (k.socket h f dgram))
opening-Created k f h = elim (Option-cases (k.socket h f dgram)) [
  | inl e ↦ rw e nothing
  | inr (s, e) ↦ rw e (listening s e)
]

-- A socket that was opened, behind the attempt to bind it.
pub data Bound (f : Family) (h : List Call) (s : ℕ) : Status × List Call → Type 0 where
  kept : Bound f h s (ok, opened f dgram s ∷ h)
  refused : Bound f h s (error, opened f dgram s ∷ h)
  lost : Bound f h s (error, closed s ∷ opened f dgram s ∷ h)

bound-Bound :
    (f : Family) (h : List Call) (s : ℕ) (b : Bool) → Bound f h s (bound s (opened f dgram s ∷ h) b)
bound-Bound f h s true = kept
bound-Bound f h s false = lost

network6_bind_socket-Bound :
    (k : Kernel) (f : Family) (h : List Call) (s : ℕ) (interface : Option (List ℕ)) (port : ℕ)
    → Bound f h s (network6_bind_socket k s interface port (opened f dgram s ∷ h))
unfolding network6_bind_socket
network6_bind_socket-Bound k f h s interface port = bound-Bound f h s (
    k.bind6 (opened f dgram s ∷ h) s
      (record { port = k.htons port; scope_id = interface_scope k interface }))

bind_to4-Bound :
    (k : Kernel) (f : Family) (h : List Call) (s port : ℕ) (address : Option ℕ)
    → Bound f h s (bind_to4 k s port (opened f dgram s ∷ h) address)
bind_to4-Bound k f h s port none = refused
bind_to4-Bound k f h s port (some address) =
    bound-Bound f h s
      (k.bind4 (opened f dgram s ∷ h) s (record { port = k.htons port; address = address }))

pub network4_bind_socket-Bound :
    (k : Kernel) (f : Family) (h : List Call) (s : ℕ) (interface : Option (List ℕ)) (port : ℕ)
    → Bound f h s (network4_bind_socket k s interface port (opened f dgram s ∷ h))
unfolding network4_bind_socket
network4_bind_socket-Bound k f h s interface port =
    bind_to4-Bound k f h s port (interface_address k interface)

module _ (k : Kernel) (f : Family) (h : List Call) (s : ℕ) (e : k.socket h f dgram ≡ some s) where
  udp_bound4-Created : (r : Status × List Call) → Bound f h s r → Created k f h (udp_bound4 s r)
  udp_bound4-Created r kept = listening s e
  udp_bound4-Created r refused = closed_once s e
  udp_bound4-Created r lost = closed_twice s e

  udp_bound6-Created : (r : Status × List Call) → Bound f h s r → Created k f h (udp_bound6 s r)
  udp_bound6-Created r kept = listening s e
  udp_bound6-Created r refused = closed_once s e
  udp_bound6-Created r lost = closed_twice s e

  tcp_listening-Created : (b : Bool) → Created k f h (tcp_listening s (opened f dgram s ∷ h) b)
  tcp_listening-Created true = listening s e
  tcp_listening-Created false = closed_once s e

  tcp_bound-Created : (r : Status × List Call) → Bound f h s r → Created k f h (tcp_bound k s r)
  tcp_bound-Created r kept = tcp_listening-Created (k.listen (opened f dgram s ∷ h) s)
  tcp_bound-Created r refused = closed_once s e
  tcp_bound-Created r lost = closed_twice s e

udp_created4-Created :
    (k : Kernel) (h : List Call) (interface : Option (List ℕ)) (port : ℕ)
    → Created k ipv4 h (udp_created4 k interface port (network4_create_socket k h))
unfolding network4_create_socket
udp_created4-Created k h interface port = elim (Option-cases (k.socket h ipv4 dgram)) [
  | inl e ↦ rw e nothing
  | inr (s, e) ↦ rw e (
      udp_bound4-Created k ipv4 h s e
        (network4_bind_socket k s interface port (opened ipv4 dgram s ∷ h))
        (network4_bind_socket-Bound k ipv4 h s interface port))
]

udp_created6-Created :
    (k : Kernel) (h : List Call) (interface : Option (List ℕ)) (port : ℕ)
    → Created k ipv6 h (udp_created6 k interface port (network6_create_socket k h))
unfolding network6_create_socket
udp_created6-Created k h interface port = elim (Option-cases (k.socket h ipv6 dgram)) [
  | inl e ↦ rw e nothing
  | inr (s, e) ↦ rw e (
      udp_bound6-Created k ipv6 h s e
        (network6_bind_socket k s interface port (opened ipv6 dgram s ∷ h))
        (network6_bind_socket-Bound k ipv6 h s interface port))
]

-- The family that `create_udp_socket` uses.
abbrev pub udp_family : CliConfig → Family
udp_family cli = if cli.family_preference == 1 then ipv6 else ipv4

udp_for-Created :
    (k : Kernel) (cli : CliConfig) (h : List Call) (port : Option ℕ)
    → Created k (udp_family cli) h (udp_for k cli h port)
udp_for-Created k cli h none = nothing
udp_for-Created k cli h (some port) = elim (Bool-cases (cli.family_preference == 1)) [
  | inl e ↦ rw e (udp_created6-Created k h cli.interface port)
  | inr e ↦ rw e (udp_created4-Created k h cli.interface port)
]

pub create_udp_socket-Created :
    (k : Kernel) (cli : CliConfig) (port : ℤ) (h : List Call)
    → Created k (udp_family cli) h (create_udp_socket k cli port h)
unfolding create_udp_socket
create_udp_socket-Created k cli port h = udp_for-Created k cli h (valid_port port)

pub create_tcp_socket-Created :
    (k : Kernel) (port : ℕ) (h : List Call) → Created k ipv4 h (create_tcp_socket k port h)
unfolding create_tcp_socket network4_create_socket network4_bind_to_port
create_tcp_socket-Created k port h = elim (Option-cases (k.socket h ipv4 dgram)) [
  | inl e ↦ rw e nothing
  | inr (s, e) ↦ rw e (
      tcp_bound-Created k ipv4 h s e (network4_bind_socket k s none port (opened ipv4 dgram s ∷ h))
        (network4_bind_socket-Bound k ipv4 h s none port))
]
