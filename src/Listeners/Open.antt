-- ===== src/Listeners/Open.antt =====
-- Which descriptors are open behind the calls of socket.c, and what its creations leave open.
use dragon_ntpd.Base.{
  ℕ, ◌≡◌, refl, sym, subst, ◌∙◌, true, false, List, [], ◌∷◌, Option, none, some, ◌==◌,
  if◌then◌else◌, Status, inl, inr, Bool-cases, Option-cases, ==_iff,
}
use dragon_ntpd.Listeners.{
  Call, opened, closed, Family, ipv4, ipv6, SocketType, dgram, Kernel, network4_create_socket,
  network6_create_socket, create_tcp_socket, tcp_bound, network4_bind_socket, network4_bind_to_port,
}
use dragon_ntpd.Listeners.Created.{
  Created, nothing, listening, closed_once, closed_twice, Bound, kept, refused, lost,
  network4_bind_socket-Bound, opening-Created,
}

-- The type of an open socket, none for a descriptor that these calls have not opened or have closed.
abbrev pub type_of : List Call → ℕ → Option SocketType
type_of [] fd = none
type_of (opened f t s ∷ h) fd = if s == fd then some t else type_of h fd
type_of (closed s ∷ h) fd = if s == fd then none else type_of h fd

-- `socket` returns a descriptor that is not open, and `listen` fails on a datagram socket
-- (EOPNOTSUPP).
pub record IsKernel (k : Kernel) : Type 0 where
  pub fresh :
      (h : List Call) (f : Family) (s : ℕ) → k.socket h f dgram ≡ some s → type_of h s ≡ none
  pub not_listening : (h : List Call) (s : ℕ) → type_of h s ≡ some dgram → k.listen h s ≡ false

-- No socket, or an open datagram socket.
abbrev pub IsOpen : List Call → Option ℕ → Type 0
IsOpen h none = Unit {0}
IsOpen h (some s) = type_of h s ≡ some dgram

==_refl : (s : ℕ) → (s == s) ≡ true
==_refl s = (==_iff s s).1 refl

some_and_none : {t : SocketType} → some t ≡ none → ⊥
some_and_none e = absurd cc

distinct :
    (h : List Call) (s x : ℕ) → type_of h s ≡ none → type_of h x ≡ some dgram → (s == x) ≡ false
distinct h s x a b = elim (Bool-cases (s == x)) [
  | inl e ↦ absurd (some_and_none (sym b ∙ subst (λ y. type_of h y ≡ none) ((==_iff s x).0 e) a))
  | inr e ↦ e
]

module _ (k : Kernel) (i : IsKernel k) where
  -- What was open stays open.
  Created-open :
      (f : Family) (h : List Call) (r : Option ℕ × List Call) (x : ℕ)
      → Created k f h r
      → type_of h x ≡ some dgram
      → type_of r.1 x ≡ some dgram
  Created-open f h r x nothing o = o
  Created-open f h r x (listening s e) o = rw (distinct h s x (i.fresh h f s e) o) o
  Created-open f h r x (closed_once s e) o = rw (distinct h s x (i.fresh h f s e) o) o
  Created-open f h r x (closed_twice s e) o = rw (distinct h s x (i.fresh h f s e) o) o

  pub Created-IsOpen :
      (f : Family) (h : List Call) (r : Option ℕ × List Call) (sock : Option ℕ)
      → Created k f h r
      → IsOpen h sock
      → IsOpen r.1 sock
  Created-IsOpen f h r none c o = tt
  Created-IsOpen f h r (some x) c o = Created-open f h r x c o

  pub returned-IsOpen :
      (f : Family) (h : List Call) (r : Option ℕ × List Call) → Created k f h r → IsOpen r.1 r.0
  returned-IsOpen f h r nothing = tt
  returned-IsOpen f h r (listening s e) = rw (==_refl s) refl
  returned-IsOpen f h r (closed_once s e) = tt
  returned-IsOpen f h r (closed_twice s e) = tt

  pub network4_create_socket-Created :
      (h : List Call) → Created k ipv4 h (network4_create_socket k h)
  unfolding network4_create_socket
  network4_create_socket-Created h = opening-Created k ipv4 h

  pub network6_create_socket-Created :
      (h : List Call) → Created k ipv6 h (network6_create_socket k h)
  unfolding network6_create_socket
  network6_create_socket-Created h = opening-Created k ipv6 h

  -- A datagram socket, whether bound or not, never listens.
  tcp_bound-none :
      (f : Family) (h : List Call) (s : ℕ) (r : Status × List Call)
      → Bound f h s r
      → (tcp_bound k s r).0 ≡ none
  tcp_bound-none f h s r kept =
      rw (i.not_listening (opened f dgram s ∷ h) s (rw (==_refl s) refl)) refl
  tcp_bound-none f h s r refused = refl
  tcp_bound-none f h s r lost = refl

  pub create_tcp_socket-none : (port : ℕ) (h : List Call) → (create_tcp_socket k port h).0 ≡ none
  unfolding create_tcp_socket network4_create_socket network4_bind_to_port
  create_tcp_socket-none port h = elim (Option-cases (k.socket h ipv4 dgram)) [
    | inl e ↦ rw e refl
    | inr (s, e) ↦ rw e (
        tcp_bound-none ipv4 h s (network4_bind_socket k s none port (opened ipv4 dgram s ∷ h))
          (network4_bind_socket-Bound k ipv4 h s none port))
  ]
