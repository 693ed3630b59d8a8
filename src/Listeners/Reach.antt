-- ===== src/Listeners/Reach.antt =====
-- What the sockets of socket.c are behind any sequence of its calls.
use dragon_ntpd.Base.{
  ℕ, ◌≡◌, refl, sym, subst, false, List, [], ◌∷◌, Option, none, some, ◌==◌, error, inl, inr,
  Bool-cases,
}
use dragon_ntpd.Base.Int.{ℤ}
use dragon_ntpd.Base.Lock.{done, free, ◌>>=◌, ◌>>◌}
use dragon_ntpd.CommandLine.{CliConfig}
use dragon_ntpd.Listeners.{
  Call, closed, Family, ipv4, ipv6, Kernel, network4_create_socket, network6_create_socket,
  create_udp_socket, create_tcp_socket,
}
use dragon_ntpd.Listeners.Created.{
  Created, udp_family, create_udp_socket-Created, create_tcp_socket-Created,
}
use dragon_ntpd.Listeners.Endpoints.{
  Endpoints, g_endpoints, is_sock, sync_from, sync_created, close_unless_kept, default_ntpq_port,
  Operation, sync, udp, close, start_tcp, stop_tcp, perform, perform_all, get_sync_socket,
  close_socket, start_tcp_listener, stop_tcp_listener, start_ntpq_thread, tcp_created, tcp_stopped,
  udp_created,
}
use dragon_ntpd.Threads.{System}
use dragon_ntpd.Listeners.Open.{
  IsKernel, IsOpen, Created-IsOpen, returned-IsOpen, network4_create_socket-Created,
  network6_create_socket-Created, create_tcp_socket-none,
}

-- The socket of the synchronisation is open or none, and ntpq has none.
record IsKept (e : Endpoints) : Type 0 where
  sync_open : IsOpen e.calls e.sync_sock
  no_tcp : e.tcp_sock ≡ none

module _ (k : Kernel) (i : IsKernel k) where
  -- An operation returns with the mutex free and what is kept.
  abbrev Returns : Operation → Endpoints → Type 0
  Returns o e = (e' : Endpoints) × (perform k o (free e) ≡ done tt (free e')) × IsKept e'

  sync_created-IsKept :
      (f : Family) (e : Endpoints) (r : Option ℕ × List Call)
      → Created k f e.calls r
      → e.tcp_sock ≡ none
      → IsKept (sync_created e r)
  sync_created-IsKept f e r c t = record {
    sync_open = returned-IsOpen k i f e.calls r c;
    no_tcp = t;
  }

  sync_from-IsKept :
      (cli : CliConfig) (e : Endpoints) (sock : Option ℕ)
      → e.sync_sock ≡ sock
      → IsKept e
      → IsKept (sync_from k cli e sock)
  sync_from-IsKept cli e (some s) same kp = kp
  sync_from-IsKept cli e none same kp = elim (Bool-cases (cli.family_preference == 2)) [
    | inl b ↦ rw b (
        sync_created-IsKept ipv6 e (network6_create_socket k e.calls)
          (network6_create_socket-Created k i e.calls) kp.no_tcp)
    | inr b ↦ rw b (
        sync_created-IsKept ipv4 e (network4_create_socket k e.calls)
          (network4_create_socket-Created k i e.calls) kp.no_tcp)
  ]

  sync-Returns : (cli : CliConfig) (e : Endpoints) → IsKept e → Returns (sync cli) e
  unfolding perform get_sync_socket
  sync-Returns cli e kp =
      (sync_from k cli e e.sync_sock, refl, sync_from-IsKept cli e e.sync_sock refl kp)

  udp-Returns : (cli : CliConfig) (port : ℤ) (e : Endpoints) → IsKept e → Returns (udp cli port) e
  unfolding perform
  udp-Returns cli port e kp = (
    udp_created e (create_udp_socket k cli port e.calls),
    refl,
    record {
      sync_open =
          Created-IsOpen k i (udp_family cli) e.calls (create_udp_socket k cli port e.calls)
            e.sync_sock (create_udp_socket-Created k cli port e.calls) kp.sync_open;
      no_tcp = kp.no_tcp;
    },
  )

  closed-IsOpen :
      (h : List Call) (kept : Option ℕ) (s : ℕ)
      → is_sock kept s ≡ false
      → IsOpen h kept
      → IsOpen (closed s ∷ h) kept
  closed-IsOpen h none s b o = tt
  closed-IsOpen h (some x) s b o = rw b o

  -- ntpq's socket is none, so that the second comparison fails.
  close_unless_kept-IsKept :
      (e : Endpoints) (sock : Option ℕ) → IsKept e → IsKept (close_unless_kept sock none e)
  close_unless_kept-IsKept e none kp = kp
  close_unless_kept-IsKept e (some s) kp = elim (Bool-cases (is_sock e.sync_sock s)) [
    | inl b ↦ rw b kp
    | inr b ↦ rw b (record {
      sync_open = closed-IsOpen e.calls e.sync_sock s b kp.sync_open;
      no_tcp = kp.no_tcp;
    })
  ]

  close-Returns : (sock : Option ℕ) (e : Endpoints) → IsKept e → Returns (close sock) e
  unfolding perform close_socket
  close-Returns sock e kp = (
    close_unless_kept sock e.tcp_sock e,
    refl,
    subst (λ t. IsKept (close_unless_kept sock t e)) (sym kp.no_tcp)
        (close_unless_kept-IsKept e sock kp),
  )

  start_tcp-Returns : (e : Endpoints) → IsKept e → Returns start_tcp e
  unfolding perform start_tcp_listener
  start_tcp-Returns e kp = (
    tcp_created e (create_tcp_socket k default_ntpq_port e.calls),
    rw kp.no_tcp refl,
    record {
      sync_open =
          Created-IsOpen k i ipv4 e.calls (create_tcp_socket k default_ntpq_port e.calls)
            e.sync_sock (create_tcp_socket-Created k default_ntpq_port e.calls) kp.sync_open;
      no_tcp = create_tcp_socket-none k i default_ntpq_port e.calls;
    },
  )

  stop_tcp-Returns : (e : Endpoints) → IsKept e → Returns stop_tcp e
  unfolding perform stop_tcp_listener
  stop_tcp-Returns e kp =
      (tcp_stopped e e.tcp_sock, refl, subst (λ t. IsKept (tcp_stopped e t)) (sym kp.no_tcp) kp)

  perform-Returns : (o : Operation) (e : Endpoints) → IsKept e → Returns o e
  perform-Returns (sync cli) e kp = sync-Returns cli e kp
  perform-Returns (udp cli port) e kp = udp-Returns cli port e kp
  perform-Returns (close sock) e kp = close-Returns sock e kp
  perform-Returns start_tcp e kp = start_tcp-Returns e kp
  perform-Returns stop_tcp e kp = stop_tcp-Returns e kp

  perform_all-Returns :
      (os : List Operation) (e : Endpoints)
      → IsKept e
      → (e' : Endpoints) × (perform_all k os (free e) ≡ done tt (free e')) × IsKept e'
  unfolding perform_all
  perform_all-Returns [] e kp = (e, refl, kp)
  perform_all-Returns (o ∷ os) e kp =
      let (e', one, kp') = perform-Returns o e kp in
      let (e'', rest, kp'') = perform_all-Returns os e' kp' in
      (e'', rw (one, ◌>>=◌, ◌>>◌) rest, kp'')

g_endpoints-IsKept : IsKept g_endpoints
g_endpoints-IsKept = record { sync_open = tt; no_tcp = refl }

-- Where `socket` returns descriptors that are not open and `listen` fails on a datagram socket: any
-- sequence of the calls of socket.c that create and close sockets, of any arguments, returns with the
-- mutex free, keeps the socket of the synchronisation open, and leaves ntpq without a socket, so that
-- `start_ntpq_thread` fails behind it.
pub perform_all-IsKept :
    (k : Kernel) (os : List Operation) (sys : System)
    → IsKernel k
    → (e : Endpoints) × (perform_all k os (free g_endpoints) ≡ done tt (free e))
      × IsOpen e.calls e.sync_sock
      × (e.tcp_sock ≡ none)
      × (start_ntpq_thread sys e ≡ error)
unfolding start_ntpq_thread
perform_all-IsKept k os sys i =
    let (e, run, kp) = perform_all-Returns k i os g_endpoints g_endpoints-IsKept in
    (e, run, kp.sync_open, kp.no_tcp, rw kp.no_tcp refl)
