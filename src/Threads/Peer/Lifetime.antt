-- ===== src/Threads/Peer/Lifetime.antt =====
-- threads.c: the start, the end and the clean-up of the threads that receive requests.
pub mod Laws
use dragon_ntpd.Base.{
  ℕ, zero, suc, ◌+◌, Bool, true, false, not, List, [], ◌∷◌, Option, none, some, if◌then◌else◌, take,
  Status, ok, error, ◌>>=◌,
}
use dragon_ntpd.Base.Int.{ℤ, pos}
use dragon_ntpd.Threads.{ready, usable, destroy, detached, join, System}
use dragon_ntpd.Threads.Peer.{Peer, Peers, set_peer, zero_peer, valid_index}

-- What `start_peer_thread` is called with; a null text is `none`.
pub record Request : Type 0 where
  pub sock_fd : Option ℕ
  pub ip : Option (List ℕ)
  pub port : Option (List ℕ)
  pub peer_state : Option ℕ
  pub idx : ℤ

-- `snprintf` keeps 15 bytes of either text.
unfoldable pub peer_thread_init :
    System → Option ℕ → List ℕ → List ℕ → Option ℕ → Peers → ℕ → Peers × Status
peer_thread_init sys sock_fd ip port peer_state peers i =
    let peer = record (zero_peer (peers i).running (peers i).thread) {
      sock_fd = sock_fd;
      ip = take 15 ip;
      port = take 15 port;
      peer_state = peer_state;
    } in
    if not sys.mutex_init
    then (set_peer peers i peer, error)
    else (set_peer peers i (record peer { sock_mutex = ready }), ok)

-- Behind the initialisation.
abbrev pub start_initialised : System → Request → ℕ → Peers × Status → Peers × Status
start_initialised sys r i (peers, error) = (peers, error)
start_initialised sys r i (peers, ok) =
    let peer = record (peers i) { idx = r.idx } in
    if not sys.create
    then (set_peer peers i peer, error)
    else if not sys.detach
    then (set_peer peers i peer, error)
    else (
      set_peer peers i (record peer {
        thread = detached;
        running = true;
        sock_valid = true;
        sock_fd = r.sock_fd;
        peer_state = r.peer_state;
      }),
      ok,
    )

-- By the arguments that were checked.
abbrev pub start_checked :
    System
    → Request
    → Peers
    → Option ℕ
    → Option (List ℕ)
    → Option (List ℕ)
    → Option ℕ
    → Peers × Status
start_checked sys r peers none ip port index = (peers, error)
start_checked sys r peers (some fd) none port index = (peers, error)
start_checked sys r peers (some fd) (some ip) none index = (peers, error)
start_checked sys r peers (some fd) (some ip) (some port) none = (peers, error)
start_checked sys r peers (some fd) (some ip) (some port) (some i) =
    start_initialised sys r i (peer_thread_init sys (some fd) ip port r.peer_state peers i)

unfoldable pub start_peer_thread : System → Request → Peers → Peers × Status
unfolding peer_thread_init
start_peer_thread sys r peers = start_checked sys r peers r.sock_fd r.ip r.port (valid_index r.idx)

-- The loop over the entries from one on.
unfoldable pub stop_from : ℕ → ℕ → Peers → Option Peers
stop_from zero i peers = some peers
stop_from (suc n) i peers =
    if (peers i).running
    then elim (join (peers i).thread) [
      | none ↦ none
      | some thread ↦
          stop_from n (i + 1)
            (set_peer peers i (record (peers i) { running = false; thread = thread }))
    ]
    else stop_from n (i + 1) peers

-- For `g_peer_pool_count` entries.
unfoldable pub stop_peer_thread : ℕ → Peers → Option Peers
unfolding stop_from
stop_peer_thread count peers = stop_from count 0 peers

-- The descriptor that is closed.
abbrev pub closed_with : Option ℕ → List ℕ → List ℕ
closed_with none closed = closed
closed_with (some fd) closed = fd ∷ closed

abbrev pub after_closed : Option ℕ → Option (Peers × List ℕ) → Option (Peers × List ℕ)
after_closed fd none = none
after_closed fd (some (peers, closed)) = some (peers, closed_with fd closed)

unfoldable pub cleanup_from : ℕ → ℕ → Peers → Option (Peers × List ℕ)
cleanup_from zero i peers = some (peers, [])
cleanup_from (suc n) i peers =
    if (peers i).running
    then cleanup_from n (i + 1) peers
    else elim (destroy (peers i).sock_mutex) [
      | none ↦ none
      | some mutex ↦ after_closed (peers i).sock_fd (
          cleanup_from n (i + 1)
            (set_peer peers i (record (peers i) { sock_fd = none; sock_mutex = mutex })))
    ]

-- The table and the descriptors that are closed, in order; a mutex that is locked is destroyed next, and
-- neither is defined for one that was destroyed.
unfoldable pub cleanup_peer_thread : ℕ → Peers → Option (Peers × List ℕ)
unfolding cleanup_from
cleanup_peer_thread count peers = cleanup_from count 0 peers
