-- ===== src/Examples/Threading.antt =====
-- Threads of threads.c.
use dragon_ntpd.Base.{
  ℕ, ◌+◌, ◌*◌, ◌≤◌, ◌<◌, ◌≡◌, refl, List, [], ◌∷◌, some, none, true, false, ok, length, replicate,
  arith,
}
use dragon_ntpd.Base.Int.{pos}
use dragon_ntpd.Examples.Negotiation.{idle}
use dragon_ntpd.Examples.Requests.{clock}
use dragon_ntpd.Mode.ConfigFile.{codes}
use dragon_ntpd.Network4.{SockAddr}
use dragon_ntpd.Threads.{System, destroyed, detached, ready}
use dragon_ntpd.Threads.Clock.{
  ClockThread, Round, g_clock_ctx, start_clock_thread, clock_thread_init, deadline, notified,
}
use dragon_ntpd.Threads.Clock.Offset.{deadline_lem}
use dragon_ntpd.Threads.Peer.{Env, Peers, g_peer_ctx, set_peer, zero_peer}
use dragon_ntpd.Threads.Peer.Loop.{Served, datagram, no_data, peer_loop}
use dragon_ntpd.Threads.Peer.Loop.Laws.{received_bytes, peer_loop-bound}
use dragon_ntpd.Threads.Peer.Lifetime.{Request}

-- Every call of the thread library succeeds.
abbrev system : System
system = record { mutex_init = true; cond_init = true; create = true; detach = true }

-- The clock thread behind its start.
abbrev pub started : ClockThread
started = record g_clock_ctx {
  interval_ms = 30;
  clock_mutex = destroyed;
  clock_cond = destroyed;
  thread_id = detached;
}

starts : start_clock_thread system g_clock_ctx 30 ≡ some (started, ok)
unfolding start_clock_thread clock_thread_init
starts = refl

-- One round in 2025.
abbrev round : Round
round = record {
  os = record {
    clock_gettime = some (1750000000, 0);
    clock_settime = λ s n. ok;
    adjtime = λ s u. ok;
  };
  gettimeofday = some (1750000000, 0);
  clock_gettime = some (1750000000, 0);
  last_sync = record { sec = 0; frac = 0 };
  wait = λ time. notified;
  still_running = true;
}

deadline_example :
    ((deadline 5 999000000 30).0 * 1000000000 + (deadline 5 999000000 30).1
      ≡ 5 * 1000000000 + 999000000 + 30 * 1000000)
    × ((deadline 5 999000000 30).1 < 1000000000)
deadline_example = deadline_lem 5 999000000 30 (omega arith)

-- A request of 80 bytes to a thread that runs.
abbrev asking : List ℕ
asking = 35 ∷ 0 ∷ 6 ∷ 236 ∷ replicate 84 1

abbrev peer_env : Env
peer_env = record {
  clock = clock;
  peer_poll = pos 4;
  now = record { sec = 3900000000; frac = 0 };
  sendto = λ sock packet to. true;
}

abbrev pub serving : Peers
serving =
    set_peer g_peer_ctx 0
      (record (zero_peer true detached) { sock_mutex = ready; sock_valid = true; sock_fd = some 5 })

abbrev sender : SockAddr
sender = record { port = 7; address = 8 }

loop_example :
    (r : Served) × (peer_loop
        (datagram peer_env asking sender true ∷ no_data false ∷ [])
        0
        serving
        idle
      ≡ some r)
    × (length r.sent * 80
        ≤ received_bytes (datagram peer_env asking sender true ∷ no_data false ∷ []))
loop_example =
    peer_loop-bound (datagram peer_env asking sender true ∷ no_data false ∷ []) 0 serving idle
      (omega arith) refl

abbrev to_start : Request
to_start = record {
  sock_fd = some 5;
  ip = some (codes "0.0.0.0");
  port = some (codes "123");
  peer_state = none;
  idx = pos 0;
}
