-- ===== src/Examples/Startup.antt =====
-- The file, the loop and the end of main.c.
use dragon_ntpd.Base.{ℕ, ◌+◌, ◌≡◌, ◌⊎◌, refl, List, [], ◌∷◌, ◌++◌, true, arith}
use dragon_ntpd.Base.Lock.{free}
use dragon_ntpd.CommandLine.{g_cli}
use dragon_ntpd.Daemon.Unsynced.{Gives}
use dragon_ntpd.Examples.Limits.{start}
use dragon_ntpd.Examples.Negotiation.{idle}
use dragon_ntpd.Examples.Synchronisation.{begun, exchange}
use dragon_ntpd.Main.{Config, ServerConfig, Memory, server, new_server, read_line}
use dragon_ntpd.Main.Lines.{print_server, lacks, read_line-print_server}
use dragon_ntpd.Main.Rounds.{sync_servers}
use dragon_ntpd.Main.Rounds.Laws.{RoundOf, sync_servers-PutOff}
use dragon_ntpd.Main.Shutdown.{
  Program, waiting, undefined, cleanup_resources, cleanup_resources_lem,
}
use dragon_ntpd.Threads.Clock.{g_clock_ctx}
use dragon_ntpd.Threads.Peer.{g_peer_ctx}
use dragon_ntpd.Mode.ConfigFile.{codes}
use dragon_ntpd.Mode.Network.{same_text}
use dragon_ntpd.Examples.Threading.{started, serving}

abbrev memory : Memory
memory = record { strdup = true; realloc = true }

abbrev empty : Config
empty = record { cli = g_cli; servers = []; peer_pool = [] }

abbrev lines : List (List ℕ × Memory)
lines =
    (codes "# servers", memory)
    ∷ (print_server (codes "10.0.0.1") (codes "123"), memory)
    ∷ (codes "broadcast_interval=64", memory)
    ∷ []

line_example :
    read_line (print_server (codes "10.0.0.1") (codes "123"))
    ≡ server (codes "10.0.0.1") (codes "123" ++ (b'\n' ∷ []))
unfolding same_text lacks
line_example =
    read_line-print_server (codes "10.0.0.1") (codes "123") refl refl (omega arith) (omega arith)
      (omega arith)

abbrev two_servers : List ServerConfig
two_servers =
    new_server (codes "10.0.0.1", codes "123") ∷ new_server (codes "10.0.0.2", codes "123") ∷ []

round_example :
    Gives
      (RoundOf (λ i. (exchange, 1000 + i)) 0 two_servers)
      (sync_servers (λ i. (exchange, 1000 + i)) 0 two_servers begun)
round_example = sync_servers-PutOff (λ i. (exchange, 1000 + i)) 0 two_servers begun refl

-- The globals before any thread was started.
abbrev unstarted : Program
unstarted = record {
  clock_thread = g_clock_ctx;
  peers = g_peer_ctx;
  ido = idle;
  leap = begun.leap;
  mode = free start;
  config = empty;
}

-- The clock thread runs.
abbrev ticking : Program
ticking = record unstarted { clock_thread = record started { running = true }; peers = serving }

shutdown_example :
    (cleanup_resources unstarted ≡ waiting)
    × (cleanup_resources ticking ≡ undefined)
    × ((cleanup_resources ticking ≡ waiting) ⊎ (cleanup_resources ticking ≡ undefined))
shutdown_example =
    cleanup_resources_lem unstarted ticking ticking
      (record {
        clock_ended = refl;
        mutex_live = refl;
        cond_live = refl;
        peers_ended = λ i. refl;
        mutexes_live = λ i. refl;
      })
      refl refl
