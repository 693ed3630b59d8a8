-- ===== src/Main/Rounds.antt =====
-- main.c: the loop that synchronises with the servers.
pub mod Laws
use dragon_ntpd.Base.{
  ℕ, suc, ◌+◌, Bool, true, false, not, ◌&&◌, List, [], ◌∷◌, some, ltb, ◌==◌, if◌then◌else◌, Status,
  ok, error,
}
use dragon_ntpd.Daemon.{M, pure, ◌>>=◌}
use dragon_ntpd.Sync.{Env, sync_ntp_time}
use dragon_ntpd.Main.{ServerConfig}

-- `SYNC_RETRY_INTERVAL_SEC`
abbrev pub retry_interval : ℕ
retry_interval = 15

-- The server as it is after the call, by the result; and whether that was a success.
abbrev pub after_sync : ServerConfig → ℕ → Status → ServerConfig × Bool
after_sync server now ok = (record server { next_allowed_sync = 0 }, true)
after_sync server now error = (record server { next_allowed_sync = now + retry_interval }, false)

-- A server that is put off is passed over; `now` is the time, 0 where it cannot be read.
unfoldable pub sync_server : Env → ℕ → ServerConfig → M (ServerConfig × Bool)
sync_server env now server =
    if not (server.next_allowed_sync == 0) && ltb now server.next_allowed_sync
    then pure (server, false)
    else sync_ntp_time env (some server.ip) (some server.port) >>= λ status.
        pure (after_sync server now status)

-- The servers from one on, each with what its call finds; and `all_success`.
unfoldable pub sync_servers : (ℕ → Env × ℕ) → ℕ → List ServerConfig → M (List ServerConfig × Bool)
sync_servers around i [] = pure ([], true)
sync_servers around i (server ∷ servers) = sync_server (around i).0 (around i).1 server >>= λ first.
    sync_servers around (suc i) servers >>= λ rest. pure (first.0 ∷ rest.0, first.1 && rest.1)
