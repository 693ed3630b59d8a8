-- ===== src/Main/Rounds/Laws.antt =====
-- No round of the loop of `main` succeeds.
use dragon_ntpd.Base.{
  ℕ, suc, ◌<◌, ◌≡◌, refl, Bool, false, not, ◌&&◌, List, [], ◌∷◌, some, ltb, ◌==◌, length, Status,
  ok, error, arith, Bool-cases, inl, inr,
}
use dragon_ntpd.Daemon.{Daemon, Outcome, returns, waits, faults, pure, ◌>>=◌}
use dragon_ntpd.Daemon.Unsynced.{Unsynced, Gives, Fails}
use dragon_ntpd.Sync.{Env, sync_ntp_time}
use dragon_ntpd.Sync.Laws.{sync_ntp_time-Fails}
use dragon_ntpd.Main.{ServerConfig}
use dragon_ntpd.Main.Rounds.{after_sync, sync_server, sync_servers}

-- The server waits for a time later than that of its turn.
abbrev pub PutOff : ℕ → ServerConfig → Type 0
PutOff now server = now < server.next_allowed_sync

abbrev pub AllPutOff : (ℕ → Env × ℕ) → ℕ → List ServerConfig → Type 0
AllPutOff around i [] = Unit {0}
AllPutOff around i (server ∷ servers) =
    PutOff (around i).1 server × AllPutOff around (suc i) servers

-- The same servers, but for the time.
abbrev pub SameServers : List ServerConfig → List ServerConfig → Type 0
SameServers [] [] = Unit {0}
SameServers [] (t ∷ ts) = ⊥
SameServers (s ∷ ss) [] = ⊥
SameServers (s ∷ ss) (t ∷ ts) = (s.ip ≡ t.ip) × (s.port ≡ t.port) × SameServers ss ts

-- One server's turn.
abbrev Turn : ℕ → ServerConfig → ServerConfig × Bool → Daemon → Type 0
Turn now server r d =
    (r.1 ≡ false) × PutOff now r.0 × (server.ip ≡ r.0.ip) × (server.port ≡ r.0.port) × Unsynced d

synced-Turn :
    (now : ℕ) (server : ServerConfig) (o : Outcome Status)
    → Gives (λ status d'. (status ≡ error) × Unsynced d') o
    → Gives (Turn now server) (elim o [
      | returns status d' ↦ pure (after_sync server now status) d'
      | waits ↦ waits
      | faults ↦ faults
    ])
synced-Turn now server (returns ok d) (bad, u) = absurd cc
synced-Turn now server (returns error d) (bad, u) = (refl, omega arith, refl, refl, u)
synced-Turn now server waits h = tt
synced-Turn now server faults h = tt

sync_server-Turn :
    (env : Env) (now : ℕ) (server : ServerConfig) (d : Daemon)
    → Unsynced d
    → Gives (Turn now server) (sync_server env now server d)
unfolding sync_server Fails
sync_server-Turn env now server d u =
    elim (Bool-cases (not (server.next_allowed_sync == 0) && ltb now server.next_allowed_sync)) [
      | inl early ↦ rw early (refl, ground arith, refl, refl, u)
      | inr due ↦ rw due (
          synced-Turn now server (sync_ntp_time env (some server.ip) (some server.port) d)
            (sync_ntp_time-Fails env (some server.ip) (some server.port) d u))
    ]

-- What a round over some servers leaves.
abbrev pub RoundOf :
    (ℕ → Env × ℕ) → ℕ → List ServerConfig → List ServerConfig × Bool → Daemon → Type 0
RoundOf around i servers r d =
    (r.1 ≡ (length servers == 0)) × AllPutOff around i r.0 × SameServers servers r.0 × Unsynced d

rest_round :
    (around : ℕ → Env × ℕ) (i : ℕ) (server : ServerConfig) (servers : List ServerConfig)
    (first : ServerConfig × Bool) (o : Outcome (List ServerConfig × Bool))
    → (first.1 ≡ false)
    → PutOff (around i).1 first.0
    → (server.ip ≡ first.0.ip)
    → (server.port ≡ first.0.port)
    → Gives (RoundOf around (suc i) servers) o
    → Gives (RoundOf around i (server ∷ servers)) (elim o [
      | returns rest d' ↦ pure (first.0 ∷ rest.0, first.1 && rest.1) d'
      | waits ↦ waits
      | faults ↦ faults
    ])
rest_round around i server servers first (returns rest d) failed later ip port (all, off, same, u) =
    let more : (length (server ∷ servers) == 0) ≡ false = ground arith in
    (rw (failed, more) refl, (later, off), (ip, port, same), u)
rest_round around i server servers first waits failed later ip port h = tt
rest_round around i server servers first faults failed later ip port h = tt

round_from :
    (around : ℕ → Env × ℕ) (i : ℕ) (server : ServerConfig) (servers : List ServerConfig)
    (o : Outcome (ServerConfig × Bool))
    → Gives (Turn (around i).1 server) o
    → ((d : Daemon)
        → Unsynced d
        → Gives (RoundOf around (suc i) servers) (sync_servers around (suc i) servers d))
    → Gives (RoundOf around i (server ∷ servers)) (elim o [
      | returns first d' ↦
          (sync_servers around (suc i) servers >>= λ rest.
          pure (first.0 ∷ rest.0, first.1 && rest.1))
            d'
      | waits ↦ waits
      | faults ↦ faults
    ])
round_from around i server servers (returns first d) (failed, later, ip, port, u) k =
    rest_round around i server servers first (sync_servers around (suc i) servers d) failed later ip
      port (k d u)
round_from around i server servers waits h k = tt
round_from around i server servers faults h k = tt

-- From every state where the clock is not synchronised, over every list of servers, whatever the network and the
-- operating system answer: if a round of the loop of `main` returns, the clock is still not synchronised, the servers are the
-- same, and each of them, passed over or asked, is put off to a time later than that of its turn; the round is not a
-- success unless there is no server.
pub sync_servers-PutOff :
    (around : ℕ → Env × ℕ) (i : ℕ) (servers : List ServerConfig) (d : Daemon)
    → Unsynced d
    → Gives (RoundOf around i servers) (sync_servers around i servers d)
unfolding sync_servers
sync_servers-PutOff around i [] d u = (refl, tt, tt, u)
sync_servers-PutOff around i (server ∷ servers) d u =
    round_from around i server servers (sync_server (around i).0 (around i).1 server d)
      (sync_server-Turn (around i).0 (around i).1 server d u)
      (λ d' u'. sync_servers-PutOff around (suc i) servers d' u')
