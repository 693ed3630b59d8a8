-- ===== src/Main/Laws.antt =====
-- What dntpd.conf makes of the servers and of the pool.
use dragon_ntpd.Base.{
  ℕ, ◌-◌, ◌≡◌, true, false, List, [], ◌∷◌, ◌++◌, map, Option, some, length, take,
}
use dragon_ntpd.Daemon.{PeerState}
use dragon_ntpd.Base.Int.{pos}
use dragon_ntpd.Main.{
  zero_ido, Config, ServerConfig, Memory, Entry, nothing, broadcast_mode, broadcast_addr,
  broadcast_interval, server, read_line, new_server, new_peer,
}

-- The servers that the lines name, in order.
abbrev pub server_of : Entry → List (List ℕ × List ℕ)
server_of nothing = []
server_of (broadcast_mode value) = []
server_of (broadcast_addr value) = []
server_of (broadcast_interval value) = []
server_of (server ip port) = (ip, port) ∷ []

unfoldable pub named : List (List ℕ × Memory) → List (List ℕ × List ℕ)
named [] = []
named ((line, memory) ∷ rest) = server_of (read_line line) ++ named rest

-- Memory is given for every line.
abbrev pub HasMemory : List (List ℕ × Memory) → Type 0
HasMemory [] = Unit {0}
HasMemory ((line, memory) ∷ rest) =
    (memory.strdup ≡ true) × (memory.realloc ≡ true) × HasMemory rest

-- The pool with as many more entries as it has room for.
abbrev pub filled : List PeerState → List (List ℕ × List ℕ) → List PeerState
filled pool entries = pool ++ map new_peer (take (8 - length pool) entries)

-- What the lines leave: the servers and the pool, with the entries behind those that are there.
abbrev Loaded : List (List ℕ × List ℕ) → Config → Config × ℕ → Type 0
Loaded entries s r =
    (r.0.servers ≡ s.servers ++ map new_server entries)
    × (r.0.peer_pool ≡ filled s.peer_pool entries)
    × (r.1 ≡ length r.0.servers)

-- One line, where memory is given.
abbrev Entered : List (List ℕ × List ℕ) → Config → Option Config → Type 0
Entered entries s o =
    (s' : Config) × (o ≡ some s')
    × (s'.servers ≡ s.servers ++ map new_server entries)
    × ((rest : List (List ℕ × List ℕ))
        → filled s'.peer_pool rest ≡ filled s.peer_pool (entries ++ rest))

abbrev no_servers : List (List ℕ × List ℕ)
no_servers = []

-- The lists have the same length and the elements are related one by one.
abbrev pub Pairwise : {A B : Type 0} → (A → B → Type 0) → List A → List B → Type 0
Pairwise rel [] [] = Unit {0}
Pairwise rel [] (y ∷ ys) = ⊥
Pairwise rel (x ∷ xs) [] = ⊥
Pairwise rel (x ∷ xs) (y ∷ ys) = rel x y × Pairwise rel xs ys

-- A server with that address and port that may be asked at once.
pub record IsNewServer (named : List ℕ × List ℕ) (entry : ServerConfig) : Type 0 where
  pub ip : entry.ip ≡ named.0
  pub port : entry.port ≡ named.1
  pub at_once : entry.next_allowed_sync ≡ 0

-- A peer that nothing is known of but its address and port, as much of them as fits.
pub record IsNewPeer (named : List ℕ × List ℕ) (peer : PeerState) : Type 0 where
  pub ip : peer.ip ≡ take 63 named.0
  pub port : peer.port ≡ take 15 named.1
  pub unsynchronised : peer.stratum ≡ 16
  pub unreachable : peer.reachable ≡ false
  pub no_offset : peer.offset_us ≡ pos 0
  pub no_delay : peer.delay_us ≡ 0
  pub no_update : peer.last_update ≡ 0
  pub no_state : peer.ido_state ≡ zero_ido
