-- ===== src/Main.antt =====
-- main.c: dntpd.conf. The file is what `fopen` and `fgets` make of it, its lines with their line ends,
-- or none; `strtol` is the C library's, and so is whether memory is given (`Memory`). The pool and the
-- servers are written under `g_mutex`, by the one thread there is.
pub mod Laws
pub mod Lines
pub mod Rounds
pub mod Shutdown
use dragon_ntpd.Base.{
  ℕ, ◌-◌, ◌%◌, ◌^◌, Bool, true, false, ◌&&◌, ◌||◌, not, List, [], ◌∷◌, ◌++◌, Option, none, some,
  ltb, leb, ◌==◌, if◌then◌else◌, length, take, replicate,
}
use dragon_ntpd.Base.Int.{ℤ, pos, negsuc, pos_part, ltb_ℤ}
use dragon_ntpd.Ido.{IdoState}
use dragon_ntpd.Daemon.{PeerState}
use dragon_ntpd.Mode.ConfigFile.{Integer, codes, starts_with}
use dragon_ntpd.CommandLine.{CliConfig}

-- `ServerConfig` of ntpd.h
pub record ServerConfig : Type 0 where
  pub ip : List ℕ
  pub port : List ℕ
  pub next_allowed_sync : ℕ

-- The globals that the file changes: `g_cli`, `g_servers` with its count, and the peer pool.
pub record Config : Type 0 where
  pub cli : CliConfig
  pub servers : List ServerConfig
  pub peer_pool : List PeerState

-- Whether both calls of `strdup`, and that of `realloc`, succeed.
pub record Memory : Type 0 where
  pub strdup : Bool
  pub realloc : Bool

-- `(int)` of a `long`: its lower 32 bits, read with a sign.
abbrev pub lower_bits : ℤ → ℕ
lower_bits (pos n) = n % 2 ^ 32
lower_bits (negsuc n) = 2 ^ 32 - 1 - n % 2 ^ 32

abbrev pub int32 : ℤ → ℤ
int32 z =
    if ltb (lower_bits z) (2 ^ 31) then pos (lower_bits z) else negsuc (2 ^ 32 - 1 - lower_bits z)

-- `strchr`: the text before the first such byte and the text behind it.
unfoldable pub cut : ℕ → List ℕ → Option (List ℕ × List ℕ)
cut c [] = none
cut c (x ∷ text) =
    let rest = cut c text in
    if x == c
    then some ([], text)
    else elim rest [ none ↦ none | some (before, behind) ↦ some (x ∷ before, behind) ]

abbrev pub is_line_end : ℕ → Bool
is_line_end c = (c == b'\n') || (c == b'\r')

-- Without the line ends at its end.
unfoldable pub trimmed : List ℕ → List ℕ
trimmed [] = []
trimmed (c ∷ text) =
    let rest = trimmed text in if (length rest == 0) && is_line_end c then [] else c ∷ rest

-- What a line says; the values stand behind the first '='.
pub data Entry : Type 0 where
  nothing : Entry
  broadcast_mode broadcast_addr broadcast_interval : Option (List ℕ × List ℕ) → Entry
  server : List ℕ → List ℕ → Entry

-- The line starts with a line feed, a '#' or a carriage return.
abbrev pub is_skipped : List ℕ → Bool
is_skipped [] = false
is_skipped (c ∷ text) = (c == b'\n') || ((c == b'#') || (c == b'\r'))

-- A line of an address and a port, each of which fits its array.
abbrev pub server_at : Option (List ℕ × List ℕ) → Entry
server_at none = nothing
server_at (some (ip, port)) =
    if length ip == 0
    then nothing
    else if leb 127 (length ip)
    then nothing
    else if leb 15 (length port)
    then nothing
    else server ip port

unfoldable pub read_line : List ℕ → Entry
read_line line =
    if is_skipped line
    then nothing
    else if starts_with (codes "enable_broadcast") 16 line
    then broadcast_mode (cut b'=' line)
    else if starts_with (codes "broadcast_addr") 14 line
    then broadcast_addr (cut b'=' line)
    else if starts_with (codes "broadcast_interval") 18 line
    then broadcast_interval (cut b'=' line)
    else server_at (cut b':' line)

abbrev pub set_broadcast_mode : ℤ → CliConfig → CliConfig
set_broadcast_mode value cli = elim value [
  | pos n ↦ if n == 1 then record cli { broadcast_mode = 1 } else cli
  | negsuc n ↦ cli
]

-- An address of 1 to 15 bytes.
abbrev pub set_broadcast_addr : List ℕ → CliConfig → CliConfig
set_broadcast_addr text cli =
    if ltb 1 (length text) && (ltb 0 (length (trimmed text)) && ltb (length (trimmed text)) 16)
    then record cli { broadcast_addr = some (trimmed text) }
    else cli

abbrev pub set_broadcast_interval : ℤ → CliConfig → CliConfig
set_broadcast_interval value cli =
    if not (ltb_ℤ value (pos 32)) && not (ltb_ℤ (pos 128) value)
    then record cli { broadcast_interval = pos_part value }
    else cli

abbrev pub zero_ido : IdoState
zero_ido = record {
  ido_state = 0;
  ido_offer_received = 0;
  ido_response_sent = 0;
  ido_capabilities = 0;
  ido_key_id = 0;
  ido_key = replicate 20 0;
  ido_enabled = 0;
  ido_authenticated = 0;
}

abbrev pub new_server : List ℕ × List ℕ → ServerConfig
new_server (ip, port) = record { ip = ip; port = port; next_allowed_sync = 0 }

-- The arrays of the pool take 63 and 15 bytes.
abbrev pub new_peer : List ℕ × List ℕ → PeerState
new_peer (ip, port) = record {
  ip = take 63 ip;
  port = take 15 port;
  stratum = 16;
  delay_us = 0;
  offset_us = pos 0;
  jitter_us = 0;
  root_disp = 0;
  last_update = 0;
  reachable = false;
  ido_state = zero_ido;
}

-- The pool has room for `MAX_PEERS`.
abbrev pub add_peer : List PeerState → List ℕ × List ℕ → List PeerState
add_peer pool entry = if ltb (length pool) 8 then pool ++ (new_peer entry ∷ []) else pool

-- None where memory is missing.
unfoldable pub load_entry : (List ℕ → Integer) → Memory → Entry → Config → Option Config
load_entry strtol memory nothing s = some s
load_entry strtol memory (broadcast_mode none) s = some s
load_entry strtol memory (broadcast_mode (some (key, text))) s =
    some (record s { cli = set_broadcast_mode (int32 (strtol text).value) s.cli })
load_entry strtol memory (broadcast_addr none) s = some s
load_entry strtol memory (broadcast_addr (some (key, text))) s =
    some (record s { cli = set_broadcast_addr text s.cli })
load_entry strtol memory (broadcast_interval none) s = some s
load_entry strtol memory (broadcast_interval (some (key, text))) s =
    some (record s { cli = set_broadcast_interval (int32 (strtol text).value) s.cli })
load_entry strtol memory (server ip port) s =
    if not memory.strdup
    then none
    else if not memory.realloc
    then none
    else some (record s {
      servers = s.servers ++ (new_server (ip, port) ∷ []);
      peer_pool = add_peer s.peer_pool (ip, port);
    })

-- The servers are given up where memory is missing.
unfoldable pub load_lines : (List ℕ → Integer) → List (List ℕ × Memory) → Config → Config × ℕ
load_lines strtol [] s = (s, length s.servers)
load_lines strtol ((line, memory) ∷ rest) s = elim (load_entry strtol memory (read_line line) s) [
  | none ↦ (record s { servers = [] }, 0)
  | some s' ↦ load_lines strtol rest s'
]

-- The number of servers; 0 where the file cannot be opened.
unfoldable pub load_server_config :
    (List ℕ → Integer) → Option (List (List ℕ × Memory)) → Config → Config × ℕ
load_server_config strtol none s = (s, 0)
load_server_config strtol (some lines) s = load_lines strtol lines s
