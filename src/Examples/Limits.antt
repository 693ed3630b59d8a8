-- ===== src/Examples/Limits.antt =====
-- Concrete calls of mode_handler.c.
use dragon_ntpd.Base.{
  ℕ, ◌<◌, ◌+◌, ◌-◌, ◌*◌, ◌/◌, ◌%◌, ◌^◌, ◌≡◌, ◌⊎◌, ◌++◌, List, [], ◌∷◌, some, arith, length, false,
  true, none, if◌then◌else◌,
}
use dragon_ntpd.Base.Lock.{M, done, free}
use dragon_ntpd.Examples.Packets.{reply}
use dragon_ntpd.Mode.{ModeState, default_config, success}
use dragon_ntpd.Mode.Network.{Libc, parse_ip, same_text}
use dragon_ntpd.Mode.ConfigFile.{Scanner, codes, mode_handler_parse_config}
use dragon_ntpd.Mode.ConfigFile.Laws.{IsConfigured, mode_handler_parse_config-IsConfigured}
use dragon_ntpd.Base.Int.{pos}
use dragon_ntpd.Mode.RateLimit.{rate_limit_update, rate_limit_check, limited}
use dragon_ntpd.Mode.RateLimit.Laws.{rate_limit_check-rate_limit_update}
use dragon_ntpd.Mode.RateLimit.Table.{IsTable, rate_limit_update-IsTable}
use dragon_ntpd.Mode.Auth.{Authentication, absent, not_supported, validate_packet_authentication}
use dragon_ntpd.Mode.Auth.Laws.{HasMac, validate_packet_authentication_lem}

-- A little-endian host, and addresses written as one decimal number, which `inet_addr` also reads.
abbrev pub decimal : ℕ → List ℕ → ℕ
decimal n [] = n
decimal n (d ∷ ds) = decimal (n * 10 + (d - 48)) ds

abbrev pub swap : ℕ → ℕ
swap n = n % 256 * 2 ^ 24 + n / 2 ^ 8 % 256 * 2 ^ 16 + n / 2 ^ 16 % 256 * 2 ^ 8 + n / 2 ^ 24 % 256

abbrev pub libc : Libc
libc = record {
  inet_addr = λ text. swap (decimal 0 text);
  scan_unsigned = λ text. some (decimal 0 text);
  htonl = swap;
}

abbrev pub start : ModeState
start = record { config = default_config; acl_entries = []; rate_limit_entries = [] }

-- "77", an address, and "77/8", its network
abbrev pub client : List ℕ
client = b'7' ∷ b'7' ∷ []

abbrev network : List ℕ
network = b'7' ∷ b'7' ∷ b'/' ∷ b'8' ∷ []

limit_example :
    (s' : ModeState) × (rate_limit_update libc 100 (some client) (free start) ≡ done tt (free s'))
    × (rate_limit_check libc 101 (some client) (free s') ≡ done limited (free s'))
unfolding parse_ip
limit_example = rate_limit_check-rate_limit_update libc client 100 101 start (omega arith)

update_example :
    (s' : ModeState) × (rate_limit_update libc 100 (some client) (free start) ≡ done tt (free s'))
    × IsTable s'.rate_limit_entries
    × (s'.config ≡ default_config)
    × (s'.acl_entries ≡ [])
update_example =
    rate_limit_update-IsTable libc (some client) 100 start
      (record { few = omega arith; distinct = tt })

-- A reply with a field of type 9, and a MAC field behind it.
abbrev with_mac : List ℕ
with_mac = reply ++ 0 ∷ 9 ∷ 0 ∷ 5 ∷ 1 ∷ 0 ∷ 0 ∷ 0 ∷ 0 ∷ 3 ∷ 0 ∷ 4 ∷ []

authentication_example :
    (m : M ModeState Authentication) × (validate_packet_authentication (some with_mac) 60 ≡ some m)
    × (((48 < 60) × HasMac with_mac 60 48 × (m (free start) ≡ done not_supported (free start)))
        ⊎ ((¬ ((48 < 60) × HasMac with_mac 60 48)) × (m (free start) ≡ done absent (free start))))
authentication_example = validate_packet_authentication_lem with_mac 60 start (omega arith)

-- The lines "enable_broadcast yes" and "77", which has no second word.
abbrev scanner : Scanner
scanner = record {
  libc = libc;
  sscanf = λ line. if same_text line [] then none else some (codes "enable_broadcast", codes "yes");
  strtoll = λ val. record { value = pos (decimal 0 val); end = length val; failed = false };
  strtod = λ val. record {
    ratio = λ n. n * decimal 0 val;
    negative = false;
    end = length val;
    failed = false;
  };
}

start-IsConfigured : IsConfigured start
start-IsConfigured = record {
  config = (
    omega arith,
    omega arith,
    omega arith,
    omega arith,
    omega arith,
    omega arith,
    omega arith,
    omega arith,
    omega arith,
    omega arith,
  );
  entries = omega arith;
}

parse_config_example :
    (s' : ModeState) × (mode_handler_parse_config scanner true
        (some (codes "enable_broadcast yes" ∷ codes "# end" ∷ []))
        (free start)
      ≡ done success (free s'))
    × IsConfigured s'
parse_config_example =
    mode_handler_parse_config-IsConfigured scanner
      (codes "enable_broadcast yes" ∷ codes "# end" ∷ []) start start-IsConfigured
