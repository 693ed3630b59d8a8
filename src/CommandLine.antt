-- ===== src/CommandLine.antt =====
-- The command line: config.c.
-- An argument is its bytes before the zero. `strtol` is the C library's. What is printed is left out, and
-- `strndup` is taken to have memory.
pub mod Laws
pub mod Family
pub mod Exclusive
use dragon_ntpd.Base.{
  ℕ, ◌-◌, Bool, true, false, not, ◌&&◌, ◌||◌, List, [], ◌∷◌, Option, none, some, ltb, ◌==◌,
  if◌then◌else◌, take, drop,
}
use dragon_ntpd.Base.Int.{pos, pos_part, ltb_ℤ}
use dragon_ntpd.Mode.Network.{same_text}
use dragon_ntpd.Mode.ConfigFile.{Integer, codes, starts_with}

pub record CliConfig : Type 0 where
  pub config_file : List ℕ
  pub pid_file : List ℕ
  pub log_file : Option (List ℕ)
  -- none for null; `some none` for a pointer to the byte behind its argument.
  pub run_user : Option (Option (List ℕ))
  pub interface : Option (List ℕ)
  pub foreground : ℕ
  pub debug_level : ℕ
  pub no_daemonize : ℕ
  pub timeout_sec : ℕ
  pub quit_after_sync : ℕ
  pub family_preference : ℕ
  pub broadcast_mode : ℕ
  pub broadcast_addr : Option (List ℕ)
  pub broadcast_interval : ℕ

-- 0, -1, RET_HELP and RET_VERSION.
pub data Code : Type 0 where
  success failure help version : Code

-- The number, or none for -1; it is stored only where there is one.
unfoldable pub parse_positive_int : (List ℕ → Integer) → List ℕ → ℕ → ℕ → Option ℕ
parse_positive_int strtol [] low high = none
parse_positive_int strtol (c ∷ str) low high =
    let r = strtol (c ∷ str) in
    if (r.end == 0) || r.failed
    then none
    else if ltb_ℤ r.value (pos low) || ltb_ℤ (pos high) r.value
    then none
    else some (pos_part r.value)

-- The texts that an option sets. "--user=" is compared with its end, and what is set then stands behind it.
pub data Text : Type 0 where
  config_file log_file interface run_user user_behind pid_file : Text

-- What an argument is, in the order of the tests; for `--name=value`, where the value begins.
pub data Kind : Type 0 where
  help version foreground no_daemonize level debug timeout ipv4 ipv6 broadcast quit unknown : Kind
  text : Text → Kind
  text_in : Text → ℕ → Kind
  level_in timeout_in address_in : ℕ → Kind

unfoldable pub kind_of : List ℕ → Kind
kind_of arg =
    if same_text arg (codes "-h") || same_text arg (codes "--help")
    then help
    else if same_text arg (codes "-v")
        || (same_text arg (codes "--version")
            || (same_text arg (codes "-V") || same_text arg (codes "--verbose")))
    then version
    else if same_text arg (codes "-c") || same_text arg (codes "--config")
    then text config_file
    else if starts_with (codes "--config=") 9 arg
    then text_in config_file 9
    else if same_text arg (codes "-f") || same_text arg (codes "--foreground")
    then foreground
    else if same_text arg (codes "-n") || same_text arg (codes "--no-daemonize")
    then no_daemonize
    else if same_text arg (codes "-D")
    then level
    else if starts_with (codes "-D=") 3 arg
    then level_in 3
    else if starts_with (codes "--debug=") 8 arg
    then level_in 8
    else if same_text arg (codes "-d") || same_text arg (codes "--debug")
    then debug
    else if same_text arg (codes "-l") || same_text arg (codes "--log")
    then text log_file
    else if starts_with (codes "--log=") 6 arg
    then text_in log_file 6
    else if same_text arg (codes "-t") || same_text arg (codes "--timeout")
    then timeout
    else if starts_with (codes "--timeout=") 10 arg
    then timeout_in 10
    else if same_text arg (codes "-I") || same_text arg (codes "--interface")
    then text interface
    else if starts_with (codes "--interface=") 12 arg
    then text_in interface 12
    else if same_text arg (codes "-u") || same_text arg (codes "--user")
    then text run_user
    else if starts_with (codes "--user=") 8 arg
    then text_in user_behind 8
    else if same_text arg (codes "-p") || same_text arg (codes "--pid")
    then text pid_file
    else if starts_with (codes "--pid=") 6 arg
    then text_in pid_file 6
    else if same_text arg (codes "-4") || same_text arg (codes "--ipv4")
    then ipv4
    else if same_text arg (codes "-6") || same_text arg (codes "--ipv6")
    then ipv6
    else if same_text arg (codes "-b") || same_text arg (codes "--broadcast")
    then broadcast
    else if starts_with (codes "-B=") 3 arg
    then address_in 3
    else if starts_with (codes "--broadcast-addr=") 17 arg
    then address_in 17
    else if same_text arg (codes "-q") || same_text arg (codes "--quit")
    then quit
    else unknown

-- One round: it goes on behind the argument, or behind its value too, or returns.
pub data Round : Type 0 where
  next : CliConfig → Round
  next_but_one : CliConfig → Round
  return : CliConfig → Code → Round

abbrev pub set_text : Text → List ℕ → CliConfig → CliConfig
set_text config_file value c = record c { config_file = value }
set_text log_file value c = record c { log_file = some value }
set_text interface value c = record c { interface = some value }
set_text run_user value c = record c { run_user = some (some value) }
set_text user_behind value c = record c { run_user = some none }
set_text pid_file value c = record c { pid_file = value }

-- What follows the number that was read, or the failure.
abbrev pub with_level : CliConfig → (CliConfig → Round) → Option ℕ → Round
with_level c go none = return c failure
with_level c go (some n) = go (record c { debug_level = n })

abbrev pub with_timeout : CliConfig → (CliConfig → Round) → Option ℕ → Round
with_timeout c go none = return c failure
with_timeout c go (some n) = go (record c { timeout_sec = n })

-- The argument, and the next one where it does not begin with '-'.
unfoldable pub apply : (List ℕ → Integer) → CliConfig → Kind → List ℕ → Option (List ℕ) → Round
apply strtol c help arg value = return c help
apply strtol c version arg value = return c version
apply strtol c (text t) arg none = return c failure
apply strtol c (text t) arg (some value) = next_but_one (set_text t value c)
apply strtol c (text_in t n) arg value = next (set_text t (drop n arg) c)
apply strtol c foreground arg value = next (record c { foreground = 1 })
apply strtol c no_daemonize arg value = next (record c { no_daemonize = 1 })
apply strtol c level arg none = next (record c { debug_level = 1 })
apply strtol c level arg (some value) =
    with_level c next_but_one (parse_positive_int strtol value 0 3)
apply strtol c (level_in n) arg value =
    with_level c next (parse_positive_int strtol (drop n arg) 0 3)
apply strtol c debug arg value = next (record c { debug_level = 1 })
apply strtol c timeout arg none = return c failure
apply strtol c timeout arg (some value) =
    with_timeout c next_but_one (parse_positive_int strtol value 1 86400)
apply strtol c (timeout_in n) arg value =
    with_timeout c next (parse_positive_int strtol (drop n arg) 1 86400)
apply strtol c ipv4 arg value =
    if c.family_preference == 2 then return c failure else next (record c { family_preference = 1 })
apply strtol c ipv6 arg value =
    if c.family_preference == 1 then return c failure else next (record c { family_preference = 2 })
apply strtol c broadcast arg value = next (record c { broadcast_mode = 1 })
apply strtol c (address_in n) arg value =
    next (record c { broadcast_addr = some (take 15 (drop n arg)) })
apply strtol c quit arg value = next (record c { quit_after_sync = 1 })
apply strtol c unknown arg value = return c failure

-- `argv[i + 1]`, where its first byte is not '-'.
abbrev pub value_at : List ℕ → Option (List ℕ)
value_at [] = some []
value_at (c ∷ arg) = if c == b'-' then none else some (c ∷ arg)

abbrev pub follow :
    {A : Type 0} → Round → (CliConfig → A) → (CliConfig → A) → (CliConfig → Code → A) → A
follow (next c) f g h = f c
follow (next_but_one c) f g h = g c
follow (return c code) f g h = h c code

-- The loop, from an argument on. What was set before an error stays set.
unfoldable pub parse_loop : (List ℕ → Integer) → CliConfig → List (List ℕ) → CliConfig × Code
unfolding apply
parse_loop strtol c [] = (c, success)
parse_loop strtol c (arg ∷ []) =
    follow (apply strtol c (kind_of arg) arg none) (λ c'. (c', success)) (λ c'. (c', success))
      (λ c' code. (c', code))
parse_loop strtol c (arg ∷ value ∷ rest) =
    follow (apply strtol c (kind_of arg) arg (value_at value))
      (λ c'. parse_loop strtol c' (value ∷ rest)) (λ c'. parse_loop strtol c' rest)
      (λ c' code. (c', code))

-- The arguments, the name of the program first.
unfoldable pub parse_arguments : (List ℕ → Integer) → CliConfig → List (List ℕ) → CliConfig × Code
unfolding parse_loop
parse_arguments strtol c [] = (c, success)
parse_arguments strtol c (name ∷ args) = parse_loop strtol c args

abbrev pub g_cli : CliConfig
g_cli = record {
  config_file = codes "/etc/dntpd/dntpd.conf";
  pid_file = codes "/var/run/dntpd.pid";
  log_file = none;
  run_user = none;
  interface = none;
  foreground = 0;
  debug_level = 0;
  no_daemonize = 0;
  timeout_sec = 30;
  quit_after_sync = 0;
  family_preference = 0;
  broadcast_mode = 0;
  broadcast_addr = none;
  broadcast_interval = 64;
}
