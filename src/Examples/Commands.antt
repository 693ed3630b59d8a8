-- ===== src/Examples/Commands.antt =====
-- Command lines of config.c.
use dragon_ntpd.Base.{[], ◌∷◌, List, ℕ, false, length, arith}
use dragon_ntpd.Base.Int.{pos}
use dragon_ntpd.Mode.ConfigFile.{Integer, codes}
use dragon_ntpd.CommandLine.{g_cli, parse_arguments}
use dragon_ntpd.CommandLine.Laws.{IsCli, parse_arguments-IsCli}

-- A number of one digit.
abbrev pub strtol : List ℕ → Integer
strtol str = record { value = pos 3; end = length str; failed = false }

command_example :
    IsCli
      (parse_arguments strtol g_cli (codes "dntpd" ∷ codes "-D" ∷ codes "3" ∷ codes "-4" ∷ [])).0
command_example =
    parse_arguments-IsCli strtol g_cli (codes "dntpd" ∷ codes "-D" ∷ codes "3" ∷ codes "-4" ∷ []) (
      omega arith,
      omega arith,
      omega arith,
      omega arith,
      omega arith,
      omega arith,
      omega arith,
      omega arith,
      omega arith,
    )
