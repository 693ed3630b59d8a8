-- ===== src/CommandLine/Laws.antt =====
-- What a command line can make of the configuration of config.c.
use dragon_ntpd.Base.{
  ℕ, ◌≤◌, ◌≡◌, refl, inl, inr, List, [], ◌∷◌, Option, none, some, length, length-take, arith,
  Bool-cases, ◌==◌, drop,
}
use dragon_ntpd.Mode.ConfigFile.{Integer}
use dragon_ntpd.CommandLine.{
  CliConfig, Code, success, Text, Kind, Round, next, next_but_one, return, help, version,
  foreground, no_daemonize, level, debug, timeout, ipv4, ipv6, broadcast, quit, unknown, text,
  text_in, level_in, timeout_in, address_in, set_text, config_file, log_file, interface, run_user,
  user_behind, pid_file, kind_of, with_level, with_timeout, parse_positive_int, apply, value_at,
  follow, parse_loop, parse_arguments,
}

abbrev pub address_length : Option (List ℕ) → ℕ
address_length none = 0
address_length (some address) = length address

-- The switches are 0 or 1, the numbers are in their bounds, and the address fits its 16 bytes.
abbrev pub IsCli : CliConfig → Type 0
IsCli c =
    (c.foreground ≤ 1)
    × (c.no_daemonize ≤ 1)
    × (c.quit_after_sync ≤ 1)
    × (c.broadcast_mode ≤ 1)
    × (c.debug_level ≤ 3)
    × (1 ≤ c.timeout_sec)
    × (c.timeout_sec ≤ 86400)
    × (c.family_preference ≤ 2)
    × (address_length c.broadcast_addr ≤ 15)

-- What holds behind a round that goes on by one argument, by two, or returns.
abbrev pub All :
    (CliConfig → Type 0) → (CliConfig → Type 0) → (CliConfig → Code → Type 0) → Round → Type 0
All Q₁ Q₂ R (next c) = Q₁ c
All Q₁ Q₂ R (next_but_one c) = Q₂ c
All Q₁ Q₂ R (return c code) = R c code

pub follow-All :
    {Q₁ Q₂ : CliConfig → Type 0} {R : CliConfig → Code → Type 0} (P : CliConfig × Code → Type 0)
    (f g : CliConfig → CliConfig × Code) (r : Round)
    → All Q₁ Q₂ R r
    → ((c : CliConfig) → Q₁ c → P (f c))
    → ((c : CliConfig) → Q₂ c → P (g c))
    → ((c : CliConfig) (code : Code) → R c code → P (c, code))
    → P (follow r f g (λ c code. (c, code)))
follow-All P f g (next c) h k₁ k₂ k₃ = k₁ c h
follow-All P f g (next_but_one c) h k₁ k₂ k₃ = k₂ c h
follow-All P f g (return c code) h k₁ k₂ k₃ = k₃ c code h

abbrev Keeps : Round → Type 0
Keeps = All IsCli IsCli (λ c code. IsCli c)

set_text-IsCli : (t : Text) (value : List ℕ) (c : CliConfig) → IsCli c → IsCli (set_text t value c)
set_text-IsCli config_file value c h = h
set_text-IsCli log_file value c h = h
set_text-IsCli interface value c h = h
set_text-IsCli run_user value c h = h
set_text-IsCli user_behind value c h = h
set_text-IsCli pid_file value c h = h

parse_positive_int-bound :
    (strtol : List ℕ → Integer) (str : List ℕ) (low high : ℕ) {n : ℕ}
    → parse_positive_int strtol str low high ≡ some n
    → (low ≤ n) × (n ≤ high)
unfolding parse_positive_int
parse_positive_int-bound strtol [] low high e = absurd cc
parse_positive_int-bound strtol (c ∷ str) low high e = (ground arith, ground arith)

level-Keeps :
    (c : CliConfig) (o : Option ℕ)
    → IsCli c
    → ((n : ℕ) → o ≡ some n → (0 ≤ n) × (n ≤ 3))
    → Keeps (with_level c next o) × Keeps (with_level c next_but_one o)
level-Keeps c none h k = (h, h)
level-Keeps c (some n) h k = (ground (arith, h, k n refl), ground (arith, h, k n refl))

timeout-Keeps :
    (c : CliConfig) (o : Option ℕ)
    → IsCli c
    → ((n : ℕ) → o ≡ some n → (1 ≤ n) × (n ≤ 86400))
    → Keeps (with_timeout c next o) × Keeps (with_timeout c next_but_one o)
timeout-Keeps c none h k = (h, h)
timeout-Keeps c (some n) h k = (ground (arith, h, k n refl), ground (arith, h, k n refl))

apply-Keeps :
    (strtol : List ℕ → Integer) (c : CliConfig) (k : Kind) (arg : List ℕ) (value : Option (List ℕ))
    → IsCli c
    → Keeps (apply strtol c k arg value)
unfolding apply
apply-Keeps strtol c help arg value h = h
apply-Keeps strtol c version arg value h = h
apply-Keeps strtol c (text t) arg none h = h
apply-Keeps strtol c (text t) arg (some value) h = set_text-IsCli t value c h
apply-Keeps strtol c (text_in t n) arg value h = set_text-IsCli t (drop n arg) c h
apply-Keeps strtol c foreground arg value h = ground (arith, h)
apply-Keeps strtol c no_daemonize arg value h = ground (arith, h)
apply-Keeps strtol c level arg none h = ground (arith, h)
apply-Keeps strtol c level arg (some value) h =
    (level-Keeps c (parse_positive_int strtol value 0 3) h
      (λ m e. parse_positive_int-bound strtol value 0 3 e)).1
apply-Keeps strtol c (level_in n) arg value h =
    (level-Keeps c (parse_positive_int strtol (drop n arg) 0 3) h
      (λ m e. parse_positive_int-bound strtol (drop n arg) 0 3 e)).0
apply-Keeps strtol c debug arg value h = ground (arith, h)
apply-Keeps strtol c timeout arg none h = h
apply-Keeps strtol c timeout arg (some value) h =
    (timeout-Keeps c (parse_positive_int strtol value 1 86400) h
      (λ m e. parse_positive_int-bound strtol value 1 86400 e)).1
apply-Keeps strtol c (timeout_in n) arg value h =
    (timeout-Keeps c (parse_positive_int strtol (drop n arg) 1 86400) h
      (λ m e. parse_positive_int-bound strtol (drop n arg) 1 86400 e)).0
apply-Keeps strtol c ipv4 arg value h = elim (Bool-cases (c.family_preference == 2)) [
  | inl other ↦ rw other h
  | inr free ↦ rw free (ground (arith, h))
]
apply-Keeps strtol c ipv6 arg value h = elim (Bool-cases (c.family_preference == 1)) [
  | inl other ↦ rw other h
  | inr free ↦ rw free (ground (arith, h))
]
apply-Keeps strtol c broadcast arg value h = ground (arith, h)
apply-Keeps strtol c (address_in n) arg value h = ground (arith, h, length-take 15 (drop n arg))
apply-Keeps strtol c quit arg value h = ground (arith, h)
apply-Keeps strtol c unknown arg value h = h

loop-IsCli :
    (strtol : List ℕ → Integer) (c : CliConfig) (args : List (List ℕ))
    → IsCli c
    → IsCli (parse_loop strtol c args).0
unfolding parse_loop
loop-IsCli strtol c [] h = h
loop-IsCli strtol c (arg ∷ []) h =
    follow-All (λ r. IsCli r.0) (λ c'. (c', success)) (λ c'. (c', success))
      (apply strtol c (kind_of arg) arg none) (apply-Keeps strtol c (kind_of arg) arg none h)
      (λ c' h'. h') (λ c' h'. h') (λ c' code h'. h')
loop-IsCli strtol c (arg ∷ value ∷ rest) h =
    follow-All (λ r. IsCli r.0) (λ c'. parse_loop strtol c' (value ∷ rest))
      (λ c'. parse_loop strtol c' rest) (apply strtol c (kind_of arg) arg (value_at value))
      (apply-Keeps strtol c (kind_of arg) arg (value_at value) h)
      (λ c' h'. loop-IsCli strtol c' (value ∷ rest) h') (λ c' h'. loop-IsCli strtol c' rest h')
      (λ c' code h'. h')

-- Every command line, read into a configuration in those bounds, the initial one for example: whatever the
-- arguments are, in whatever order, and whether they are accepted or not, the configuration stays in them.
pub parse_arguments-IsCli :
    (strtol : List ℕ → Integer) (c : CliConfig) (argv : List (List ℕ))
    → IsCli c
    → IsCli (parse_arguments strtol c argv).0
unfolding parse_arguments
parse_arguments-IsCli strtol c [] h = h
parse_arguments-IsCli strtol c (name ∷ args) h = loop-IsCli strtol c args h
