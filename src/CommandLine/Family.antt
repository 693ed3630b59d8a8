-- ===== src/CommandLine/Family.antt =====
-- The options -4 and -6 of config.c, which exclude each other.
use dragon_ntpd.Base.{
  ℕ, ◌≡◌, ◌≢◌, refl, ◌⊎◌, inl, inr, List, [], ◌∷◌, Option, none, some, Bool-cases, ◌==◌, drop, ◌∙◌,
}
use dragon_ntpd.Mode.ConfigFile.{Integer}
use dragon_ntpd.CommandLine.{
  CliConfig, Code, success, failure, Text, Kind, Round, next, next_but_one, help, version,
  foreground, no_daemonize, level, debug, timeout, ipv4, ipv6, broadcast, quit, unknown, text,
  text_in, level_in, timeout_in, address_in, set_text, config_file, log_file, interface, run_user,
  user_behind, pid_file, kind_of, with_level, with_timeout, parse_positive_int, apply, value_at,
  parse_loop,
}
use dragon_ntpd.CommandLine.Laws.{All, follow-All}

-- A family was asked for: 1 by -4, 2 by -6.
abbrev pub Asked : ℕ → Type 0
Asked n = (n ≡ 1) ⊎ (n ≡ 2)

abbrev pub Has : ℕ → CliConfig → Type 0
Has n c = c.family_preference ≡ n

abbrev pub Fails : CliConfig → Code → Type 0
Fails c code = code ≢ success

-- A result that is no success, or one for that family.
abbrev pub For : ℕ → CliConfig × Code → Type 0
For n r = (r.1 ≢ success) ⊎ (r.0.family_preference ≡ n)

abbrev pub Settles : ℕ → Round → Type 0
Settles n = All (Has n) (Has n) Fails

set_text-Has :
    (t : Text) (value : List ℕ) (c : CliConfig)
    → (set_text t value c).family_preference ≡ c.family_preference
set_text-Has config_file value c = refl
set_text-Has log_file value c = refl
set_text-Has interface value c = refl
set_text-Has run_user value c = refl
set_text-Has user_behind value c = refl
set_text-Has pid_file value c = refl

pub failure≢success : failure ≢ success
failure≢success e = absurd cc

level-Settles :
    {n : ℕ} (c : CliConfig) (o : Option ℕ)
    → Has n c
    → Settles n (with_level c next o) × Settles n (with_level c next_but_one o)
level-Settles c none h = (failure≢success, failure≢success)
level-Settles c (some n) h = (h, h)

timeout-Settles :
    {n : ℕ} (c : CliConfig) (o : Option ℕ)
    → Has n c
    → Settles n (with_timeout c next o) × Settles n (with_timeout c next_but_one o)
timeout-Settles c none h = (failure≢success, failure≢success)
timeout-Settles c (some n) h = (h, h)

pub ipv4-Settles :
    (strtol : List ℕ → Integer) (c : CliConfig) (arg : List ℕ) (value : Option (List ℕ))
    → Settles 1 (apply strtol c ipv4 arg value)
unfolding apply
ipv4-Settles strtol c arg value = elim (Bool-cases (c.family_preference == 2)) [
  | inl other ↦ rw other failure≢success
  | inr free ↦ rw free refl
]

pub ipv6-Settles :
    (strtol : List ℕ → Integer) (c : CliConfig) (arg : List ℕ) (value : Option (List ℕ))
    → Settles 2 (apply strtol c ipv6 arg value)
unfolding apply
ipv6-Settles strtol c arg value = elim (Bool-cases (c.family_preference == 1)) [
  | inl other ↦ rw other failure≢success
  | inr free ↦ rw free refl
]

-- What asks for the other family fails.
other-Settles :
    (strtol : List ℕ → Integer) {n : ℕ} (c : CliConfig) (arg : List ℕ) (value : Option (List ℕ))
    → Asked n
    → Has n c
    → Settles n (apply strtol c ipv4 arg value) × Settles n (apply strtol c ipv6 arg value)
unfolding apply
other-Settles strtol c arg value (inl one) h =
    (rw one (ipv4-Settles strtol c arg value), rw (h, one) failure≢success)
other-Settles strtol c arg value (inr two) h =
    (rw (h, two) failure≢success, rw two (ipv6-Settles strtol c arg value))

apply-Settles :
    (strtol : List ℕ → Integer) {n : ℕ} (c : CliConfig) (k : Kind) (arg : List ℕ)
    (value : Option (List ℕ))
    → Asked n
    → Has n c
    → Settles n (apply strtol c k arg value)
unfolding apply
apply-Settles strtol c help arg value a h = λ e. absurd cc
apply-Settles strtol c version arg value a h = λ e. absurd cc
apply-Settles strtol c (text t) arg none a h = failure≢success
apply-Settles strtol c (text t) arg (some value) a h = set_text-Has t value c ∙ h
apply-Settles strtol c (text_in t n) arg value a h = set_text-Has t (drop n arg) c ∙ h
apply-Settles strtol c foreground arg value a h = h
apply-Settles strtol c no_daemonize arg value a h = h
apply-Settles strtol c level arg none a h = h
apply-Settles strtol c level arg (some value) a h =
    (level-Settles c (parse_positive_int strtol value 0 3) h).1
apply-Settles strtol c (level_in n) arg value a h =
    (level-Settles c (parse_positive_int strtol (drop n arg) 0 3) h).0
apply-Settles strtol c debug arg value a h = h
apply-Settles strtol c timeout arg none a h = failure≢success
apply-Settles strtol c timeout arg (some value) a h =
    (timeout-Settles c (parse_positive_int strtol value 1 86400) h).1
apply-Settles strtol c (timeout_in n) arg value a h =
    (timeout-Settles c (parse_positive_int strtol (drop n arg) 1 86400) h).0
apply-Settles strtol c ipv4 arg value a h = (other-Settles strtol c arg value a h).0
apply-Settles strtol c ipv6 arg value a h = (other-Settles strtol c arg value a h).1
apply-Settles strtol c broadcast arg value a h = h
apply-Settles strtol c (address_in n) arg value a h = h
apply-Settles strtol c quit arg value a h = h
apply-Settles strtol c unknown arg value a h = failure≢success

pub loop-For :
    (strtol : List ℕ → Integer) {n : ℕ} (c : CliConfig) (args : List (List ℕ))
    → Asked n
    → Has n c
    → For n (parse_loop strtol c args)
unfolding parse_loop
loop-For strtol c [] a h = inr h
loop-For strtol {n} c (arg ∷ []) a h =
    follow-All (For n) (λ c'. (c', success)) (λ c'. (c', success))
      (apply strtol c (kind_of arg) arg none) (apply-Settles strtol c (kind_of arg) arg none a h)
      (λ c' h'. inr h') (λ c' h'. inr h') (λ c' code h'. inl h')
loop-For strtol {n} c (arg ∷ value ∷ rest) a h =
    follow-All (For n) (λ c'. parse_loop strtol c' (value ∷ rest)) (λ c'. parse_loop strtol c' rest)
      (apply strtol c (kind_of arg) arg (value_at value))
      (apply-Settles strtol c (kind_of arg) arg (value_at value) a h)
      (λ c' h'. loop-For strtol c' (value ∷ rest) a h') (λ c' h'. loop-For strtol c' rest a h')
      (λ c' code h'. inl h')
