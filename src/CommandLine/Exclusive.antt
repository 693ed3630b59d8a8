-- ===== src/CommandLine/Exclusive.antt =====
-- A command line of config.c that asks for both families.
use dragon_ntpd.Base.{
  ℕ, ◌≡◌, ◌≢◌, refl, inl, inr, List, [], ◌∷◌, Option, none, some, arith, Bool-cases, ◌==◌, drop,
  subst,
}
use dragon_ntpd.Mode.ConfigFile.{Integer, codes}
use dragon_ntpd.CommandLine.{
  CliConfig, success, Kind, Round, next, next_but_one, help, version, foreground, no_daemonize,
  level, debug, timeout, ipv4, ipv6, broadcast, quit, unknown, text, text_in, level_in, timeout_in,
  address_in, kind_of, with_level, with_timeout, parse_positive_int, apply, value_at, parse_loop,
  parse_arguments,
}
use dragon_ntpd.CommandLine.Laws.{All, follow-All}
use dragon_ntpd.Mode.Network.{same_text}
use dragon_ntpd.CommandLine.Family.{
  Asked, Fails, For, Settles, failure≢success, loop-For, ipv4-Settles, ipv6-Settles,
}

-- A round goes on behind a value only where there is one.
abbrev Given : Option (List ℕ) → Type 0
Given none = ⊥
Given (some value) = Unit {0}

abbrev Takes : Option (List ℕ) → Round → Type 0
Takes value = All (λ c. Unit {0}) (λ c. Given value) Fails

level-Takes :
    (value : Option (List ℕ)) (c : CliConfig) (o : Option ℕ)
    → Takes value (with_level c next o) × Takes (some []) (with_level c next_but_one o)
level-Takes value c none = (failure≢success, failure≢success)
level-Takes value c (some n) = (tt, tt)

timeout-Takes :
    (value : Option (List ℕ)) (c : CliConfig) (o : Option ℕ)
    → Takes value (with_timeout c next o) × Takes (some []) (with_timeout c next_but_one o)
timeout-Takes value c none = (failure≢success, failure≢success)
timeout-Takes value c (some n) = (tt, tt)

apply-Takes :
    (strtol : List ℕ → Integer) (c : CliConfig) (k : Kind) (arg : List ℕ) (value : Option (List ℕ))
    → Takes value (apply strtol c k arg value)
unfolding apply
apply-Takes strtol c help arg value = λ e. absurd cc
apply-Takes strtol c version arg value = λ e. absurd cc
apply-Takes strtol c (text t) arg none = failure≢success
apply-Takes strtol c (text t) arg (some value) = tt
apply-Takes strtol c (text_in t n) arg value = tt
apply-Takes strtol c foreground arg value = tt
apply-Takes strtol c no_daemonize arg value = tt
apply-Takes strtol c level arg none = tt
apply-Takes strtol c level arg (some value) =
    (level-Takes none c (parse_positive_int strtol value 0 3)).1
apply-Takes strtol c (level_in n) arg value =
    (level-Takes value c (parse_positive_int strtol (drop n arg) 0 3)).0
apply-Takes strtol c debug arg value = tt
apply-Takes strtol c timeout arg none = failure≢success
apply-Takes strtol c timeout arg (some value) =
    (timeout-Takes none c (parse_positive_int strtol value 1 86400)).1
apply-Takes strtol c (timeout_in n) arg value =
    (timeout-Takes value c (parse_positive_int strtol (drop n arg) 1 86400)).0
apply-Takes strtol c ipv4 arg value = elim (Bool-cases (c.family_preference == 2)) [
  | inl other ↦ rw other failure≢success
  | inr free ↦ rw free tt
]
apply-Takes strtol c ipv6 arg value = elim (Bool-cases (c.family_preference == 1)) [
  | inl other ↦ rw other failure≢success
  | inr free ↦ rw free tt
]
apply-Takes strtol c broadcast arg value = tt
apply-Takes strtol c (address_in n) arg value = tt
apply-Takes strtol c quit arg value = tt
apply-Takes strtol c unknown arg value = failure≢success

-- A word that settles the family and is no value of an option.
record IsOption (strtol : List ℕ → Integer) (n : ℕ) (word : List ℕ) : Type 0 where
  asked : Asked n
  settles :
      (c : CliConfig) (value : Option (List ℕ))
      → Settles n (apply strtol c (kind_of word) word value)
  no_value : value_at word ≡ none

-- The word is among the arguments.
pub data Among (word : List ℕ) : List (List ℕ) → Type 0 where
  first : {rest : List (List ℕ)} → Among word (word ∷ rest)
  later : {arg : List ℕ} {rest : List (List ℕ)} → Among word rest → Among word (arg ∷ rest)

option-For :
    (strtol : List ℕ → Integer) {n : ℕ} {word : List ℕ} (c : CliConfig) (args : List (List ℕ))
    → IsOption strtol n word
    → Among word args
    → For n (parse_loop strtol c args)
unfolding parse_loop
option-For strtol c [] o m = elim m [ ]
option-For strtol {n} c (arg ∷ []) o (later m) = elim m [ ]
option-For strtol {n} c (arg ∷ []) o first =
    follow-All (For n) (λ c'. (c', success)) (λ c'. (c', success))
      (apply strtol c (kind_of arg) arg none) (o.settles c none) (λ c' h'. inr h') (λ c' h'. inr h')
      (λ c' code h'. inl h')
option-For strtol {n} c (arg ∷ value ∷ rest) o first =
    follow-All (For n) (λ c'. parse_loop strtol c' (value ∷ rest)) (λ c'. parse_loop strtol c' rest)
      (apply strtol c (kind_of arg) arg (value_at value)) (o.settles c (value_at value))
      (λ c' h'. loop-For strtol c' (value ∷ rest) o.asked h')
      (λ c' h'. loop-For strtol c' rest o.asked h') (λ c' code h'. inl h')
option-For strtol {n} c (arg ∷ value ∷ rest) o (later first) =
    follow-All (For n) (λ c'. parse_loop strtol c' (value ∷ rest)) (λ c'. parse_loop strtol c' rest)
      (apply strtol c (kind_of arg) arg (value_at value))
      (apply-Takes strtol c (kind_of arg) arg (value_at value))
      (λ c' h'. option-For strtol c' (value ∷ rest) o first)
      (λ c' given. absurd (subst Given o.no_value given)) (λ c' code h'. inl h')
option-For strtol {n} c (arg ∷ value ∷ rest) o (later (later m)) =
    follow-All (For n) (λ c'. parse_loop strtol c' (value ∷ rest)) (λ c'. parse_loop strtol c' rest)
      (apply strtol c (kind_of arg) arg (value_at value))
      (apply-Takes strtol c (kind_of arg) arg (value_at value))
      (λ c' h'. option-For strtol c' (value ∷ rest) o (later m))
      (λ c' h'. option-For strtol c' rest o m) (λ c' code h'. inl h')

four-IsOption : (strtol : List ℕ → Integer) → IsOption strtol 1 (codes "-4")
unfolding kind_of same_text
four-IsOption strtol = record {
  asked = inl refl;
  settles = λ c value. ipv4-Settles strtol c (codes "-4") value;
  no_value = refl;
}

six-IsOption : (strtol : List ℕ → Integer) → IsOption strtol 2 (codes "-6")
unfolding kind_of same_text
six-IsOption strtol = record {
  asked = inr refl;
  settles = λ c value. ipv6-Settles strtol c (codes "-6") value;
  no_value = refl;
}

-- Every command line with both -4 and -6 among the arguments behind the program's name, in either order and whatever else
-- it holds, is not accepted: `parse_arguments` does not return 0.
pub parse_arguments-exclusive :
    (strtol : List ℕ → Integer) (c : CliConfig) (name : List ℕ) (args : List (List ℕ))
    → Among (codes "-4") args
    → Among (codes "-6") args
    → (parse_arguments strtol c (name ∷ args)).1 ≢ success
unfolding parse_arguments
parse_arguments-exclusive strtol c name args four six =
    elim (option-For strtol c args (four-IsOption strtol) four) [
      | inl fails ↦ fails
      | inr one ↦ elim (option-For strtol c args (six-IsOption strtol) six) [
        | inl fails ↦ fails
        | inr two ↦ λ e. omega (arith, one, two)
      ]
    ]

module _ (strtol : List ℕ → Integer) (c : CliConfig) (name : List ℕ) (args : List (List ℕ)) where
  pub four-family_preference :
      Among (codes "-4") args
      → (parse_arguments strtol c (name ∷ args)).1 ≡ success
      → (parse_arguments strtol c (name ∷ args)).0.family_preference ≡ 1
  unfolding parse_arguments
  four-family_preference four e = elim (option-For strtol c args (four-IsOption strtol) four) [
    | inl fails ↦ absurd (fails e)
    | inr h ↦ h
  ]

  pub six-family_preference :
      Among (codes "-6") args
      → (parse_arguments strtol c (name ∷ args)).1 ≡ success
      → (parse_arguments strtol c (name ∷ args)).0.family_preference ≡ 2
  unfolding parse_arguments
  six-family_preference six e = elim (option-For strtol c args (six-IsOption strtol) six) [
    | inl fails ↦ absurd (fails e)
    | inr h ↦ h
  ]
