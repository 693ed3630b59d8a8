-- ===== src/Examples/Frequencies.antt =====
-- The frequency discipline of time_sync.c, with numbers of six decimals, and the precision of the system.
use dragon_ntpd.Base.{
  ℕ, suc, ◌*◌, ◌/◌, ◌^◌, ◌<◌, ◌≤◌, ◌≡◌, refl, true, false, [], ◌∷◌, none, some, ok, arith, ltb,
  if◌then◌else◌, ◌≢◌,
}
use dragon_ntpd.Base.Int.{ℤ, pos, negsuc, neg, ◌+ℤ◌, ◌-ℤ◌, ◌/ℤ◌, ltb_ℤ, leb_ℤ}
use dragon_ntpd.Frequency.{
  Floats, FreqState, FreqOs, adjtimex, adjtime, synced, clamp_frequency, adjtimex_freq,
  init_frequency_discipline, apply_frequency_adjustment, nset, recover,
}
use dragon_ntpd.Frequency.Adjtime.{apply_frequency_adjustment-negative}
use dragon_ntpd.Precision.{get_system_precision}
use dragon_ntpd.Precision.Laws.{get_system_precision_lem}
use dragon_ntpd.Frequency.Discipline.{Update, updates}
use dragon_ntpd.Frequency.Discipline.Laws.{Unchanged, updates-Early, updates-Late}

abbrev negated : ℤ → ℤ
negated (pos n) = neg n
negated (negsuc n) = pos (suc n)

-- The number times n, divided by d.
abbrev scaled : ℤ → ℕ → ℕ → ℤ
scaled (pos m) n d = pos (m * n / d)
scaled (negsuc m) n d = neg (suc m * n / d)

abbrev times : ℤ → ℤ → ℤ
times a (pos n) = scaled a n (10 ^ 6)
times a (negsuc n) = negated (scaled a (suc n) (10 ^ 6))

abbrev over : ℤ → ℤ → ℤ
over a (pos n) = scaled a (10 ^ 6) n
over a (negsuc n) = negated (scaled a (10 ^ 6) (suc n))

abbrev magnitude : ℤ → ℤ
magnitude (pos n) = pos n
magnitude (negsuc n) = pos (suc n)

unfoldable decimals : Floats ℤ
unfolding ◌+ℤ◌ ◌-ℤ◌ ◌/ℤ◌
decimals = record {
  literal = λ n k. pos (n * 10 ^ 6 / 10 ^ k);
  of_int = λ z. scaled z (10 ^ 6) 1;
  truncated = λ z. z /ℤ 10 ^ 6;
  neg = negated;
  abs = magnitude;
  max = λ a b. elim (ltb_ℤ a b) [ true ↦ b | false ↦ a ];
  add = λ a b. a +ℤ b;
  sub = λ a b. a -ℤ b;
  mul = times;
  div = over;
  less = ltb_ℤ;
  less_equal = leb_ℤ;
}

-- `adjtimex` fails.
abbrev no_adjtimex : FreqOs
no_adjtimex = record { adjtimex = λ freq. none; adjtime = λ sec usec. ok }

abbrev start : FreqState ℤ
start = init_frequency_discipline decimals

abbrev update : ℕ → Update
update now = record { offset_us = pos 300; poll_exp = pos 6; jitter_us = 20; now = now }

-- Two servers in turn, each every 64 seconds.
frequent_example :
    (r : FreqState ℤ) × (updates decimals no_adjtimex (update 32 ∷ update 64 ∷ update 96 ∷ []) start
      ≡ some r)
    × Unchanged decimals no_adjtimex start r
unfolding decimals init_frequency_discipline clamp_frequency
frequent_example =
    updates-Early decimals no_adjtimex (update 32 ∷ update 64 ∷ update 96 ∷ []) start refl (
      6,
      refl,
      omega arith,
      omega arith,
      (6, refl, omega arith, omega arith, (6, refl, omega arith, omega arith, tt)),
    )

nset_known : nset ≢ recover
nset_known e = absurd cc

rare_example :
    (r : FreqState ℤ) × (updates decimals no_adjtimex (update 100 ∷ update 200 ∷ []) start ≡ some r)
    × (r.state ≡ synced)
unfolding decimals init_frequency_discipline
rare_example =
    updates-Late decimals no_adjtimex (update 100) (update 200) [] start nset_known
      (6, refl, omega arith, omega arith, (6, refl, omega arith, omega arith, tt))

-- Five millionths back.
back_example : apply_frequency_adjustment decimals no_adjtimex (neg 5000000) start ≡ (
  start,
  ok,
  adjtimex (adjtimex_freq decimals (clamp_frequency decimals (neg 5000000)))
      ∷ adjtime (pos 0) (negsuc 99)
      ∷ [],
)
unfolding decimals init_frequency_discipline clamp_frequency ◌+ℤ◌ ◌-ℤ◌ ◌/ℤ◌
back_example =
    apply_frequency_adjustment-negative decimals no_adjtimex (neg 5000000) start 0 4 (omega arith)
      refl refl refl refl

-- A nanosecond, and one second.
precision_example :
    ((m : ℕ) × (get_system_precision (some (0, 1)) ≡ negsuc m)
      × (1 * 2 ^ m < 1000000000)
      × (1000000000 ≤ 1 * 2 ^ suc m))
    × ((m : ℕ) × (2 ^ m ≤ 1)
        × (1 < 2 ^ suc m)
        × (get_system_precision (some (1, 0)) ≡ (if ltb m 6 then negsuc m else pos 6)))
precision_example = get_system_precision_lem 1 1 0 (omega arith) (omega arith) (omega arith)
