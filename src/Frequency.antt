-- ===== src/Frequency.antt =====
-- time_sync.c: the frequency discipline.
-- `double` is a type with the operations that the code uses (`Floats`). The fields of the state that
-- nothing but init_frequency_discipline writes are left out, as is update_clock_accuracy, which writes
-- g_clock_accuracy alone.
pub mod Discipline
pub mod Adjtime
use dragon_ntpd.Base.{
  ℕ, ◌+◌, ◌-◌, ◌^◌, Bool, true, false, ◌&&◌, ◌||◌, List, [], ◌∷◌, Option, none, some, ltb, leb,
  ◌==◌, if◌then◌else◌, Status, ok, error,
}
use dragon_ntpd.Base.Int.{ℤ, pos, negsuc, ◌+ℤ◌, ◌-ℤ◌, ltb_ℤ}

-- `literal n k` is the decimal n / 10 ^ k.
pub record Floats (R : Type 0) : Type 0 where
  pub literal : ℕ → ℕ → R
  pub of_int : ℤ → R
  pub truncated : R → ℤ
  pub neg : R → R
  pub abs : R → R
  pub max : R → R → R
  pub add : R → R → R
  pub sub : R → R → R
  pub mul : R → R → R
  pub div : R → R → R
  pub less : R → R → Bool
  pub less_equal : R → R → Bool

-- `FREQ_STATE_NSET`, `FREQ_STATE_FSET`, `FREQ_STATE_SYNC`, `FREQ_STATE_RECOVER`
pub data Stage : Type 0 where
  nset fset synced recover : Stage

pub record FreqState (R : Type 0) : Type 0 where
  pub ppm : R
  pub last_update : ℕ
  pub last_offset_us : ℤ
  pub state : Stage
  pub ppm_filter : R
  pub dynamic_pll_gain : R
  pub dynamic_fll_gain : R

-- `adjtimex` with a frequency, and `adjtime`.
pub data FreqCall : Type 0 where
  adjtimex : ℤ → FreqCall
  adjtime : ℤ → ℤ → FreqCall

-- What the system answers: the state of the clock and whether it is unsynchronised, none for an error.
pub record FreqOs : Type 0 where
  pub adjtimex : ℤ → Option (ℕ × Bool)
  pub adjtime : ℤ → ℤ → Status

-- The seconds and microseconds for `adjtime`, from those of the casts.
abbrev pub normalised : ℤ → ℤ → ℤ × ℤ
normalised sec usec =
    if ltb_ℤ usec (pos 0) then (sec -ℤ pos 1, usec +ℤ pos 1000000) else (sec, usec)

abbrev pub is_zero : ℤ → Bool
is_zero (pos n) = n == 0
is_zero (negsuc n) = false

abbrev pub not_above : ℤ × ℤ → ℤ × ℤ
not_above (sec, usec) =
    if ltb_ℤ (pos 0) sec || (is_zero sec && ltb_ℤ (pos 100) usec)
    then (pos 0, pos 100)
    else (sec, usec)

abbrev pub not_below : ℤ × ℤ → ℤ × ℤ
not_below (sec, usec) =
    if ltb_ℤ sec (pos 0) || (is_zero sec && ltb_ℤ usec (negsuc 99))
    then (pos 0, negsuc 99)
    else (sec, usec)

unfoldable pub adjtime_delta : ℤ → ℤ → ℤ × ℤ
unfolding ◌+ℤ◌ ◌-ℤ◌
adjtime_delta sec usec = not_below (not_above (normalised sec usec))

module _ {R : Type 0} (fl : Floats R) where
  -- `FREQ_OFFSET_MAX_PPM`
  abbrev pub freq_offset_max : R
  freq_offset_max = fl.literal 128 0

  abbrev zero_ppm : R
  zero_ppm = fl.literal 0 0

  unfoldable pub clamp_frequency : R → R
  clamp_frequency ppm =
      if fl.less freq_offset_max ppm
      then freq_offset_max
      else if fl.less ppm (fl.neg freq_offset_max)
      then fl.neg freq_offset_max
      else ppm

  unfoldable pub init_frequency_discipline : FreqState R
  init_frequency_discipline = record {
    ppm = zero_ppm;
    last_update = 0;
    last_offset_us = pos 0;
    state = nset;
    ppm_filter = zero_ppm;
    dynamic_pll_gain = fl.literal 1 2;
    dynamic_fll_gain = fl.literal 1 2;
  }

  -- With what the file holds, none where it cannot be read.
  unfoldable pub load_frequency_persistent : Option R → FreqState R → FreqState R × Status
  load_frequency_persistent none s = (record s { state = nset }, error)
  load_frequency_persistent (some ppm) s =
      if fl.less (fl.neg freq_offset_max) ppm && fl.less ppm freq_offset_max
      then (record s { ppm = ppm; state = fset }, ok)
      else (record s { state = nset }, error)

  -- What is written, if anything.
  unfoldable pub save_frequency_persistent : FreqState R → Option R
  save_frequency_persistent s = elim s.state [
    | nset ↦ none
    | fset ↦ none
    | synced ↦ some s.ppm
    | recover ↦ none
  ]

  -- The value that is returned is the one that the filter holds by then.
  unfoldable pub apply_loop_filter : R → R → R → R
  apply_loop_filter new_ppm filter_ppm alpha =
      if fl.less (fl.abs filter_ppm) (fl.literal 1 3) && fl.less (fl.abs new_ppm) (fl.literal 1 3)
      then filter_ppm
      else fl.add filter_ppm (fl.mul alpha (fl.sub new_ppm filter_ppm))

  unfoldable pub update_dynamic_gain : ℕ → FreqState R → FreqState R
  update_dynamic_gain recent_jitter_us s =
      if ltb 200000 recent_jitter_us
      then record s { dynamic_fll_gain = fl.literal 1 1; dynamic_pll_gain = fl.literal 1 3 }
      else if ltb recent_jitter_us 50000
      then record s { dynamic_fll_gain = fl.literal 5 1; dynamic_pll_gain = fl.literal 1 1 }
      else record s { dynamic_fll_gain = fl.literal 1 2; dynamic_pll_gain = fl.literal 1 2 }

  -- The arguments of `adjtime`.
  unfoldable pub apply_freq_adjtime : R → ℤ × ℤ
  apply_freq_adjtime ppm =
      let adj_sec = fl.div ppm (fl.literal 1000000 0) in
      let sec = fl.truncated adj_sec in
      adjtime_delta sec
        (fl.truncated (fl.mul (fl.sub adj_sec (fl.of_int sec)) (fl.literal 1000000 0)))

  -- The argument of `adjtimex`.
  abbrev pub adjtimex_freq : R → ℤ
  adjtimex_freq ppm = fl.truncated (fl.mul ppm (fl.literal 65536 0))

  -- Whether `apply_freq_adjtimex` returns 0.
  abbrev pub adjtimex_succeeds : Option (ℕ × Bool) → Bool
  adjtimex_succeeds none = false
  adjtimex_succeeds (some (ret, true)) = false
  adjtimex_succeeds (some (ret, false)) = ret == 0

  -- The state, the result and the calls in their order.
  abbrev pub Adjusted : Type 0
  Adjusted = FreqState R × Status × List FreqCall

  unfoldable pub apply_frequency_adjustment : FreqOs → R → FreqState R → Adjusted
  unfolding clamp_frequency apply_freq_adjtime adjtime_delta
  apply_frequency_adjustment os ppm s =
      let clamped = clamp_frequency ppm in
      let freq = adjtimex_freq clamped in
      let delta = apply_freq_adjtime clamped in
      if fl.less (fl.abs clamped) (fl.literal 1 3)
      then (s, ok, [])
      else if adjtimex_succeeds (os.adjtimex freq)
      then (record s { ppm = clamped }, ok, adjtimex freq ∷ [])
      else (s, os.adjtime delta.0 delta.1, adjtimex freq ∷ adjtime delta.0 delta.1 ∷ [])
