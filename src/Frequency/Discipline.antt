-- ===== src/Frequency/Discipline.antt =====
-- time_sync.c: the states of the frequency discipline.
pub mod Laws
use dragon_ntpd.Base.{
  ℕ, ◌-◌, ◌^◌, Bool, true, false, List, [], ◌∷◌, ltb, leb, if◌then◌else◌, Status, Option, none,
  some,
}
use dragon_ntpd.Base.Int.{ℤ, pos, negsuc}
use dragon_ntpd.Frequency.{
  Floats, Stage, nset, fset, synced, recover, FreqState, FreqOs, Adjusted, clamp_frequency,
  apply_loop_filter, update_dynamic_gain, apply_frequency_adjustment,
}

-- The exponent's distance from MAXPOLL + 1, at least 4.
abbrev pub fll_average : ℕ → ℕ
fll_average poll_exp = if ltb (18 - poll_exp) 4 then 4 else 18 - poll_exp

-- `FREQ_UPDATE_INTERVAL_MIN_SEC` at least.
abbrev pub time_constant : ℕ → ℕ
time_constant poll_exp = if ltb (2 ^ poll_exp) 64 then 64 else 2 ^ poll_exp

-- `CLOCK_ALLAN_INTERCEPT`
abbrev pub allan_intercept : ℕ
allan_intercept = 1500

-- The exponents that `1LL` can be shifted by; the shift by any other is undefined.
abbrev pub exponent : ℤ → Option ℕ
exponent (pos p) = if ltb 62 p then none else some p
exponent (negsuc n) = none

-- What one call is given: the offset, the exponent, the jitter and the time.
pub record Update : Type 0 where
  pub offset_us : ℤ
  pub poll_exp : ℤ
  pub jitter_us : ℕ
  pub now : ℕ

module _ {R : Type 0} (fl : Floats R) where
  abbrev offset_s : ℤ → R
  offset_s offset_us = fl.div (fl.of_int offset_us) (fl.literal 1000000 0)

  unfoldable pub calculate_fll_ppm : ℤ → ℕ → ℕ → R
  unfolding clamp_frequency
  calculate_fll_ppm offset_us delta_sec poll_exp =
      let denom =
        fl.mul (fl.max (fl.of_int (pos delta_sec)) (fl.of_int (pos allan_intercept)))
          (fl.of_int (pos (fll_average poll_exp))) in
      if leb delta_sec 0
      then fl.literal 0 0
      else if fl.less_equal denom (fl.literal 0 0)
      then fl.literal 0 0
      else clamp_frequency fl (fl.div (offset_s offset_us) denom)

  unfoldable pub calculate_pll_ppm : ℤ → ℕ → ℕ → R
  unfolding clamp_frequency
  calculate_pll_ppm offset_us delta_sec poll_exp =
      let poll_interval = fl.of_int (pos (2 ^ poll_exp)) in
      let etemp = if ltb delta_sec (2 ^ poll_exp) then delta_sec else 2 ^ poll_exp in
      let dtemp =
        fl.mul (fl.mul (fl.mul (fl.literal 4 0) (fl.literal 65536 0)) poll_interval)
          poll_interval in
      if leb delta_sec 0
      then fl.literal 0 0
      else if fl.less_equal dtemp (fl.literal 0 0)
      then fl.literal 0 0
      else clamp_frequency fl (fl.div (fl.mul (offset_s offset_us) (fl.of_int (pos etemp))) dtemp)

  unfoldable pub calculate_frequency_ppm : ℤ → ℕ → R
  unfolding clamp_frequency
  calculate_frequency_ppm offset_us delta_sec =
      if leb delta_sec 0
      then fl.literal 0 0
      else clamp_frequency fl
          (fl.mul (fl.div (offset_s offset_us) (fl.of_int (pos delta_sec))) (fl.literal 1000000 0))

  -- The frequency that the filter is given while the state is FREQ_STATE_SYNC.
  abbrev pub measured : Update → ℕ → ℕ → R
  measured u p delta =
      if leb 11 p
      then calculate_fll_ppm u.offset_us allan_intercept p
      else calculate_pll_ppm u.offset_us delta p

  abbrev pub filtered : R → FreqState R → FreqState R
  filtered new_ppm s =
      let ppm = apply_loop_filter fl new_ppm s.ppm_filter (fl.literal 1 2) in
      record s { ppm = ppm; ppm_filter = ppm }

  -- By the state, once the time constant has passed.
  abbrev pub estimated : Update → ℕ → ℕ → FreqState R → Stage → FreqState R
  estimated u p delta s nset = record s {
    ppm = calculate_fll_ppm u.offset_us delta p;
    state = fset;
  }
  estimated u p delta s fset = record s {
    ppm =
        fl.add s.ppm
          (fl.div (fl.sub (calculate_fll_ppm u.offset_us delta p) s.ppm) (fl.literal 16 0));
    state = synced;
  }
  estimated u p delta s synced =
      filtered (measured u p delta) (update_dynamic_gain fl u.jitter_us s)
  -- Nothing sets this state; it is handled as the one before, and stays.
  estimated u p delta s recover =
      filtered (measured u p delta) (update_dynamic_gain fl u.jitter_us s)

  -- Time that goes back is no time that has passed.
  abbrev pub advanced : Update → ℕ → FreqState R → FreqState R
  advanced u p s =
      let delta = u.now - s.last_update in
      if leb (time_constant p) delta then estimated u p delta s s.state else s

  abbrev pub update_with : FreqOs → Update → FreqState R → Option ℕ → Option (Adjusted fl)
  update_with os u s none = none
  update_with os u s (some p) =
      let s₁ = advanced u p s in
      some (
        apply_frequency_adjustment fl os s₁.ppm
          (record s₁ { last_update = u.now; last_offset_us = u.offset_us }))

  -- None where the shift by the exponent is undefined.
  unfoldable pub update_frequency_discipline_internal :
      FreqOs → Update → FreqState R → Option (Adjusted fl)
  unfolding calculate_fll_ppm calculate_pll_ppm apply_loop_filter update_dynamic_gain
      apply_frequency_adjustment
  update_frequency_discipline_internal os u s = update_with os u s (exponent u.poll_exp)

  -- The state behind one call after the other.
  unfoldable pub updates : FreqOs → List Update → FreqState R → Option (FreqState R)
  unfolding update_frequency_discipline_internal
  updates os [] s = some s
  updates os (u ∷ us) s = elim (update_frequency_discipline_internal os u s) [
    | none ↦ none
    | some r ↦ updates os us r.0
  ]
