-- ===== src/Correction.antt =====
-- `apply_time_correction_slew_or_step` of time_sync.c: the clock is stepped or slewed by an offset.
-- The clock calls are the operating system's: `Os` holds what `clock_gettime` answers, the seconds and
-- nanoseconds or none, and whether the two calls that set the clock succeed. The result has the call
-- that was made, with its arguments.
pub mod Laws
use dragon_ntpd.Base.{
  ℕ, suc, ◌+◌, ◌-◌, ◌*◌, ◌%◌, ◌^◌, Bool, true, false, ◌&&◌, ◌||◌, Option, none, some, if◌then◌else◌,
  Status, ok, error,
}
use dragon_ntpd.Base.Int.{ℤ, pos, negsuc, neg, ◌+ℤ◌, ◌-ℤ◌, ◌/ℤ◌, ltb_ℤ}
use dragon_ntpd.Base.Lock.{M, ◌>>=◌, pure}
use dragon_ntpd.Mode.{ModeState, check_panic_condition}

pub record Os : Type 0 where
  pub clock_gettime : Option (ℕ × ℕ)
  pub clock_settime : ℤ → ℤ → Status
  pub adjtime : ℤ → ℤ → Status

pub data Call : Type 0 where
  clock_settime : ℤ → ℤ → Call
  adjtime : ℤ → ℤ → Call

-- `STEP_THRESHOLD_US`
abbrev pub step_threshold : ℕ
step_threshold = 500000

-- The product with a number, and the remainder in C, which has the sign of the dividend.
unfoldable pub times : ℤ → ℕ → ℤ
times (pos n) k = pos (n * k)
times (negsuc n) k = neg (suc n * k)

unfoldable pub rem : ℤ → ℕ → ℤ
rem (pos n) k = pos (n % k)
rem (negsuc n) k = neg (suc n % k)

-- Whole units and the rest, with a negative rest brought up.
unfoldable pub normalise : ℤ → ℕ → ℤ × ℤ
unfolding ◌/ℤ◌ rem ◌+ℤ◌ ◌-ℤ◌
normalise z k =
    if ltb_ℤ (rem z k) (pos 0) then (z /ℤ k -ℤ pos 1, rem z k +ℤ pos k) else (z /ℤ k, rem z k)

abbrev pub int64_max : ℤ
int64_max = pos (2 ^ 63 - 1)

abbrev pub int64_min : ℤ
int64_min = negsuc (2 ^ 63 - 1)

-- The step: behind the overflow checks, the clock is set to its time plus the offset.
unfoldable pub step_clock : Os → ℤ → Status × Option Call
unfolding times normalise ◌+ℤ◌ ◌-ℤ◌
step_clock os offset_us = elim os.clock_gettime [
  | none ↦ (error, none)
  | some now ↦
      let offset_ns = times offset_us 1000 in
      let ns = pos (now.0 * 1000000000 + now.1) in
      if ltb_ℤ (pos 0) offset_ns && ltb_ℤ (int64_max -ℤ offset_ns) ns
      then (error, none)
      else if ltb_ℤ offset_ns (pos 0) && ltb_ℤ ns (int64_min -ℤ offset_ns)
      then (error, none)
      else let new_ts = normalise (ns +ℤ offset_ns) 1000000000 in
        (os.clock_settime new_ts.0 new_ts.1, some (Call.clock_settime new_ts.0 new_ts.1))
]

unfoldable pub slew_clock : Os → ℤ → Status × Option Call
unfolding normalise
slew_clock os offset_us =
    let delta = normalise offset_us 1000000 in
    (os.adjtime delta.0 delta.1, some (Call.adjtime delta.0 delta.1))

unfoldable pub apply_time_correction_slew_or_step : Os → ℤ → M ModeState (Status × Option Call)
unfolding check_panic_condition step_clock slew_clock
apply_time_correction_slew_or_step os offset_us = do
  panic ← check_panic_condition offset_us
  (if panic
      then pure (error, none)
      else if ltb_ℤ (pos step_threshold) offset_us || ltb_ℤ offset_us (neg step_threshold)
      then pure (step_clock os offset_us)
      else pure (slew_clock os offset_us))
