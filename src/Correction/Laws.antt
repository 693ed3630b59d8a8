-- ===== src/Correction/Laws.antt =====
-- What a correction does to the clock.
use dragon_ntpd.Base.{
  ℕ, suc, ◌+◌, ◌-◌, ◌*◌, ◌%◌, ◌/◌, ◌≤◌, ◌<◌, ◌≡◌, refl, ◌⊎◌, inl, inr, false, ◌&&◌, ◌||◌, Option,
  none, some, Status, error, arith, Bool-cases, ltb, ◌^◌,
}
use dragon_ntpd.Base.Int.{
  ℤ, pos, negsuc, neg, pos_part, neg_part, ◌+ℤ◌, ◌-ℤ◌, ◌/ℤ◌, ltb_ℤ, +ℤ_parts, -ℤ_parts,
}
use dragon_ntpd.Base.Lock.{◌>>=◌, done, free}
use dragon_ntpd.Mode.{ModeState}
use dragon_ntpd.Mode.Locks.{check_panic_condition_lem}
use dragon_ntpd.Correction.{
  Os, Call, times, rem, normalise, int64_max, int64_min, step_threshold, step_clock, slew_clock,
  apply_time_correction_slew_or_step,
}

-- `q` units of `k` and `f` are the integer.
abbrev pub Splits : ℤ → ℕ → ℤ → ℕ → Type 0
Splits z k q f = (f < k) × (pos_part q * k + f + neg_part z ≡ neg_part q * k + pos_part z)

normalise_second :
    (z : ℤ) → (q : ℤ) × (f : ℕ) × (normalise z 1000000000 ≡ (q, pos f)) × Splits z 1000000000 q f
unfolding normalise ◌/ℤ◌ rem ◌+ℤ◌ ◌-ℤ◌
normalise_second (pos n) = (pos (n / 1000000000), n % 1000000000, ground arith, ground arith)
normalise_second (negsuc n) = elim (Bool-cases (ltb 0 (suc n % 1000000000))) [
  | inl rest ↦
      (negsuc (suc n / 1000000000), 1000000000 - suc n % 1000000000, ground arith, ground arith)
  | inr whole ↦ (neg (suc n / 1000000000), 0, ground arith, ground arith)
]

normalise_micro :
    (z : ℤ) → (q : ℤ) × (f : ℕ) × (normalise z 1000000 ≡ (q, pos f)) × Splits z 1000000 q f
unfolding normalise ◌/ℤ◌ rem ◌+ℤ◌ ◌-ℤ◌
normalise_micro (pos n) = (pos (n / 1000000), n % 1000000, ground arith, ground arith)
normalise_micro (negsuc n) = elim (Bool-cases (ltb 0 (suc n % 1000000))) [
  | inl rest ↦ (negsuc (suc n / 1000000), 1000000 - suc n % 1000000, ground arith, ground arith)
  | inr whole ↦ (neg (suc n / 1000000), 0, ground arith, ground arith)
]

times_parts :
    (z : ℤ)
    → (pos_part (times z 1000) ≡ pos_part z * 1000) × (neg_part (times z 1000) ≡ neg_part z * 1000)
unfolding times
times_parts (pos n) = ground arith
times_parts (negsuc n) = ground arith

-- The offset is within what an `int64_t` of nanoseconds and the panic threshold allow.
abbrev pub magnitude : ℤ → ℕ
magnitude z = pos_part z + neg_part z

-- The time that the clock is set to: the sum, in nanoseconds.
stepped :
    (os : Os) (offset : ℤ) (sec nsec : ℕ)
    → os.clock_gettime ≡ some (sec, nsec)
    → sec ≤ 9000000000
    → nsec < 1000000000
    → magnitude offset ≤ 65535000000000
    → (t : ℤ) × (f : ℕ) × (step_clock os offset
        ≡ (os.clock_settime t (pos f), some (Call.clock_settime t (pos f))))
      × (f < 1000000000)
      × (pos_part t * 1000000000 + f + neg_part offset * 1000
          ≡ neg_part t * 1000000000 + sec * 1000000000 + nsec + pos_part offset * 1000)
unfolding step_clock
stepped os offset sec nsec now late small near =
    let (p, n) = times_parts offset in
    let ns : ℤ = pos (sec * 1000000000 + nsec) in
    let (t, f, e, split) = normalise_second (ns +ℤ times offset 1000) in
    let over : (ltb_ℤ (pos 0) (times offset 1000) && ltb_ℤ (int64_max -ℤ times offset 1000) ns)
        ≡ false =
      ground (arith, -ℤ_parts int64_max (times offset 1000)) in
    let under : (ltb_ℤ (times offset 1000) (pos 0) && ltb_ℤ ns (int64_min -ℤ times offset 1000))
        ≡ false =
      ground (arith, -ℤ_parts int64_min (times offset 1000)) in
    (
      t,
      f,
      rw (now, over, under, e) refl,
      split.0,
      omega (arith, split.1, +ℤ_parts ns (times offset 1000), p, n),
    )

module _ (os : Os) (s : ModeState) (offset : ℤ) where
  -- The call comes back with the mutex free and the mode handler's state as it was.
  abbrev pub Answers : Status × Option Call → Type 0
  Answers r = apply_time_correction_slew_or_step os offset (free s) ≡ done r (free s)

  abbrev pub Refused : Type 0
  Refused = (s.config.panic_threshold * 1000000000 < magnitude offset) × Answers (error, none)

  abbrev pub Stepped : ℕ → ℕ → Type 0
  Stepped sec nsec =
      (500000 < magnitude offset)
      × (t : ℤ) × (f : ℕ) × Answers
          (os.clock_settime t (pos f), some (Call.clock_settime t (pos f)))
      × (f < 1000000000)
      × (pos_part t * 1000000000 + f + neg_part offset * 1000
          ≡ neg_part t * 1000000000 + sec * 1000000000 + nsec + pos_part offset * 1000)

  abbrev pub Slewed : Type 0
  Slewed =
      (magnitude offset ≤ 500000)
      × (t : ℤ) × (f : ℕ) × Answers (os.adjtime t (pos f), some (Call.adjtime t (pos f)))
      × Splits offset 1000000 t f

-- A clock that can be read and is before the year 2255, a threshold of 16 bits, an offset above the least
-- `int64_t`, and the mutex free. An
-- offset of more than a milliard times the threshold is refused and no clock call is made. Else one of
-- more than half a second steps the clock: it is set to exactly its time plus the offset, with a
-- nanosecond part below a second, and neither overflow check stops it. Any other is handed to `adjtime`
-- whole, with microseconds between 0 and a million. The result is that of the clock call.
pub apply_time_correction_slew_or_step_lem :
    (os : Os) (s : ModeState) (offset : ℤ) (sec nsec : ℕ)
    → os.clock_gettime ≡ some (sec, nsec)
    → sec ≤ 9000000000
    → nsec < 1000000000
    → s.config.panic_threshold < 65536
    → neg_part offset < 2 ^ 63
    → Refused os s offset ⊎ Stepped os s offset sec nsec ⊎ Slewed os s offset
unfolding apply_time_correction_slew_or_step slew_clock
apply_time_correction_slew_or_step_lem os s offset sec nsec now late small bound least =
    let (panic, e, iff) = check_panic_condition_lem s offset least in
    elim (Bool-cases panic) [
      | inl beyond ↦ inl (iff.0 beyond, rw (◌>>=◌, e, beyond) refl)
      | inr within ↦
          let near : magnitude offset ≤ 65535000000000 = ground (arith, iff) in
          elim (Bool-cases
            (ltb_ℤ (pos step_threshold) offset || ltb_ℤ offset (neg step_threshold))) [
              | inl far ↦
                  let (t, f, step, below, sum) = stepped os offset sec nsec now late small near in
                  inr (inl (ground arith, t, f, rw (◌>>=◌, e, within, far, step) refl, below, sum))
              | inr close ↦
                  let (t, f, n, split) = normalise_micro offset in
                  inr (inr (ground arith, t, f, rw (◌>>=◌, e, within, close, n) refl, split))
            ]
    ]
