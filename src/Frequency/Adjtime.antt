-- ===== src/Frequency/Adjtime.antt =====
-- What the frequency discipline asks `adjtime` for.
use dragon_ntpd.Base.{ℕ, suc, ◌≡◌, ◌<◌, refl, false, arith, min, [], ◌∷◌}
use dragon_ntpd.Base.Int.{pos, negsuc, ◌+ℤ◌, ◌-ℤ◌, neg}
use dragon_ntpd.Frequency.{
  Floats, FreqState, FreqOs, adjtimex, adjtime, adjtime_delta, clamp_frequency, apply_freq_adjtime,
  apply_frequency_adjustment, adjtimex_freq, adjtimex_succeeds,
}

adjtime_delta-pos : (n : ℕ) → adjtime_delta (pos 0) (pos n) ≡ (pos 0, pos (min n 100))
unfolding adjtime_delta ◌+ℤ◌ ◌-ℤ◌
adjtime_delta-pos n = ground arith

adjtime_delta-above : (sec n : ℕ) → adjtime_delta (pos (suc sec)) (pos n) ≡ (pos 0, pos 100)
unfolding adjtime_delta ◌+ℤ◌ ◌-ℤ◌
adjtime_delta-above sec n = ground arith

adjtime_delta-negsuc :
    (sec n : ℕ) → n < 1000000 → adjtime_delta (neg sec) (negsuc n) ≡ (pos 0, negsuc 99)
unfolding adjtime_delta ◌+ℤ◌ ◌-ℤ◌
adjtime_delta-negsuc sec n h = ground arith

-- Where `adjtimex` cannot be used, every negative frequency of 0.001 ppm or more after its limits,
-- however small, whose conversion to seconds and microseconds is not zero, is asked of `adjtime` as 100
-- microseconds back.
pub apply_frequency_adjustment-negative :
    {R : Type 0} (fl : Floats R) (os : FreqOs) (ppm : R) (s : FreqState R) (sec n : ℕ)
    → n < 1000000
    → fl.less (fl.abs (clamp_frequency fl ppm)) (fl.literal 1 3) ≡ false
    → adjtimex_succeeds fl (os.adjtimex (adjtimex_freq fl (clamp_frequency fl ppm))) ≡ false
    → fl.truncated (fl.div (clamp_frequency fl ppm) (fl.literal 1000000 0)) ≡ neg sec
    → fl.truncated (
        fl.mul
          (fl.sub (fl.div (clamp_frequency fl ppm) (fl.literal 1000000 0)) (fl.of_int (neg sec)))
          (fl.literal 1000000 0))
      ≡ negsuc n
    → apply_frequency_adjustment fl os ppm s ≡ (
      s,
      os.adjtime (pos 0) (negsuc 99),
      adjtimex (adjtimex_freq fl (clamp_frequency fl ppm)) ∷ adjtime (pos 0) (negsuc 99) ∷ [],
    )
unfolding apply_frequency_adjustment apply_freq_adjtime
apply_frequency_adjustment-negative fl os ppm s sec n h small fails es en =
    rw (small, fails, es, en, adjtime_delta-negsuc sec n h) refl
