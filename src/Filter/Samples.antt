-- ===== src/Filter/Samples.antt =====
-- The sample buffer of filter.c.
use dragon_ntpd.Base.{
  ℕ, suc, ◌≤◌, ◌≡◌, refl, ap, ◌⊎◌, inl, inr, true, List, [], ◌∷◌, ◌++◌, ltb, leb, length,
  length-append, take, drop, arith, Bool-cases,
}
use mathlib.Core.List.{append-nil}
use dragon_ntpd.Base.Int.{ℤ}
use dragon_ntpd.Base.Lock.{done, free}
use dragon_ntpd.Filter.{NtpSample, marx_add_sample_us, marx_remove_sample}

take-length : (xs : List NtpSample) (s : NtpSample) → take (length xs) (xs ++ s ∷ []) ≡ xs
take-length [] s = refl
take-length (x ∷ xs) s = ap (λ ys. x ∷ ys) (take-length xs s)

drop-length : (xs : List NtpSample) (s : NtpSample) → drop (suc (length xs)) (xs ++ s ∷ []) ≡ []
drop-length [] s = refl
drop-length (x ∷ xs) s = drop-length xs s

abbrev pub sample : ℕ → ℕ → ℤ → NtpSample
sample ts_ns delay_us offset_us = record { ts = ts_ns; delay = delay_us; offset = offset_us }

-- A buffer of at most 64 samples, and the mutex free. Full, it stays as it was; else the sample goes to
-- the end, there are at most 64 after it, and removing the last sample brings back the buffer. Every
-- call returns with the mutex free.
pub marx_remove_sample-marx_add_sample_us :
    (xs : List NtpSample) (ts delay : ℕ) (offset : ℤ)
    → length xs ≤ 64
    → ((length xs ≡ 64) × (marx_add_sample_us ts delay offset (free xs) ≡ done tt (free xs)))
      ⊎ ((length (xs ++ sample ts delay offset ∷ []) ≤ 64)
          × (marx_add_sample_us ts delay offset (free xs)
              ≡ done tt (free (xs ++ sample ts delay offset ∷ [])))
          × (marx_remove_sample (length xs) (free (xs ++ sample ts delay offset ∷ []))
              ≡ done tt (free xs)))
unfolding marx_add_sample_us marx_remove_sample
marx_remove_sample-marx_add_sample_us xs ts delay offset fits =
    let s = sample ts delay offset in
    let longer = length-append xs (s ∷ []) in
    elim (Bool-cases (leb 64 (length xs))) [
      | inl full ↦ inl (ground arith, rw full refl)
      | inr room ↦
          let there : ltb (length xs) (length (xs ++ s ∷ [])) ≡ true = ground (arith, longer) in
          inr (
            ground (arith, longer),
            rw room refl,
            rw (there, take-length xs s, drop-length xs s, append-nil xs) refl,
          )
    ]
