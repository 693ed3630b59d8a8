-- ===== src/Filter.antt =====
-- filter.c: the sample buffer under `g_mutex` and the median of the MARX filter.
-- `g_samples` with `g_sample_count` is the list of the live samples. An array that is passed with its
-- count is the list of its elements; it comes back beside the result, since it is sorted in place.
pub mod Median
pub mod Samples
pub mod Outliers
use dragon_ntpd.Base.{
  ℕ, zero, suc, ◌+◌, ◌-◌, ◌/◌, ◌%◌, Bool, true, false, List, [], ◌∷◌, ◌++◌, ltb, leb, ◌==◌,
  if◌then◌else◌, length, get_or, take, drop,
}
use dragon_ntpd.Base.Int.{ℤ}
use dragon_ntpd.Base.Lock.{M, ◌>>=◌, ◌>>◌, pure, lock, unlock, get, modify}

pub record NtpSample : Type 0 where
  pub ts : ℕ
  pub delay : ℕ
  pub offset : ℤ

abbrev pub max_samples : ℕ
max_samples = 64

unfoldable pub marx_add_sample_us : ℕ → ℕ → ℤ → M (List NtpSample) (Unit {0})
marx_add_sample_us ts_ns delay_us offset_us = do
  lock
  samples ← get
  (if leb max_samples (length samples) then unlock else (do
    let sample : NtpSample = record { ts = ts_ns; delay = delay_us; offset = offset_us }
    modify (λ xs. xs ++ sample ∷ [])
    unlock))

-- An index that is not negative; a negative one is refused like one behind the end.
unfoldable pub marx_remove_sample : ℕ → M (List NtpSample) (Unit {0})
marx_remove_sample index = do
  samples ← get
  (if ltb index (length samples)
      then (do lock; modify (λ xs. take index xs ++ drop (suc index) xs); unlock)
      else pure tt)

-- The inner loop: `n` comparisons of neighbours from the front on.
unfoldable pub bubble : ℕ → List ℕ → List ℕ
bubble zero xs = xs
bubble (suc n) [] = []
bubble (suc n) (x ∷ []) = x ∷ []
bubble (suc n) (x ∷ y ∷ rest) =
    let swapped = bubble n (x ∷ rest) in
    let kept = bubble n (y ∷ rest) in if ltb y x then y ∷ swapped else x ∷ kept

-- The outer loop: rounds of `k`, `k - 1`, ..., 1 comparisons.
unfoldable pub bubble_sort : ℕ → List ℕ → List ℕ
bubble_sort zero xs = xs
bubble_sort (suc k) xs = bubble_sort k (bubble (suc k) xs)

unfoldable pub marx_median : List ℕ → ℕ × List ℕ
unfolding bubble_sort bubble
marx_median arr =
    let count = length arr in
    if count == 0
    then (0, arr)
    else let sorted = bubble_sort (count - 1) arr in
      (
        (if count % 2 == 0 then get_or sorted (count / 2 - 1) 0 else get_or sorted (count / 2) 0),
        sorted,
      )
