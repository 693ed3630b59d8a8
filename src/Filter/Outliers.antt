-- ===== src/Filter/Outliers.antt =====
-- `marx_filter_outliers` of filter.c, called on `g_samples` itself as time_sync.c does.
-- `marx_remove_sample` moves the live samples of the same array down while the loop goes on over it. The
-- loop reads nothing behind the original count, so the array is the list of that many slots; the live
-- samples are the first of them, as many as `g_sample_count` says.
use dragon_ntpd.Base.{
  ℕ, zero, suc, ◌+◌, ◌-◌, ◌*◌, ◌/◌, ◌^◌, List, ◌++◌, ltb, leb, ◌==◌, if◌then◌else◌, length, get_or,
  set, take, drop, map,
}
use dragon_ntpd.Base.Int.{pos}
use dragon_ntpd.Base.Lock.{M, ◌>>=◌, ◌>>◌, pure, lock, unlock, get, modify}
use dragon_ntpd.Filter.{NtpSample, marx_median}

abbrev distance : ℕ → ℕ → ℕ
distance median delay = if ltb median delay then delay - median else median - delay

abbrev uint64_max : ℕ
uint64_max = 2 ^ 64 - 1

-- `k * mad`, at most UINT64_MAX, and all of it where the sum with the median would be more.
unfoldable pub scaled : ℕ → ℕ → ℕ → ℕ
scaled k mad median =
    if mad == 0
    then 0
    else if k == 0
    then 0
    else if ltb (uint64_max / mad) k
    then uint64_max
    else let kmad = k * mad in if ltb (uint64_max - median) kmad then uint64_max else kmad

-- The largest delay that stays.
unfoldable pub threshold_of : List ℕ → ℕ → ℕ
unfolding scaled marx_median
threshold_of delays k =
    let median = (marx_median delays).0 in
    let mad = (marx_median (map (distance median) delays)).0 in
    let kmad = scaled k mad median in
    if kmad == 0
    then median
    else if ltb (uint64_max - median) kmad
    then uint64_max
    else median + kmad

-- The slots and `g_sample_count`.
pub record Slots : Type 0 where
  pub slots : List NtpSample
  pub live : ℕ

-- `marx_remove_sample` on the slots: the live samples behind the index move down by one.
unfoldable pub remove_slot : ℕ → Slots → Slots
remove_slot i a =
    if ltb i a.live
    then record {
      slots =
          take i a.slots
          ++ (take (a.live - i - 1) (drop (suc i) a.slots) ++ drop (a.live - 1) a.slots);
      live = a.live - 1;
    }
    else a

abbrev no_sample : NtpSample
no_sample = record { ts = 0; delay = 0; offset = pos 0 }

-- The loop from index `i` on: `n` rounds are left, `filtered` samples have been kept.
unfoldable pub filter_loop : ℕ → ℕ → ℕ → ℕ → Slots → ℕ × Slots
unfolding remove_slot
filter_loop zero threshold i filtered a = (filtered, a)
filter_loop (suc n) threshold i filtered a =
    let sample = get_or a.slots i no_sample in
    let kept =
      filter_loop n threshold (suc i) (suc filtered)
        (if filtered == i then a else record a { slots = set a.slots filtered sample }) in
    let removed = filter_loop n threshold (suc i) filtered (remove_slot i a) in
    if leb sample.delay threshold then kept else removed

-- The result, at most the count, and the live samples. `k` is not negative. The mutex is taken for each
-- removal, which the model does once; no other thread comes between. The list has 64 samples at most.
unfoldable pub marx_filter_outliers : ℕ → M (List NtpSample) ℕ
unfolding threshold_of filter_loop
marx_filter_outliers k = do
  samples ← get
  let count = length samples
  (if ltb count 3
      then pure count
      else let threshold = threshold_of (map (λ (s : NtpSample). s.delay) samples) k in
        let (filtered, a) =
          filter_loop count threshold 0 0 (record { slots = samples; live = count }) in
        (do
          (if a.live == count
              then modify (λ xs. take a.live a.slots)
              else (do lock; modify (λ xs. take a.live a.slots); unlock))
          pure (if ltb filtered count then filtered else count)))
