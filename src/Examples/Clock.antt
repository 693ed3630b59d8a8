-- ===== src/Examples/Clock.antt =====
-- Concrete runs of time_sync.c, filter.c, leap_second.c and ntp_algorithms.c.
use dragon_ntpd.Base.{
  get_or, length, ℕ, ◌+◌, ◌^◌, ◌<◌, ◌≡◌, ◌⊎◌, refl, List, [], ◌∷◌, some, ok, true, false, arith,
}
use dragon_ntpd.Base.Int.{ℤ, pos, negsuc}
use dragon_ntpd.Examples.Limits.{start}
use dragon_ntpd.Correction.{Os}
use dragon_ntpd.Correction.Laws.{Refused, Stepped, Slewed, apply_time_correction_slew_or_step_lem}
use dragon_ntpd.Filter.{NtpSample, marx_median}
use dragon_ntpd.Filter.Median.{Sorted, occurrences, marx_median_lem}
use dragon_ntpd.Leap.{World, LeapSecondState}
use dragon_ntpd.Packet.{NtpTimestamp}
use dragon_ntpd.Algorithms.{calculate_delay_offset}
use dragon_ntpd.Algorithms.Laws.{calculate_delay_offset_lem}
use dragon_ntpd.Algorithms.Selection.{select_best_peers}
use dragon_ntpd.Algorithms.Selection.Sorting.{Ascending, count_of}
use dragon_ntpd.Algorithms.Selection.Laws.{good_peers, select_best_peers_lem}

-- One sample.
abbrev samples : List NtpSample
samples = record { ts = 1; delay = 100; offset = pos 2 } ∷ []

-- A clock at 2025 whose calls succeed.
abbrev os : Os
os = record {
  clock_gettime = some (1750000000, 5);
  clock_settime = λ sec nsec. ok;
  adjtime = λ sec usec. ok;
}

-- An offset of minus 0.7 seconds.
correction_example :
    Refused os start (negsuc 699999)
    ⊎ Stepped os start (negsuc 699999) 1750000000 5
    ⊎ Slewed os start (negsuc 699999)
correction_example =
    apply_time_correction_slew_or_step_lem os start (negsuc 699999) 1750000000 5 refl (omega arith)
      (omega arith) (omega arith) (omega arith)

-- The state after `leap_second_init`.
abbrev pub ready : LeapSecondState
ready = record {
  initialized = true;
  last_check_time = 0;
  next_check_time = 0;
  pending_offset_us = pos 0;
  pending_leap_dir = 0;
  event_scheduled = false;
  event_time = pos 0;
  leap_file_dir = b'/' ∷ [];
  leap_file_prefix = [];
  leap_file_suffix = b'.' ∷ b's' ∷ [];
  check_interval_sec = 300;
  event_interval_sec = 60;
}

abbrev pub world : ℕ → World
world t = record {
  time = t;
  realtime = some t;
  localtime = some (2025, 6, 30);
  stat = λ name. true;
  leap_file = λ name. some (some 1);
}

abbrev due_state : LeapSecondState
due_state = record ready {
  pending_offset_us = pos 60000000;
  pending_leap_dir = 1;
  event_scheduled = true;
  event_time = pos 1080;
}

abbrev stamp : ℕ → NtpTimestamp
stamp n = record { sec = 3900000000; frac = n }

wire_example :
    (calculate_delay_offset (stamp 0) (stamp 2147483648) (stamp 2147483648) (stamp 1073741824)
      ≡ some (250000, pos 375000))
    × (3900000000250000000 + 3900000000500000000 < 2 ^ 63)
    × (3900000000000000000 + 3900000000500000000 < 2 ^ 63)
    × (3900000000500000000 + 3900000000500000000 < 2 ^ 63)
    × (3900000000000000000 + 3900000000250000000 < 2 ^ 63)
wire_example =
    calculate_delay_offset_lem (stamp 0) (stamp 2147483648) (stamp 2147483648) (stamp 1073741824)
      (omega arith) (omega arith) (omega arith) (omega arith)

-- Three peers, one of them half a second off and one noisy.
abbrev offsets : List ℤ
offsets = pos 1000 ∷ pos 500000 ∷ negsuc 2000 ∷ []

abbrev jitter : List ℕ
jitter = 10 ∷ 10 ∷ 200000 ∷ []

peers_example :
    (sorted : List ℤ) × (median : ℤ) × Ascending sorted
    × ((v : ℤ) → count_of v sorted ≡ count_of v offsets)
    × (length sorted ≡ 3)
    × (median ≡ get_or sorted 1 (pos 0))
    × (select_best_peers offsets jitter 3 ≡ some (ok, good_peers jitter 0 offsets median))
peers_example =
    select_best_peers_lem offsets jitter 3 (omega arith) (omega arith) (omega arith)
      ((omega arith, omega arith), ((omega arith, omega arith), ((omega arith, omega arith), tt)))

-- Five values with one twice.
median_example :
    (sorted : List ℕ) × (marx_median (5 ∷ 3 ∷ 9 ∷ 3 ∷ 1 ∷ []) ≡ (get_or sorted 2 0, sorted))
    × Sorted sorted
    × (length sorted ≡ 5)
    × (occurrences 3 sorted ≡ 2)
median_example = marx_median_lem 5 (3 ∷ 9 ∷ 3 ∷ 1 ∷ []) 3
