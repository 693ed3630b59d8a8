-- ===== src/Precision.antt =====
-- time_sync.c: get_system_precision.
pub mod Laws
use dragon_ntpd.Base.{
  ℕ, zero, suc, ◌+◌, ◌*◌, ◌/◌, Option, none, some, ltb, leb, ◌==◌, if◌then◌else◌,
}
use dragon_ntpd.Base.Int.{ℤ, pos, neg, negsuc}

-- A shift to the right until nothing is left, on fuel: the number of bits.
unfoldable pub bits : ℕ → ℕ → ℕ
bits zero s = 0
bits (suc n) s = let rest = bits n (s / 2) in if leb s 0 then 0 else suc rest

-- Doublings until a second is reached, on fuel.
unfoldable pub doublings : ℕ → ℕ → ℕ
doublings zero ns = 0
doublings (suc n) ns = let rest = doublings n (ns * 2) in if ltb ns 1000000000 then suc rest else 0

-- More than the rounds of the second loop for any time of at least a nanosecond.
abbrev pub doubling_fuel : ℕ
doubling_fuel = 31

abbrev pub seconds_precision : ℕ → ℤ
seconds_precision p = if ltb 6 p then pos 6 else neg p

-- By what `clock_getres` stores, none where it fails. A part of a second is below a milliard, and the
-- number of bits of the seconds fits into the counter.
unfoldable pub get_system_precision : Option (ℕ × ℕ) → ℤ
unfolding bits doublings
get_system_precision none = negsuc 19
get_system_precision (some (tv_sec, tv_nsec)) =
    if ltb 0 tv_sec
    then seconds_precision (bits tv_sec tv_sec)
    else if tv_nsec == 0
    then negsuc 19
    else neg (doublings doubling_fuel tv_nsec)
