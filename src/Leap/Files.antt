-- ===== src/Leap/Files.antt =====
-- The leap second files of leap_second.c: their names and `leap_second_check_file`.
use dragon_ntpd.Base.{
  ℕ, zero, suc, ◌+◌, ◌/◌, ◌%◌, not, ◌&&◌, List, [], ◌∷◌, ◌++◌, Option, none, some, ltb, ◌==◌,
  if◌then◌else◌, Status, ok, error,
}
use dragon_ntpd.Base.Lock.{M, ◌>>=◌, ◌>>◌, pure, lock, unlock, get, modify}
use dragon_ntpd.Leap.{
  World, LeapSecondState, dir_positive, dir_negative, leap_second_schedule_event,
}

-- The decimal digits, `width` of them at least (`%04d`, `%02d`); an `int` has ten at most.
abbrev digits : ℕ → ℕ → List ℕ → List ℕ
digits zero n rest = rest
digits (suc width) n rest = digits width (n / 10) ((n % 10 + b'0') ∷ rest)

abbrev count_digits : ℕ → ℕ → ℕ
count_digits zero n = 0
count_digits (suc fuel) n = let rest = count_digits fuel (n / 10) in if n == 0 then 0 else suc rest

abbrev format : ℕ → ℕ → List ℕ
format width n =
    if ltb width (count_digits 10 n) then digits (count_digits 10 n) n [] else digits width n []

-- None for a year of more than four digits.
unfoldable pub leap_second_get_file_name : LeapSecondState → ℕ → ℕ → ℕ → Option (List ℕ)
leap_second_get_file_name s year month day =
    if ltb 4 (count_digits 10 year)
    then none
    else some (
        s.leap_file_dir
        ++ (b'l' ∷ b'e' ∷ b'a' ∷ b'p' ∷ b'-' ∷ [])
        ++ format 4 year
        ++ format 2 month
        ++ format 2 day
        ++ s.leap_file_suffix)

abbrev fail : M LeapSecondState Status
fail = (do unlock; pure error)

abbrev finish : ℕ → M LeapSecondState Status
finish now = (do modify (λ s. record s { last_check_time = now }); unlock; pure ok)

-- What the file says, and what is done about it.
unfoldable pub read_leap_file : World → List ℕ → M LeapSecondState Status
unfolding leap_second_schedule_event
read_leap_file w name = elim (w.leap_file name) [
  | none ↦ fail
  | some scanned ↦ elim scanned [
    | none ↦ fail
    | some leap_dir ↦
        if not (leap_dir == dir_positive) && not (leap_dir == dir_negative)
        then fail
        else (do _ ← leap_second_schedule_event w leap_dir; finish w.time)
  ]
]

-- The part behind the checks of the state.
unfoldable pub check_date : World → LeapSecondState → M LeapSecondState Status
unfolding leap_second_get_file_name read_leap_file
check_date w s = elim (w.localtime) [
  | none ↦ fail
  | some date ↦ elim (leap_second_get_file_name s date.0 date.1 date.2) [
    | none ↦ fail
    | some name ↦ if w.stat name then read_leap_file w name else finish w.time
  ]
]

unfoldable pub leap_second_check_file : World → M LeapSecondState Status
unfolding check_date
leap_second_check_file w = do
  lock
  s ← get
  (if not s.initialized
      then fail
      else if ltb w.time (s.last_check_time + s.check_interval_sec)
      then (do unlock; pure ok)
      else check_date w s)
