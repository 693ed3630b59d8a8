-- ===== src/ReferenceClock.antt =====
-- reference_clock.c: the state of the reference clock and the operations on it.
-- A device path is the bytes before its end; an absent one is a null pointer. The type of a clock is the
-- number of the enumeration, since the code tests for others. What `clock_gettime` leaves in its
-- structure, and `time`, are the caller's (`Clock`).
pub mod Laws
use dragon_ntpd.Base.{
  ℕ, ◌+◌, ◌%◌, ◌^◌, ◌≡◌, Bool, true, false, not, ◌&&◌, List, [], ◌∷◌, Option, none, some, ltb, ◌==◌,
  if◌then◌else◌, take, Status, ok, error,
}
use dragon_ntpd.Base.Int.{ℤ, pos, pos_part, neg_part}
use dragon_ntpd.Base.Lock.{M, done, ◌>>=◌, pure, free}
use dragon_ntpd.Mode.{ModeState}
use dragon_ntpd.Correction.{Os, Call, apply_time_correction_slew_or_step}

pub record ReferenceClockState : Type 0 where
  pub type : ℕ
  pub device : List ℕ
  pub enabled : Bool
  pub last_update : ℕ
  pub offset_us : ℤ
  pub jitter_us : ℕ
  pub stratum : ℕ
  pub ref_sec : ℕ
  pub ref_frac : ℕ
  pub ref_id : List ℕ

pub record Clock : Type 0 where
  pub tv_sec : ℕ
  pub tv_nsec : ℕ
  pub time : ℕ

abbrev pub ref_clock_none : ℕ
ref_clock_none = 0

abbrev pub ref_clock_pps : ℕ
ref_clock_pps = 3

-- The global as the program starts: all bytes are zero.
abbrev pub g_reference_clock : ReferenceClockState
g_reference_clock = record {
  type = 0;
  device = [];
  enabled = false;
  last_update = 0;
  offset_us = pos 0;
  jitter_us = 0;
  stratum = 0;
  ref_sec = 0;
  ref_frac = 0;
  ref_id = 0 ∷ 0 ∷ 0 ∷ 0 ∷ [];
}

unfoldable pub reference_clock_init : ReferenceClockState → ReferenceClockState × Status
reference_clock_init s = (
  record g_reference_clock {
    device = b'/' ∷ b'd' ∷ b'e' ∷ b'v' ∷ b'/' ∷ b'n' ∷ b'u' ∷ b'l' ∷ b'l' ∷ [];
    stratum = 16;
  },
  ok,
)

unfoldable pub reference_clock_set_enabled :
    ReferenceClockState → Bool → ReferenceClockState × Status
reference_clock_set_enabled s enabled = (record s { enabled = enabled }, ok)

-- The path is written before the type is looked at.
unfoldable pub reference_clock_configure :
    ReferenceClockState → Option (List ℕ) → ℕ → ReferenceClockState × Status
unfolding reference_clock_set_enabled
reference_clock_configure s none type = (s, error)
reference_clock_configure s (some device) type =
    let s₁ = record s { device = take 63 device } in
    if ltb ref_clock_pps type
    then (s₁, error)
    else reference_clock_set_enabled (record s₁ { type = type }) true

unfoldable pub reference_clock_is_available : ReferenceClockState → Bool
reference_clock_is_available s = s.enabled && not (s.type == ref_clock_none)

unfoldable pub reference_clock_get_status : ReferenceClockState → ℕ
reference_clock_get_status s =
    if not s.enabled then 1 else if s.type == ref_clock_none then 2 else 0

-- The value, or none for -1.
unfoldable pub reference_clock_get_offset : ReferenceClockState → Option ℤ
reference_clock_get_offset s =
    if not s.enabled then none else if s.type == ref_clock_none then none else some s.offset_us

unfoldable pub reference_clock_get_jitter : ReferenceClockState → Option ℕ
reference_clock_get_jitter s =
    if not s.enabled then none else if s.type == ref_clock_none then none else some s.jitter_us

-- The state behind the reading, which is simulated.
abbrev pub sampled : Clock → ReferenceClockState → ReferenceClockState
sampled clock s = record s {
  ref_sec = clock.tv_sec % 2 ^ 32;
  ref_frac = clock.tv_nsec % 2 ^ 32;
  last_update = clock.time;
  offset_us = pos 0;
  jitter_us = 0;
}

-- The correction by an offset of less than a second.
unfoldable pub correct_by : Os → Option ℤ → M ModeState (Option Call)
unfolding apply_time_correction_slew_or_step
correct_by os none = pure none
correct_by os (some offset) =
    if ltb (pos_part offset + neg_part offset) 1000000
    then (do result ← apply_time_correction_slew_or_step os offset; pure result.1)
    else pure none

-- The new state, the value returned and the call that sets the system's clock.
unfoldable pub reference_clock_check :
    Os → Clock → ReferenceClockState → M ModeState (ReferenceClockState × Status × Option Call)
unfolding reference_clock_get_offset correct_by
reference_clock_check os clock s =
    if not s.enabled
    then pure (s, ok, none)
    else if s.type == ref_clock_none
    then pure (s, ok, none)
    else do
      call ← correct_by os (reference_clock_get_offset (sampled clock s))
      pure (sampled clock s, ok, call)

-- One call, with whatever arguments.
pub data Step (s : ReferenceClockState) : ReferenceClockState → Type 0 where
  init : {s' : ReferenceClockState} → (reference_clock_init s).0 ≡ s' → Step s s'
  set_enabled :
      {s' : ReferenceClockState} (enabled : Bool)
      → (reference_clock_set_enabled s enabled).0 ≡ s'
      → Step s s'
  configure :
      {s' : ReferenceClockState} (device : Option (List ℕ)) (type : ℕ)
      → (reference_clock_configure s device type).0 ≡ s'
      → Step s s'
  check :
      {s' : ReferenceClockState} (os : Os) (clock : Clock) (m : ModeState) (r : Status)
      (call : Option Call)
      → reference_clock_check os clock s (free m) ≡ done (s', r, call) (free m)
      → Step s s'

-- The states of the program: what calls lead to from its start.
pub data Reachable : ReferenceClockState → Type 0 where
  start : Reachable g_reference_clock
  next : {s t : ReferenceClockState} → Reachable s → Step s t → Reachable t
