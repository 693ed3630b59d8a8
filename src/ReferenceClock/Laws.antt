-- ===== src/ReferenceClock/Laws.antt =====
-- What the operations of reference_clock.c can make of its state.
use dragon_ntpd.Base.{
  ℕ, ◌≤◌, ◌≡◌, refl, ◌⊎◌, inl, inr, true, false, List, Option, none, some, ltb, ◌==◌, length,
  length-take, take, ok, arith, Bool-cases, subst, Status,
}
use dragon_ntpd.Base.Int.{pos}
use dragon_ntpd.Base.Lock.{Run, done, free}
use dragon_ntpd.Mode.{ModeState, check_panic_condition}
use dragon_ntpd.Correction.{
  Os, Call, adjtime, apply_time_correction_slew_or_step, slew_clock, normalise,
}
use dragon_ntpd.ReferenceClock.{
  ReferenceClockState, Clock, sampled, reference_clock_init, reference_clock_set_enabled,
  reference_clock_configure, reference_clock_is_available, reference_clock_get_status,
  reference_clock_get_offset, reference_clock_get_jitter, reference_clock_check, correct_by, Step,
  Reachable, init, set_enabled, configure, check, start, next,
}

-- `reference_clock_check` returns 0 with the mutex free. Where no clock is available it changes nothing
-- and leaves the system's clock alone. Where one is, it takes over the system's own time, and its one
-- call on that clock is `adjtime` with an adjustment of zero.
pub reference_clock_check_lem :
    (os : Os) (clock : Clock) (s : ReferenceClockState) (m : ModeState)
    → ((reference_clock_is_available s ≡ false)
        × (reference_clock_check os clock s (free m) ≡ done (s, ok, none) (free m)))
      ⊎ ((reference_clock_is_available s ≡ true)
          × (reference_clock_check os clock s (free m)
              ≡ done (sampled clock s, ok, some (adjtime (pos 0) (pos 0))) (free m)))
unfolding reference_clock_check reference_clock_is_available correct_by reference_clock_get_offset
    apply_time_correction_slew_or_step check_panic_condition slew_clock normalise
reference_clock_check_lem os clock s m = elim (Bool-cases s.enabled) [
  | inr off ↦ inl (rw off, rw off)
  | inl on ↦ elim (Bool-cases (s.type == 0)) [
    | inl absent ↦ inl (rw (on, absent), rw (on, absent))
    | inr typed ↦ inr (rw (on, typed), rw (on, typed))
  ]
]

-- The type is one of the four, the path fits its array, and no offset was ever measured.
pub record IsClock (s : ReferenceClockState) : Type 0 where
  pub type : s.type ≤ 3
  pub device : length s.device ≤ 63
  pub offset : s.offset_us ≡ pos 0
  pub jitter : s.jitter_us ≡ 0

take-length : (n : ℕ) (l : List ℕ) → length (take n l) ≤ n
take-length n l = omega (arith, length-take n l)

configure-IsClock :
    (s : ReferenceClockState) (device : Option (List ℕ)) (type : ℕ)
    → IsClock s
    → IsClock (reference_clock_configure s device type).0
unfolding reference_clock_configure reference_clock_set_enabled
configure-IsClock s none type h = h
configure-IsClock s (some device) type h = elim (Bool-cases (ltb 3 type)) [
  | inl bad ↦
      rw bad record {
        type = h.type;
        device = take-length 63 device;
        offset = h.offset;
        jitter = h.jitter;
      }
  | inr good ↦ rw good record {
    type = ground arith;
    device = take-length 63 device;
    offset = h.offset;
    jitter = h.jitter;
  }
]

checked :
    {x : Run ModeState (ReferenceClockState × Status × Option Call)} {s t : ReferenceClockState}
    (m : ModeState) {r r' : Status} {call call' : Option Call}
    → x ≡ done (t, r, call) (free m)
    → x ≡ done (s, r', call') (free m)
    → s ≡ t
checked m e f = cc

check-IsClock :
    {s s' : ReferenceClockState} (os : Os) (clock : Clock) (m : ModeState) (r : Status)
    (call : Option Call)
    → IsClock s
    → reference_clock_check os clock s (free m) ≡ done (s', r, call) (free m)
    → IsClock s'
check-IsClock {s} os clock m r call h e = elim (reference_clock_check_lem os clock s m) [
  | inl (off, e') ↦ subst IsClock (checked m e e') h
  | inr (on, e') ↦
      subst IsClock (checked m e e')
        record { type = h.type; device = h.device; offset = refl; jitter = refl }
]

Step-IsClock : {s t : ReferenceClockState} → IsClock s → Step s t → IsClock t
unfolding reference_clock_init reference_clock_set_enabled
Step-IsClock h (init e) =
    subst IsClock e
      record { type = omega arith; device = omega arith; offset = refl; jitter = refl }
Step-IsClock h (set_enabled enabled e) =
    subst IsClock e
      record { type = h.type; device = h.device; offset = h.offset; jitter = h.jitter }
Step-IsClock {s} h (configure device type e) = subst IsClock e (configure-IsClock s device type h)
Step-IsClock h (check os clock m r call e) = check-IsClock os clock m r call h e

Reachable-IsClock : {s : ReferenceClockState} → Reachable s → IsClock s
Reachable-IsClock start = record {
  type = omega arith;
  device = omega arith;
  offset = refl;
  jitter = refl;
}
Reachable-IsClock (next r step) = Step-IsClock (Reachable-IsClock r) step

-- In every state that calls can lead to, the type is one of the four and the path fits its 64 bytes;
-- and where a clock is available, which is where its status is 0, the offset and the jitter that are read are
-- zero, while they are refused everywhere else.
pub Reachable-reads :
    {s : ReferenceClockState}
    → Reachable s
    → IsClock s
      × (((reference_clock_is_available s ≡ true)
            × (reference_clock_get_status s ≡ 0)
            × (reference_clock_get_offset s ≡ some (pos 0))
            × (reference_clock_get_jitter s ≡ some 0))
          ⊎ ((reference_clock_is_available s ≡ false)
              × (1 ≤ reference_clock_get_status s)
              × (reference_clock_get_offset s ≡ none)
              × (reference_clock_get_jitter s ≡ none)))
unfolding reference_clock_is_available reference_clock_get_status reference_clock_get_offset
    reference_clock_get_jitter
Reachable-reads {s} r =
    let h = Reachable-IsClock r in
    (
      h,
      elim (Bool-cases s.enabled) [
        | inr off ↦ inr (rw off, rw off (omega arith), rw off, rw off)
        | inl on ↦ elim (Bool-cases (s.type == 0)) [
          | inl absent ↦
              inr (rw (on, absent), rw (on, absent) (omega arith), rw (on, absent), rw (on, absent))
          | inr typed ↦ inl (
            rw (on, typed),
            rw (on, typed),
            rw (on, typed) (rw h.offset),
            rw (on, typed) (rw h.jitter),
          )
        ]
      ],
    )
