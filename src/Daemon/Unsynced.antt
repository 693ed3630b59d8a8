-- ===== src/Daemon/Unsynced.antt =====
-- Code that leaves the clock unsynchronised: rules by which it is composed.
use dragon_ntpd.Base.{
  ◌≡◌, refl, Bool, true, false, List, Option, none, some, if◌then◌else◌, Status, error,
}
use dragon_ntpd.Base.Lock
use dragon_ntpd.Base.Lock.{Run, Locked}
use dragon_ntpd.Filter.{NtpSample}
use dragon_ntpd.Leap.{LeapSecondState}
use dragon_ntpd.Mode.{ModeState}
use dragon_ntpd.Daemon.{
  Daemon, ClockState, Outcome, returns, waits, faults, M, ◌>>=◌, pure, unless_fault, on_mode,
  on_leap, on_clock, on_samples,
}

-- `g_time_synced` is false.
abbrev pub Unsynced : Daemon → Type 0
Unsynced d = d.clock.value.time_synced ≡ false

-- What returns has the property; code that waits or faults has no result.
abbrev pub Gives : {A : Type 0} → (A → Daemon → Type 0) → Outcome A → Type 0
Gives Q (returns a d) = Q a d
Gives Q waits = Unit {0}
Gives Q faults = Unit {0}

-- Code that, called in a state without synchronisation, comes back in one.
unfoldable pub Keeps : {A : Type 0} → M A → Type 0
Keeps m = (d : Daemon) → Unsynced d → Gives (λ a d'. Unsynced d') (m d)

module _ {A B : Type 0} where
  bind_of :
      (o : Outcome A) (f : A → M B)
      → Gives (λ a d'. Unsynced d') o
      → ((a : A) → Keeps (f a))
      → Gives
          (λ b d'. Unsynced d')
          (elim o [ returns a d' ↦ f a d' | waits ↦ waits | faults ↦ faults ])
  unfolding Keeps
  bind_of (returns a d) f h k = k a d h
  bind_of waits f h k = tt
  bind_of faults f h k = tt

  pub Keeps-bind : (m : M A) (f : A → M B) → Keeps m → ((a : A) → Keeps (f a)) → Keeps (m >>= f)
  unfolding Keeps
  Keeps-bind m f h k d u = bind_of (m d) f (h d u) k

  pub Keeps-unless_fault :
      (o : Option A) (f : A → M B) → ((a : A) → Keeps (f a)) → Keeps (unless_fault o f)
  unfolding Keeps
  Keeps-unless_fault none f k d u = tt
  Keeps-unless_fault (some a) f k d u = k a d u

module _ {A : Type 0} where
  pub Gives-if :
      (Q : A → Daemon → Type 0) (c : Bool) (x y : Outcome A)
      → Gives Q x
      → Gives Q y
      → Gives Q (if c then x else y)
  Gives-if Q true x y h k = h
  Gives-if Q false x y h k = k

  pub Keeps-pure : (a : A) → Keeps (pure a)
  unfolding Keeps
  Keeps-pure a d u = u

  pub Keeps-if : (c : Bool) (m n : M A) → Keeps m → Keeps n → Keeps (if c then m else n)
  unfolding Keeps
  Keeps-if true m n h k = h
  Keeps-if false m n h k = k

  on_mode_of :
      (r : Run ModeState A) (d : Daemon)
      → Unsynced d
      → Gives
          (λ a d'. Unsynced d')
          (elim r [ Lock.done a l ↦ returns a (record d { mode = l }) | Lock.blocked ↦ waits ])
  on_mode_of (Lock.done a l) d u = u
  on_mode_of Lock.blocked d u = tt

  pub Keeps-on_mode : (m : Lock.M ModeState A) → Keeps (on_mode m)
  unfolding Keeps
  Keeps-on_mode m d u = on_mode_of (m d.mode) d u

  on_leap_of :
      (r : Run LeapSecondState A) (d : Daemon)
      → Unsynced d
      → Gives
          (λ a d'. Unsynced d')
          (elim r [ Lock.done a l ↦ returns a (record d { leap = l }) | Lock.blocked ↦ waits ])
  on_leap_of (Lock.done a l) d u = u
  on_leap_of Lock.blocked d u = tt

  pub Keeps-on_leap : (m : Lock.M LeapSecondState A) → Keeps (on_leap m)
  unfolding Keeps
  Keeps-on_leap m d u = on_leap_of (m d.leap) d u

  on_samples_of :
      (r : Run (List NtpSample) A) (d : Daemon)
      → Unsynced d
      → Gives
          (λ a d'. Unsynced d')
          (elim r [
            | Lock.done a l ↦ returns a (record d {
              clock = record { held = l.held; value = record d.clock.value { samples = l.value } };
            })
            | Lock.blocked ↦ waits
          ])
  on_samples_of (Lock.done a l) d u = u
  on_samples_of Lock.blocked d u = tt

  pub Keeps-on_samples : (m : Lock.M (List NtpSample) A) → Keeps (on_samples m)
  unfolding Keeps
  Keeps-on_samples m d u =
      on_samples_of (m (record { held = d.clock.held; value = d.clock.value.samples })) d u

lock_of :
    (held : Bool) (d : Daemon)
    → Unsynced d
    → Gives
        (λ (u : Unit {0}) d'. Unsynced d')
        (elim (if held then Lock.blocked else Lock.done tt (record d.clock { held = true })) [
          | Lock.done a l ↦ returns a (record d { clock = l })
          | Lock.blocked ↦ waits
        ])
lock_of true d u = tt
lock_of false d u = u

pub Keeps-lock : Keeps (on_clock Lock.lock)
unfolding Keeps
Keeps-lock d u = lock_of d.clock.held d u

pub Keeps-unlock : Keeps (on_clock Lock.unlock)
unfolding Keeps
Keeps-unlock d u = u

pub Keeps-get : Keeps (on_clock Lock.get)
unfolding Keeps
Keeps-get d u = u

pub Keeps-modify :
    (f : ClockState → ClockState)
    → ((k : ClockState) → k.time_synced ≡ false → (f k).time_synced ≡ false)
    → Keeps (on_clock (Lock.modify f))
unfolding Keeps
Keeps-modify f h d u = h d.clock.value u

-- Code that, called in a state without synchronisation, comes back in one with -1, or does not come
-- back.
unfoldable pub Fails : M Status → Type 0
Fails m = (d : Daemon) → Unsynced d → Gives (λ status d'. (status ≡ error) × Unsynced d') (m d)

status_of :
    {A : Type 0} (o : Outcome A) (f : A → M Status)
    → Gives (λ a d'. Unsynced d') o
    → ((a : A) → Fails (f a))
    → Gives
        (λ status d'. (status ≡ error) × Unsynced d')
        (elim o [ returns a d' ↦ f a d' | waits ↦ waits | faults ↦ faults ])
unfolding Fails
status_of (returns a d) f h k = k a d h
status_of waits f h k = tt
status_of faults f h k = tt

pub Fails-bind :
    {A : Type 0} (m : M A) (f : A → M Status) → Keeps m → ((a : A) → Fails (f a)) → Fails (m >>= f)
unfolding Fails Keeps
Fails-bind m f h k d u = status_of (m d) f (h d u) k

pub Fails-error : Fails (pure error)
unfolding Fails
Fails-error d u = (refl, u)

pub Fails-waits : (m : M Status) → ((d : Daemon) → m d ≡ waits) → Fails m
unfolding Fails
Fails-waits m h d u = rw (h d) tt

pub Fails-if : (c : Bool) (m n : M Status) → Fails m → Fails n → Fails (if c then m else n)
unfolding Fails
Fails-if true m n h k = h
Fails-if false m n h k = k
