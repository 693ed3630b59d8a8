-- ===== src/Threads/Clock.antt =====
-- threads.c: the thread that corrects the clock.
pub mod Laws
pub mod Offset
use dragon_ntpd.Base.{
  ℕ, ◌+◌, ◌-◌, ◌*◌, ◌/◌, ◌%◌, ◌^◌, Bool, true, false, not, List, [], ◌∷◌, Option, none, some, leb,
  ◌==◌, if◌then◌else◌, Status, ok, error, ◌>>=◌,
}
use dragon_ntpd.Base.Int.{ℤ, pos, ◌-ℤ◌, ◌/ℤ◌}
use dragon_ntpd.Base.Lock
use dragon_ntpd.Packet.{NtpTimestamp}
use dragon_ntpd.Mode.{ModeState}
use dragon_ntpd.Correction.{Os, Call, apply_time_correction_slew_or_step}
use dragon_ntpd.Threads.{
  Object, zeroed, ready, destroyed, usable, destroy, Thread, absent, joinable, detached, join,
  System,
}

-- `ClockThreadContext`, without the `running` that nothing uses, and `g_clock_thread_running`. The last
-- correction is a status, 0 or -1: the result of the call that corrects.
pub record ClockThread : Type 0 where
  pub interval_ms : ℕ
  pub clock_mutex : Object
  pub clock_cond : Object
  pub thread_id : Thread
  pub last_offset_us : ℤ
  pub last_correction : Status
  pub running : Bool

-- The globals as the program starts.
abbrev pub g_clock_ctx : ClockThread
g_clock_ctx = record {
  interval_ms = 0;
  clock_mutex = zeroed;
  clock_cond = zeroed;
  thread_id = absent;
  last_offset_us = pos 0;
  last_correction = ok;
  running = false;
}

-- The labels `cleanup_mutex` and `cleanup_attr`, which success runs into too.
abbrev pub cleanup_mutex : ClockThread → Status → Option (ClockThread × Status)
cleanup_mutex c ret = do
  mutex ← destroy c.clock_mutex
  cond ← destroy c.clock_cond
  some (record c { clock_mutex = mutex; clock_cond = cond }, ret)

unfoldable pub clock_thread_init : System → ClockThread → ℕ → Option (ClockThread × Status)
clock_thread_init sys c interval_ms =
    let c₀ = record g_clock_ctx { interval_ms = interval_ms; running = c.running } in
    if not sys.mutex_init
    then some (c₀, error)
    else if not sys.cond_init
    then cleanup_mutex (record c₀ { clock_mutex = ready }) error
    else cleanup_mutex (record c₀ { clock_mutex = ready; clock_cond = ready }) ok

-- What follows the initialisation.
abbrev pub start_initialised : System → ClockThread → Status → ClockThread × Status
start_initialised sys c error = (c, error)
start_initialised sys c ok =
    if not sys.create
    then (c, error)
    else if not sys.detach
    then (c, error)
    else (record c { thread_id = detached }, ok)

unfoldable pub start_clock_thread : System → ClockThread → ℕ → Option (ClockThread × Status)
unfolding clock_thread_init
start_clock_thread sys c interval_ms = do
  r ← clock_thread_init sys c interval_ms
  some (start_initialised sys r.0 r.1)

-- A critical section of `clock_mutex`.
abbrev pub under_mutex : {A : Type 0} → ClockThread → A → Option A
under_mutex c a = if usable c.clock_mutex then some a else none

-- `pthread_cond_signal` under the mutex.
unfoldable pub clock_thread_notify : ClockThread → Option Status
clock_thread_notify c = do _ ← under_mutex c tt; if usable c.clock_cond then some ok else none

unfoldable pub stop_clock_thread : ClockThread → Option ClockThread
unfolding clock_thread_notify
stop_clock_thread c = if not c.running then some c else (do
  _ ← clock_thread_notify c
  thread ← join c.thread_id
  some (record c { running = false; thread_id = thread }))

unfoldable pub cleanup_clock_thread : ClockThread → Option ClockThread
cleanup_clock_thread c = do r ← cleanup_mutex c ok; some r.0

unfoldable pub clock_thread_get_last_offset : ClockThread → Option ℤ
clock_thread_get_last_offset c = under_mutex c c.last_offset_us

unfoldable pub clock_thread_get_last_correction : ClockThread → Option Status
clock_thread_get_last_correction c = under_mutex c c.last_correction

unfoldable pub update_system_clock : ClockThread → ℤ → Status → Option ClockThread
update_system_clock c offset_us correction =
    under_mutex c (record c { last_offset_us = offset_us; last_correction = correction })

-- The correction, in microseconds, from the time of `gettimeofday` and the last synchronisation. The
-- product with the fraction is of 32 bits.
unfoldable pub offset_us : ℕ → ℕ → NtpTimestamp → ℤ
unfolding ◌-ℤ◌ ◌/ℤ◌
offset_us tv_sec tv_usec last_sync =
    (pos (tv_sec * 1000000000 + tv_usec * 1000)
      -ℤ pos (last_sync.sec * 1000000000 + last_sync.frac * 1000 % 2 ^ 32))
    /ℤ 1000

-- The time to wait for, from the time that the clock shows.
unfoldable pub deadline : ℕ → ℕ → ℕ → ℕ × ℕ
deadline tv_sec tv_nsec interval_ms =
    let sec = tv_sec + interval_ms / 1000 in
    let nsec = tv_nsec + interval_ms % 1000 * 1000000 in
    if leb 1000000000 nsec then (sec + 1, nsec - 1000000000) else (sec, nsec)

-- How the wait ends: with ETIMEDOUT, with EINTR, or in another way.
pub data Wait : Type 0 where
  timed_out interrupted notified : Wait

-- What one round finds: the clocks, none where they cannot be read, the last synchronisation, how the
-- wait for a given time ends, and the flag behind it.
pub record Round : Type 0 where
  pub os : Os
  pub gettimeofday : Option (ℕ × ℕ)
  pub clock_gettime : Option (ℕ × ℕ)
  pub last_sync : NtpTimestamp
  pub wait : ℕ × ℕ → Wait
  pub still_running : Bool

-- The thread's state, the call on the system's clock, and whether the loop is left by `break`.
abbrev pub Rounded : Type 0
Rounded = ClockThread × Option Call × Bool

-- From the wait on, with the time that was read.
abbrev pub wait_until : Round → ClockThread → Option Call → Option (ℕ × ℕ) → Option Rounded
wait_until e c call none = some (c, call, false)
wait_until e c call (some now) =
    if usable c.clock_mutex
    then if usable c.clock_cond
      then elim (e.wait (deadline now.0 now.1 c.interval_ms)) [
        | timed_out ↦ some (c, call, false)
        | interrupted ↦ some (c, call, not e.still_running)
        | notified ↦ some (c, call, true)
      ]
      else none
    else none

-- Behind the correction.
abbrev pub corrected :
    Round
    → ClockThread
    → ℤ
    → Status × Option Call
    → Lock.Locked ModeState
    → Lock.Run ModeState (Option Rounded)
corrected e c offset result l =
    Lock.done
      (do c' ← update_system_clock c offset result.0; wait_until e c' result.1 e.clock_gettime) l

-- With the time of `gettimeofday`.
unfoldable pub round_at : Round → ClockThread → Option (ℕ × ℕ) → Lock.M ModeState (Option Rounded)
unfolding offset_us update_system_clock apply_time_correction_slew_or_step
round_at e c none l = Lock.done (some (c, none, false)) l
round_at e c (some tv) l =
    Lock.◌>>=◌ (apply_time_correction_slew_or_step e.os (offset_us tv.0 tv.1 e.last_sync))
      (corrected e c (offset_us tv.0 tv.1 e.last_sync)) l

-- One round of the loop of `clock_thread_main`; `none` where it does what is undefined.
unfoldable pub clock_round : Round → ClockThread → Lock.M ModeState (Option Rounded)
unfolding round_at
clock_round e c = round_at e c e.gettimeofday

-- The thread's first act: without a server it ends. True where the loop begins.
unfoldable pub clock_thread_begin : ℕ → ClockThread → ClockThread × Bool
clock_thread_begin server_count c =
    if server_count == 0
    then (record c { running = false }, false)
    else (record c { running = true }, true)

abbrev pub with_call : Option Call → List Call → List Call
with_call none calls = calls
with_call (some call) calls = call ∷ calls

-- The loop over the rounds that the thread makes: the calls on the system's clock, the last one first.
-- Behind every round the flag is what the other threads have made of it.
unfoldable pub clock_loop :
    List Round → ClockThread → List Call → Lock.M ModeState (Option (ClockThread × List Call))
clock_loop [] c calls l = Lock.done (some (c, calls)) l
clock_loop (e ∷ rounds) c calls l =
    if not c.running
    then Lock.done (some (c, calls)) l
    else Lock.◌>>=◌ (clock_round e c)
        (λ r l'. elim r [
          | none ↦ Lock.done none l'
          | some (c', call, stop) ↦
              if stop
              then Lock.done (some (c', with_call call calls)) l'
              else clock_loop rounds (record c' { running = e.still_running })
                  (with_call call calls) l'
        ])
        l

unfoldable pub clock_thread_main :
    ℕ → List Round → ClockThread → Lock.M ModeState (Option (ClockThread × List Call))
unfolding clock_thread_begin clock_loop
clock_thread_main server_count rounds c l =
    if (clock_thread_begin server_count c).1
    then clock_loop rounds (clock_thread_begin server_count c).0 [] l
    else Lock.done (some ((clock_thread_begin server_count c).0, [])) l
