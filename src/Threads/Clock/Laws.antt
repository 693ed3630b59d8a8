-- ===== src/Threads/Clock/Laws.antt =====
-- What the clock thread's mutex and condition are after its start.
use dragon_ntpd.Base.{ℕ, ◌≡◌, refl, true, none, some, Status, ok, arith}
use dragon_ntpd.Base.Int.{ℤ}
use dragon_ntpd.Threads.{System, destroyed, detached}
use dragon_ntpd.Threads.Clock.{
  ClockThread, clock_thread_init, start_clock_thread, stop_clock_thread, cleanup_clock_thread,
  clock_thread_notify, clock_thread_get_last_offset, clock_thread_get_last_correction,
  update_system_clock,
}

-- The objects of a thread that was started.
pub record IsStarted (c : ClockThread) : Type 0 where
  pub mutex : c.clock_mutex ≡ destroyed
  pub cond : c.clock_cond ≡ destroyed
  pub thread : c.thread_id ≡ detached

start_clock_thread-IsStarted :
    (sys : System) (c c' : ClockThread) (interval : ℕ)
    → start_clock_thread sys c interval ≡ some (c', ok)
    → IsStarted c'
unfolding start_clock_thread clock_thread_init
start_clock_thread-IsStarted sys c c' interval e = record {
  mutex = ground arith;
  cond = ground arith;
  thread = ground arith;
}

-- Whenever `start_clock_thread` returns 0, whatever the state before, it has destroyed the mutex and the
-- condition of the thread that it started: to notify the thread, to read the last offset or the last
-- correction, to clean up, to stop the thread while it runs, and to store a correction, as the thread itself does in
-- every round, are undefined.
pub start_clock_thread-destroyed :
    (sys : System) (c c' : ClockThread) (interval : ℕ) (offset : ℤ) (correction : Status)
    → start_clock_thread sys c interval ≡ some (c', ok)
    → (clock_thread_notify c' ≡ none)
      × (clock_thread_get_last_offset c' ≡ none)
      × (clock_thread_get_last_correction c' ≡ none)
      × (cleanup_clock_thread c' ≡ none)
      × (stop_clock_thread (record c' { running = true }) ≡ none)
      × (update_system_clock (record c' { running = true }) offset correction ≡ none)
unfolding clock_thread_notify clock_thread_get_last_offset clock_thread_get_last_correction
    cleanup_clock_thread stop_clock_thread update_system_clock
start_clock_thread-destroyed sys c c' interval offset correction e =
    let s = start_clock_thread-IsStarted sys c c' interval e in
    (
      rw s.mutex refl,
      rw s.mutex refl,
      rw s.mutex refl,
      rw s.mutex refl,
      rw s.mutex refl,
      rw s.mutex refl,
    )
