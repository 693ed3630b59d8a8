-- ===== src/Daemon.antt =====
-- The globals that the server and the synchronisation share, and code that uses several of their
-- mutexes: `g_mutex` over the clock's state, `g_mode_mutex` and `g_leap_second_mutex`. The variables
-- are those of main.c, time_sync.c and socket.c.
-- Code of one thread takes the state and returns, waits for ever for a mutex that it holds itself, or
-- faults (a read outside a buffer).
pub mod Unsynced
use dragon_ntpd.Base.{ℕ, Bool, List, Option, none, some}
use dragon_ntpd.Base.Int.{ℤ}
use dragon_ntpd.Base.Lock
use dragon_ntpd.Base.Lock.{Locked}
use dragon_ntpd.Ido.{IdoState}
use dragon_ntpd.Mode.{ModeState}
use dragon_ntpd.Leap.{LeapSecondState}
use dragon_ntpd.Filter.{NtpSample}
use dragon_ntpd.Packet.{NtpTimestamp}

-- `PeerState` of ntpd.h
pub record PeerState : Type 0 where
  pub ip : List ℕ
  pub port : List ℕ
  pub stratum : ℕ
  pub delay_us : ℕ
  pub offset_us : ℤ
  pub jitter_us : ℕ
  pub root_disp : ℕ
  pub last_update : ℕ
  pub reachable : Bool
  pub ido_state : IdoState

-- The globals under `g_mutex`: what a reply is made of, the samples of the filter and the peer pool.
pub record ClockState : Type 0 where
  pub time_synced : Bool
  pub local_stratum : ℕ
  pub local_ref_id : ℕ
  pub local_ref_ts : NtpTimestamp
  pub local_root_delay : ℕ
  pub local_root_disp : ℕ
  pub local_li : ℕ
  pub local_precision : ℤ
  pub local_poll : ℤ
  pub last_sync_ts : NtpTimestamp
  pub last_dispersion_update : ℕ
  pub samples : List NtpSample
  pub peer_pool : List PeerState

-- The globals of socket.c, under no mutex: `g_sync_sock`, negative or a descriptor.
pub record Sockets : Type 0 where
  pub last_broadcast : ℕ
  pub sync_sock : Option ℕ

pub record Daemon : Type 0 where
  pub ido : IdoState
  pub mode : Locked ModeState
  pub leap : Locked LeapSecondState
  pub clock : Locked ClockState
  pub sockets : Sockets

pub data Outcome (A : Type 0) : Type 0 where
  returns : A → Daemon → Outcome A
  waits : Outcome A
  faults : Outcome A

abbrev pub M : Type 0 → Type 0
M A = Daemon → Outcome A

infixl 5 ◌>>=◌ ◌>>◌
abbrev pub ◌>>=◌ : {A B : Type 0} → M A → (A → M B) → M B
◌>>=◌ m f d = elim (m d) [ returns a d' ↦ f a d' | waits ↦ waits | faults ↦ faults ]

abbrev pub ◌>>◌ : {A B : Type 0} → M A → M B → M B
m >> k = m >>= λ _. k

abbrev pub pure : {A : Type 0} → A → M A
pure a d = returns a d

-- The `elim` of `none` is the fault.
abbrev pub unless_fault : {A B : Type 0} → Option A → (A → M B) → M B
unless_fault none f d = faults
unless_fault (some a) f d = f a d

-- Code that uses one mutex and what it protects.
abbrev pub on_mode : {A : Type 0} → Lock.M ModeState A → M A
on_mode m d = elim (m d.mode) [
  | Lock.done a l ↦ returns a (record d { mode = l })
  | Lock.blocked ↦ waits
]

abbrev pub on_leap : {A : Type 0} → Lock.M LeapSecondState A → M A
on_leap m d = elim (m d.leap) [
  | Lock.done a l ↦ returns a (record d { leap = l })
  | Lock.blocked ↦ waits
]

abbrev pub on_clock : {A : Type 0} → Lock.M ClockState A → M A
on_clock m d = elim (m d.clock) [
  | Lock.done a l ↦ returns a (record d { clock = l })
  | Lock.blocked ↦ waits
]

-- Code that uses the samples under `g_mutex`.
abbrev pub on_samples : {A : Type 0} → Lock.M (List NtpSample) A → M A
on_samples m d = elim (m (record { held = d.clock.held; value = d.clock.value.samples })) [
  | Lock.done a l ↦ returns a (record d {
    clock = record { held = l.held; value = record d.clock.value { samples = l.value } };
  })
  | Lock.blocked ↦ waits
]
