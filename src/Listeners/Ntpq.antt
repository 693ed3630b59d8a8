-- ===== src/Listeners/Ntpq.antt =====
-- socket.c: the requests of ntpq and the thread that accepts them.
-- A reply stands for its text, which is constant but for the values that the constructors hold.
pub mod Laws
use dragon_ntpd.Base.{
  ℕ, ◌/◌, ◌^◌, Bool, true, false, List, [], ◌∷◌, ◌++◌, Option, none, some, leb, if◌then◌else◌,
  Status, ok, error, ◌&&◌, ◌==◌,
}
use dragon_ntpd.Base.Int.{ℤ, pos, negsuc}
use dragon_ntpd.Base.Lock
use dragon_ntpd.Base.Lock.{M, ◌>>=◌, ◌>>◌, pure, lock, unlock, get}
use dragon_ntpd.Daemon.{ClockState}
use dragon_ntpd.Listeners.{Call, opened, closed, ipv4, stream}
use dragon_ntpd.Mode.ConfigFile.{codes, starts_with}
use dragon_ntpd.Threads.Clock.{
  ClockThread, clock_thread_get_last_offset, clock_thread_get_last_correction,
}

-- The word behind "correction:".
pub data CorrectionWord : Type 0 where
  step slew none_made : CorrectionWord

-- What "sysinfo" prints; the delays are shifted to seconds.
pub record SysInfo : Type 0 where
  pub stratum : ℕ
  pub poll : ℤ
  pub precision : ℤ
  pub root_delay : ℕ
  pub root_disp : ℕ
  pub leap : ℕ
  pub clock_offset : ℤ
  pub correction : CorrectionWord

-- `associations` holds the digit of the status.
pub data Reply : Type 0 where
  version : Reply
  associations : ℕ → Reply
  sysinfo : SysInfo → Reply
  accepted : Reply

pub data Command : Type 0 where
  ask_version ask_associations ask_sysinfo quit other : Command

-- The tests in their order. The buffer ends with a zero.
unfoldable pub command_of : List ℕ → Command
command_of buffer =
    if starts_with (codes "version") 7 buffer
    then ask_version
    else if starts_with (codes "associations") 12 buffer
    then ask_associations
    else if starts_with (codes "sysinfo") 7 buffer
    then ask_sysinfo
    else if starts_with (codes "quit") 4 buffer
    then quit
    else other

-- The C value of a result.
abbrev pub status_value : Status → ℤ
status_value ok = pos 0
status_value error = negsuc 0

abbrev pub correction_word : ℤ → CorrectionWord
correction_word (pos n) = if n == 1 then step else if n == 2 then slew else none_made
correction_word (negsuc n) = none_made

abbrev pub association_status : ClockState → ℕ
association_status s = if s.time_synced && leb s.local_stratum 15 then 6 else 3

-- With the two values of the clock thread, none where to read them is undefined.
abbrev pub sysinfo_with : (ℕ → ℕ) → ClockState → Option ℤ → Option Status → Option Reply
sysinfo_with ntohl s none correction = none
sysinfo_with ntohl s (some offset) none = none
sysinfo_with ntohl s (some offset) (some correction) = some (
    sysinfo (record {
      stratum = s.local_stratum;
      poll = s.local_poll;
      precision = s.local_precision;
      root_delay = ntohl s.local_root_delay / 2 ^ 16;
      root_disp = ntohl s.local_root_disp / 2 ^ 16;
      leap = s.local_li;
      clock_offset = offset;
      correction = correction_word (status_value correction);
    }))

-- The reply to a command; "quit" has the same text as an unknown one.
abbrev pub reply_to : (ℕ → ℕ) → ClockThread → Command → M ClockState (Option Reply)
reply_to ntohl c ask_version = pure (some version)
reply_to ntohl c ask_associations = do
  lock
  s ← get
  unlock
  pure (some (associations (association_status s)))
reply_to ntohl c ask_sysinfo = do
  lock
  s ← get
  unlock
  pure (sysinfo_with ntohl s (clock_thread_get_last_offset c) (clock_thread_get_last_correction c))
reply_to ntohl c quit = pure (some accepted)
reply_to ntohl c other = pure (some accepted)

-- What is handed to `send`, if anything, and the calls made by the end.
abbrev pub Session : Type 0
Session = Option Reply × List Call

abbrev pub sent : ℕ → List Call → Option Reply → Option Session
sent client_fd calls none = none
sent client_fd calls (some reply) = some (some reply, closed client_fd ∷ calls)

-- What `recv` returned: none for a negative result, which is logged, and no bytes for 0. It returns
-- 1023 bytes at most.
unfoldable pub handle_ntpq_request :
    (ℕ → ℕ) → ClockThread → ℕ → List Call → Option (List ℕ) → M ClockState (Option Session)
handle_ntpq_request ntohl c client_fd calls none = pure (some (none, closed client_fd ∷ calls))
handle_ntpq_request ntohl c client_fd calls (some []) = pure (some (none, closed client_fd ∷ calls))
handle_ntpq_request ntohl c client_fd calls (some (b ∷ bs)) = do
  reply ← reply_to ntohl c (command_of ((b ∷ bs) ++ 0 ∷ []))
  pure (sent client_fd calls reply)

-- What `accept` returned, with what the client then sends.
pub data Accepted : Type 0 where
  interrupted failed : Accepted
  client : ℕ → Option (List ℕ) → Accepted

-- The replies in their order, with the calls made.
abbrev pub Served : Type 0
Served = List (Option Reply) × List Call

abbrev pub with_reply : Option Reply → Option Served → Option Served
with_reply reply none = none
with_reply reply (some (replies, calls)) = some (reply ∷ replies, calls)

abbrev pub go_on :
    (List Call → M ClockState (Option Served)) → Option Session → M ClockState (Option Served)
go_on rest none = pure none
go_on rest (some (reply, calls)) = do served ← rest calls; pure (with_reply reply served)

-- For what `accept` returns one time after the other; behind the last the thread goes on waiting.
unfoldable pub tcp_accept_thread :
    (ℕ → ℕ) → ClockThread → List Accepted → List Call → M ClockState (Option Served)
unfolding handle_ntpq_request
tcp_accept_thread ntohl c [] calls = pure (some ([], calls))
tcp_accept_thread ntohl c (interrupted ∷ as') calls = tcp_accept_thread ntohl c as' calls
tcp_accept_thread ntohl c (failed ∷ as') calls = pure (some ([], calls))
tcp_accept_thread ntohl c (client fd received ∷ as') calls = do
  session ← handle_ntpq_request ntohl c fd (opened ipv4 stream fd ∷ calls) received
  go_on (tcp_accept_thread ntohl c as') session
