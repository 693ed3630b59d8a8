-- ===== src/Sync/Deadlock.antt =====
-- Behind an accepted reply `sync_ntp_time` waits for ever.
use dragon_ntpd.Base.{◌≡◌, refl, ℕ, List, Bool, true, false}
use dragon_ntpd.Base.Lock
use dragon_ntpd.Base.Lock.{Run, Locked}
use dragon_ntpd.Base.Int.{ℤ}
use dragon_ntpd.Correction.{Os, apply_time_correction_slew_or_step}
use dragon_ntpd.Leap.{World}
use dragon_ntpd.Mode.{ModeState}
use dragon_ntpd.Daemon.{
  Daemon, ClockState, M, Outcome, waits, returns, faults, on_mode, on_clock, ◌>>=◌,
}
use dragon_ntpd.Sync.Poll.{adjust_poll_interval}
use dragon_ntpd.Sync.Examine.{Accepted}
use dragon_ntpd.Sync.Commit.{
  Discipline, ntp_offset_jitter_us_locked, update_frequency_discipline, finish, commit,
}

discipline_of :
    (held : Bool) (d : Daemon) (k : ClockState) (x : Discipline) (offset_us poll_exp : ℤ)
    → update_frequency_discipline x offset_us poll_exp
        (record d { clock = record { held = held; value = k } })
      ≡ waits
unfolding update_frequency_discipline ntp_offset_jitter_us_locked
discipline_of true d k x offset_us poll_exp = refl
discipline_of false d k x offset_us poll_exp = refl

-- `update_frequency_discipline` never comes back, from any state: it locks `g_mutex` and then calls
-- `ntp_offset_jitter_us_locked`, which locks it again.
pub update_frequency_discipline-waits :
    (x : Discipline) (offset_us poll_exp : ℤ) (d : Daemon)
    → update_frequency_discipline x offset_us poll_exp d ≡ waits
update_frequency_discipline-waits x offset_us poll_exp d =
    discipline_of d.clock.held d d.clock.value x offset_us poll_exp

corrected_by :
    {A B : Type 0} (r : Run ModeState A) (f : A → M B) (d : Daemon)
    → ((a : A) (d' : Daemon) → f a d' ≡ waits)
    → (elim (elim r as (λ r. Outcome A) [
      | Lock.done a l ↦ returns a (record d { mode = l })
      | Lock.blocked ↦ waits
    ])
        as (λ o. Outcome B) [ returns a d' ↦ f a d' | waits ↦ waits | faults ↦ faults ])
      ≡ waits
corrected_by (Lock.done a l) f d h = h a (record d { mode = l })
corrected_by Lock.blocked f d h = refl

corrected :
    {A B : Type 0} (m : Lock.M ModeState A) (f : A → M B) (d : Daemon)
    → ((a : A) (d' : Daemon) → f a d' ≡ waits)
    → (on_mode m >>= f) d ≡ waits
corrected m f d h = corrected_by (m d.mode) f d h

-- Whatever reply passed the checks, and whatever the state: what follows the checks never comes back.
pub commit-waits :
    (x : Discipline) (os : Os) (w : World) (ip : List ℕ) (a : Accepted) (d : Daemon)
    → commit x os w ip a d ≡ waits
unfolding commit
commit-waits x os w ip a d =
    corrected (apply_time_correction_slew_or_step os a.offset_us)
      (λ r. on_clock Lock.get >>= λ k.
        update_frequency_discipline x a.offset_us k.local_poll >>= λ u. finish x w ip a)
      (record d {
        clock = record {
          held = false;
          value = record d.clock.value {
            local_poll =
                adjust_poll_interval d.clock.value.local_poll a.peer_poll a.delay_us a.offset_us;
          };
        };
      })
      (λ r d'.
        rw (◌>>=◌, update_frequency_discipline-waits x a.offset_us d'.clock.value.local_poll d')
          refl)
