-- ===== src/Examples/Reference.antt =====
-- A GPS receiver, as reference_clock.c keeps it.
use dragon_ntpd.Base.{◌≤◌, ◌≡◌, ◌⊎◌, refl, [], ◌∷◌, some, none, ok, true, false}
use dragon_ntpd.Base.Int.{pos}
use dragon_ntpd.Correction.{Os}
use dragon_ntpd.ReferenceClock.{
  ReferenceClockState, Clock, Reachable, next, init, configure, g_reference_clock,
  reference_clock_init, reference_clock_set_enabled, reference_clock_configure,
  reference_clock_is_available, reference_clock_get_status, reference_clock_get_offset,
  reference_clock_get_jitter,
}
use dragon_ntpd.ReferenceClock.Laws.{IsClock, Reachable-reads}

abbrev os : Os
os = record { clock_gettime = some (1000, 0); clock_settime = λ s ns. ok; adjtime = λ s us. ok }

abbrev clock : Clock
clock = record { tv_sec = 1750000000; tv_nsec = 5; time = 1750000000 }

abbrev gps : ReferenceClockState
gps = record g_reference_clock { type = 1; device = b'/' ∷ b'g' ∷ []; enabled = true; stratum = 16 }

gps-Reachable : Reachable gps
unfolding reference_clock_init reference_clock_configure reference_clock_set_enabled
gps-Reachable = next (next Reachable.start (init refl)) (configure (some (b'/' ∷ b'g' ∷ [])) 1 refl)

gps_reads_example :
    IsClock gps
    × (((reference_clock_is_available gps ≡ true)
          × (reference_clock_get_status gps ≡ 0)
          × (reference_clock_get_offset gps ≡ some (pos 0))
          × (reference_clock_get_jitter gps ≡ some 0))
        ⊎ ((reference_clock_is_available gps ≡ false)
            × (1 ≤ reference_clock_get_status gps)
            × (reference_clock_get_offset gps ≡ none)
            × (reference_clock_get_jitter gps ≡ none)))
gps_reads_example = Reachable-reads gps-Reachable
