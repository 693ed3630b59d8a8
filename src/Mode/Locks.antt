-- ===== src/Mode/Locks.antt =====
-- Which operations of mode_handler.c come back, called by a thread that holds no lock.
use dragon_ntpd.Base.{
  zero, suc, ◌≡◌, refl, Bool, true, false, [], some, length, arith, ltb, ◌*◌, ◌<◌, ◌+◌, ◌↔◌, ◌^◌,
}
use dragon_ntpd.Base.Int.{ℤ, pos, negsuc, pos_part, neg_part}
use dragon_ntpd.Base.Lock.{Locked, done, blocked, free}
use dragon_ntpd.Mode.{
  ModeState, ModeConfig, success, mode_handler_init, mode_handler_cleanup, mode_handler_set_config,
  mode_handler_get_config, acl_clear_entries, acl_get_entry_count, rate_limit_cleanup,
  check_panic_condition,
}

blocked_at :
    (b : Bool) (s : ModeState) (config : ModeConfig)
    → let l : Locked ModeState = record { held = b; value = s } in
      (mode_handler_cleanup l ≡ blocked) × (mode_handler_set_config (some config) l ≡ blocked)
unfolding mode_handler_cleanup mode_handler_set_config
blocked_at true s config = (refl, refl)
blocked_at false s config = (refl, refl)

-- `mode_handler_cleanup`, and `mode_handler_set_config` with any configuration, never return: from
-- every state they lock the mutex and then call a function that locks it again.
pub cleanup-blocked :
    (l : Locked ModeState) (config : ModeConfig)
    → (mode_handler_cleanup l ≡ blocked) × (mode_handler_set_config (some config) l ≡ blocked)
cleanup-blocked l config = blocked_at l.held l.value config

-- With the mutex free, `mode_handler_init` empties both tables and keeps the configuration,
-- `acl_clear_entries` and `rate_limit_cleanup` empty their own, `acl_get_entry_count` and
-- `mode_handler_get_config` read; all of them return with the mutex free again.
pub operations_return :
    (s : ModeState)
    → (mode_handler_init (free s)
        ≡ done success (free (record s { acl_entries = []; rate_limit_entries = [] })))
      × (acl_clear_entries (free s) ≡ done success (free (record s { acl_entries = [] })))
      × (rate_limit_cleanup (free s) ≡ done tt (free (record s { rate_limit_entries = [] })))
      × (acl_get_entry_count (free s) ≡ done (length s.acl_entries) (free s))
      × (mode_handler_get_config (free s) ≡ done s.config (free s))
unfolding mode_handler_init acl_clear_entries rate_limit_cleanup acl_get_entry_count
    mode_handler_get_config
operations_return s = (refl, refl, refl, refl, refl)

-- For an offset above the least `int64_t`, and with the mutex free, `check_panic_condition` reports a panic exactly if the magnitude of the offset
-- is above a milliard times the configured threshold, and changes nothing.
pub check_panic_condition_lem :
    (s : ModeState) (offset : ℤ)
    → neg_part offset < 2 ^ 63
    → (b : Bool) × (check_panic_condition offset (free s) ≡ done b (free s))
      × ((b ≡ true) ↔ (s.config.panic_threshold * 1000000000 < pos_part offset + neg_part offset))
unfolding check_panic_condition
check_panic_condition_lem s (pos zero) h =
    (ltb (s.config.panic_threshold * 1000000000) 0, ground arith, ground arith)
check_panic_condition_lem s (pos (suc n)) h =
    (ltb (s.config.panic_threshold * 1000000000) (suc n), ground arith, ground arith)
check_panic_condition_lem s (negsuc n) h =
    (ltb (s.config.panic_threshold * 1000000000) (suc n), ground arith, ground arith)
