-- ===== src/Negotiation/Safety.antt =====
-- Invariants of the negotiation over every sequence of calls.
use dragon_ntpd.Base.{subst}
use dragon_ntpd.Ido.{IdoState, ido_state_init, ido_state_cleanup}
use dragon_ntpd.Ido.Valid.{
  IsValid, ido_state_init-IsValid, ido_process-IsValid, ido_process_skip-IsValid,
  ido_state_machine-IsValid, ido_process_offer-IsValid, ido_process_response-IsValid,
}
use dragon_ntpd.Autokey.Valid.{
  autokey_process-IsValid, autokey_process_skip-IsValid, autokey_state_machine-IsValid,
  autokey_process_key_install-IsValid, autokey_process_key_rotate-IsValid,
  autokey_process_key_revoke-IsValid, autokey_process_offer-IsValid,
  autokey_process_response-IsValid, install_key-IsValid, rotate_key-IsValid,
  autokey_revoke_key-IsValid,
}
use dragon_ntpd.Autokey.Mac.Laws.{autokey_init-IsValid, autokey_cleanup-IsValid}
use dragon_ntpd.Negotiation.{Step, Reach, here, next}

cleaned : (s : IdoState) → IsValid (ido_state_cleanup s)
unfolding ido_state_cleanup
cleaned s = ido_state_init-IsValid s

-- Every call keeps the invariant.
pub Step-IsValid : {s s' : IdoState} → Step s s' → IsValid s → IsValid s'
Step-IsValid {s} (Step.init e) v = subst IsValid e (ido_state_init-IsValid s)
Step-IsValid {s} (Step.cleanup e) v = subst IsValid e (cleaned s)
Step-IsValid {s} (Step.process t len d b e) v = ido_process-IsValid s t len d v e
Step-IsValid {s} (Step.skip t len e) v = subst IsValid e (ido_process_skip-IsValid s t len v)
Step-IsValid {s} (Step.machine event e) v = subst IsValid e (ido_state_machine-IsValid s event v)
Step-IsValid {s} (Step.autokey t len d b e) v = autokey_process-IsValid s t len d v e
Step-IsValid {s} (Step.autokey_skip t len e) v =
    subst IsValid e (autokey_process_skip-IsValid s t len v)
Step-IsValid {s} (Step.autokey_machine event e) v =
    subst IsValid e (autokey_state_machine-IsValid s event v)
Step-IsValid {s} (Step.install t len d b e) v = autokey_process_key_install-IsValid s t len d v e
Step-IsValid {s} (Step.rotate t len d b e) v = autokey_process_key_rotate-IsValid s t len d v e
Step-IsValid {s} (Step.revoke t len d b e) v = autokey_process_key_revoke-IsValid s t len d v e
Step-IsValid {s} (Step.start host file id e) v =
    subst IsValid e (autokey_init-IsValid host s file id)
Step-IsValid {s} (Step.stop e) v = subst IsValid e (autokey_cleanup-IsValid s)
Step-IsValid {s} (Step.offer t len d b e) v = ido_process_offer-IsValid s t len d v e
Step-IsValid {s} (Step.respond t len d b e) v = ido_process_response-IsValid s t len d v e
Step-IsValid {s} (Step.autokey_offer t len d b e) v = autokey_process_offer-IsValid s t len d v e
Step-IsValid {s} (Step.autokey_respond t len d b e) v =
    autokey_process_response-IsValid s t len d v e
Step-IsValid {s} {s'} (Step.install_key id key r e) v = install_key-IsValid s id key (s', r) v e
Step-IsValid {s} {s'} (Step.rotate_key id key r e) v = rotate_key-IsValid s id key (s', r) v e
Step-IsValid {s} (Step.revoke_key id e) v = subst IsValid e (autokey_revoke_key-IsValid s id v)

-- In every state that calls lead to from a freshly initialised one, the state is one of the five of
-- the protocol, the capabilities have three bits, the key id is a byte, the key has twenty bytes, the
-- flags are 0 or 1, and the authentication flag is up only where the response flag is.
pub Reach-IsValid : (s : IdoState) {s' : IdoState} → Reach (ido_state_init s) s' → IsValid s'
Reach-IsValid s here = ido_state_init-IsValid s
Reach-IsValid s (next r st) = Step-IsValid st (Reach-IsValid s r)
