-- ===== src/Ido/Valid.antt =====
-- The invariant of `IdoState`, and that the operations of ido.c keep it.
use dragon_ntpd.Base.{ℕ, ◌≤◌, ◌<◌, ◌≡◌, List, Option, none, some, arith, length, Bool}
use dragon_ntpd.Ido.{
  IdoState, ido_state_init, extract_capabilities, ido_process_offer, ido_process_response,
  ido_process, ido_process_skip, ido_state_machine,
}

pub record IsValid (s : IdoState) : Type 0 where
  pub state_in : s.ido_state ≤ 4
  pub offer_flag : s.ido_offer_received ≤ 1
  pub response_flag : s.ido_response_sent ≤ 1
  pub capabilities_in : s.ido_capabilities < 8
  pub key_id_in : s.ido_key_id < 256
  pub key_full : length s.ido_key ≡ 20
  pub enabled_flag : s.ido_enabled ≤ 1
  -- authentication follows a response
  pub after_response : s.ido_authenticated ≤ s.ido_response_sent

pub ido_state_init-IsValid : (s : IdoState) → IsValid (ido_state_init s)
unfolding ido_state_init
ido_state_init-IsValid s = omega arith

pub extract_capabilities-lt :
    (old len : ℕ) (d : Option (List ℕ)) (caps : ℕ)
    → old < 8
    → extract_capabilities old len d ≡ some caps
    → caps < 8
unfolding extract_capabilities
extract_capabilities-lt old len none caps h e = ground arith
extract_capabilities-lt old len (some d) caps h e = ground arith

pub ido_process_offer-IsValid :
    (s : IdoState) (t len : ℕ) (d : Option (List ℕ)) {s' : IdoState} {b : Bool}
    → IsValid s
    → ido_process_offer s t len d ≡ some (s', b)
    → IsValid s'
unfolding ido_process_offer
ido_process_offer-IsValid s t len d v e = ground arith

pub ido_process_response-IsValid :
    (s : IdoState) (t len : ℕ) (d : Option (List ℕ)) {s' : IdoState} {b : Bool}
    → IsValid s
    → ido_process_response s t len d ≡ some (s', b)
    → IsValid s'
unfolding ido_process_response
ido_process_response-IsValid s t len d v e = ground arith

-- `ido_process` keeps the invariant, whatever the field.
pub ido_process-IsValid :
    (s : IdoState) (t len : ℕ) (d : Option (List ℕ)) {s' : IdoState} {b : Bool}
    → IsValid s
    → ido_process s t len d ≡ some (s', b)
    → IsValid s'
unfolding ido_process
ido_process-IsValid s t len none v e = ground arith
ido_process-IsValid s t len (some d) v e = ground arith

pub ido_process_skip-IsValid :
    (s : IdoState) (t len : ℕ) → IsValid s → IsValid (ido_process_skip s t len).0
unfolding ido_process_skip
ido_process_skip-IsValid s t len v = ground arith

pub ido_state_machine-IsValid :
    (s : IdoState) (event : ℕ) → IsValid s → IsValid (ido_state_machine s event).0
unfolding ido_state_machine
ido_state_machine-IsValid s event v = ground arith
