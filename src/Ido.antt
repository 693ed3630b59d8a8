-- ===== src/Ido.antt =====
-- ido.c and ido.h: the state of the I-DO/Autokey negotiation and its operations.
-- The state is `IdoState` of ido.h; a pointer to it is the state itself, so the guards against a null
-- state have no counterpart. `ef_data` may be null (`none`), else it is the bytes from the pointer on.
-- An operation returns the new state and the C result; `none` is a read outside `ef_data`.
pub mod Machine
pub mod Valid
use dragon_ntpd.Base.{
  ℕ, ◌%◌, ◌≡◌, Bool, true, false, not, ◌&&◌, ◌||◌, List, Option, none, some, ltb, leb, ◌==◌,
  if◌then◌else◌, ◌>>=◌, replicate,
}
use dragon_ntpd.Bytes.{read}

pub record IdoState : Type 0 where
  pub ido_state : ℕ
  pub ido_offer_received : ℕ
  pub ido_response_sent : ℕ
  pub ido_capabilities : ℕ
  pub ido_key_id : ℕ
  pub ido_key : List ℕ
  pub ido_enabled : ℕ
  pub ido_authenticated : ℕ

-- `IdoState_t`
abbrev pub state_idle : ℕ
state_idle = 0

abbrev pub state_offer_received : ℕ
state_offer_received = 1

abbrev pub state_response_sent : ℕ
state_response_sent = 2

abbrev pub state_authenticated : ℕ
state_authenticated = 3

abbrev pub state_rejected : ℕ
state_rejected = 4

-- The events of the state machine.
abbrev pub event_offer_received : ℕ
event_offer_received = 1

abbrev pub event_response_sent : ℕ
event_response_sent = 2

abbrev pub event_auth_established : ℕ
event_auth_established = 3

abbrev pub event_negotiation_failed : ℕ
event_negotiation_failed = 4

-- The types of the extension fields.
abbrev pub ef_type_offer : ℕ
ef_type_offer = 0x0007

abbrev pub ef_type_response : ℕ
ef_type_response = 0x8007

abbrev pub ef_autokey_offer : ℕ
ef_autokey_offer = 0x000a

abbrev pub ef_autokey_response : ℕ
ef_autokey_response = 0x800a

unfoldable pub ido_state_init : IdoState → IdoState
ido_state_init s = record {
  ido_state = state_idle;
  ido_offer_received = 0;
  ido_response_sent = 0;
  ido_capabilities = 0;
  ido_key_id = 0;
  ido_key = replicate 20 0;
  ido_enabled = 0;
  ido_authenticated = 0;
}

unfoldable pub ido_state_cleanup : IdoState → IdoState
unfolding ido_state_init
ido_state_cleanup s = ido_state_init s

-- The capability flags after a field: the low three bits of its first byte, if there is one.
unfoldable pub extract_capabilities : ℕ → ℕ → Option (List ℕ) → Option ℕ
extract_capabilities old ef_length none = some old
extract_capabilities old ef_length (some ef_data) =
    if leb 4 ef_length
    then (do flags ← read ef_data 0; some (if ltb 0 ef_length then flags % 8 else old))
    else some old

unfoldable pub ido_process_offer : IdoState → ℕ → ℕ → Option (List ℕ) → Option (IdoState × Bool)
unfolding extract_capabilities
ido_process_offer s ef_type ef_length ef_data =
    if not (ef_type == ef_type_offer) && not (ef_type == ef_autokey_offer)
    then some (s, false)
    else if ltb ef_length 4 || ltb 48 ef_length
    then some (s, false)
    else (do
      caps ← extract_capabilities s.ido_capabilities ef_length ef_data
      some (
        record s {
          ido_capabilities = caps;
          ido_offer_received = 1;
          ido_state = state_offer_received;
        },
        true,
      ))

unfoldable pub ido_process_response : IdoState → ℕ → ℕ → Option (List ℕ) → Option (IdoState × Bool)
unfolding extract_capabilities
ido_process_response s ef_type ef_length ef_data =
    if not (ef_type == ef_type_response) && not (ef_type == ef_autokey_response)
    then some (s, false)
    else if ltb ef_length 4 || ltb 48 ef_length
    then some (s, false)
    else (do
      caps ← extract_capabilities s.ido_capabilities ef_length ef_data
      some (
        record s {
          ido_capabilities = caps;
          ido_response_sent = 1;
          ido_state = state_authenticated;
          ido_authenticated = 1;
        },
        true,
      ))

unfoldable pub ido_process : IdoState → ℕ → ℕ → Option (List ℕ) → Option (IdoState × Bool)
unfolding ido_process_offer ido_process_response
ido_process s ef_type ef_length none = some (s, false)
ido_process s ef_type ef_length (some ef_data) =
    if (ef_type == ef_type_offer) || (ef_type == ef_autokey_offer)
    then ido_process_offer s ef_type ef_length (some ef_data)
    else if (ef_type == ef_type_response) || (ef_type == ef_autokey_response)
    then ido_process_response s ef_type ef_length (some ef_data)
    else some (s, false)

unfoldable pub ido_process_skip : IdoState → ℕ → ℕ → IdoState × Bool
ido_process_skip s ef_type ef_length =
    if not (ef_type == ef_type_offer)
      && not (ef_type == ef_type_response)
      && not (ef_type == ef_autokey_offer)
      && not (ef_type == ef_autokey_response)
    then (s, false)
    else if ltb ef_length 4 || ltb 48 ef_length
    then (s, false)
    else if (ef_type == ef_type_offer) || (ef_type == ef_autokey_offer)
    then (record s { ido_offer_received = 1 }, true)
    else if (ef_type == ef_type_response) || (ef_type == ef_autokey_response)
    then (record s { ido_response_sent = 1 }, true)
    else (s, true)

-- The `switch`: the state that an event leads to.
unfoldable pub next_state : ℕ → ℕ → ℕ
next_state state event =
    if event == event_offer_received
    then (if state == state_idle then state_offer_received else state)
    else if event == event_response_sent
    then (if state == state_offer_received then state_response_sent else state)
    else if event == event_auth_established
    then (if state == state_response_sent then state_authenticated else state)
    else if event == event_negotiation_failed
    then state_rejected
    else state

-- The new state and the returned `new_state`.
unfoldable pub ido_state_machine : IdoState → ℕ → IdoState × ℕ
unfolding next_state
ido_state_machine s event =
    let new_state = next_state s.ido_state event in
    if not (new_state == s.ido_state)
    then (record s { ido_state = new_state }, new_state)
    else (s, new_state)

unfoldable pub ido_is_authenticated : IdoState → Bool
ido_is_authenticated s = not (s.ido_authenticated == 0)
