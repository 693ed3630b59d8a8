-- ===== src/Autokey.antt =====
-- autokey.c: the Autokey operations on the shared `IdoState`, and the keys.
-- `AutokeyState` is `IdoState` and `g_autokey_state` is `g_ido_state` (autokey.h), so these
-- operations act on the state of `Ido`. Pointers are as there; `none` is a read outside `ef_data`.
pub mod Keys
pub mod Mac
pub mod Valid
pub mod Fields
use dragon_ntpd.Base.{
  ℕ, ◌+◌, ◌≡◌, Bool, true, false, not, ◌&&◌, ◌||◌, List, [], ◌∷◌, ◌++◌, Option, none, some, ltb,
  leb, ◌==◌, if◌then◌else◌, ◌>>=◌, replicate, take, drop, length, Status, ok, error,
}
use dragon_ntpd.Bytes.{read, read_u32be}
use dragon_ntpd.Ido.{
  IdoState, state_idle, state_offer_received, state_response_sent, state_authenticated,
  state_rejected, event_offer_received, event_response_sent, event_auth_established,
  event_negotiation_failed, ef_autokey_offer, ef_autokey_response, extract_capabilities,
}

unfoldable pub autokey_init_state : IdoState → IdoState
autokey_init_state s = record {
  ido_state = state_idle;
  ido_offer_received = 0;
  ido_response_sent = 0;
  ido_capabilities = 0;
  ido_key_id = 0;
  ido_key = replicate 20 0;
  ido_enabled = 0;
  ido_authenticated = 0;
}

unfoldable pub autokey_cleanup_state : IdoState → IdoState
unfolding autokey_init_state
autokey_cleanup_state s = autokey_init_state s

unfoldable pub autokey_process_offer : IdoState → ℕ → ℕ → Option (List ℕ) → Option (IdoState × Bool)
unfolding extract_capabilities
autokey_process_offer s ef_type ef_length ef_data =
    if not (ef_type == ef_autokey_offer)
    then some (s, false)
    else if ltb ef_length 4 || ltb 48 ef_length
    then some (s, false)
    else (do
      caps ← extract_capabilities s.ido_capabilities ef_length ef_data
      some (
        record s {
          ido_capabilities = caps;
          ido_offer_received = 1;
          ido_state = state_offer_received;
        },
        true,
      ))

unfoldable pub autokey_process_response :
    IdoState → ℕ → ℕ → Option (List ℕ) → Option (IdoState × Bool)
unfolding extract_capabilities
autokey_process_response s ef_type ef_length ef_data =
    if not (ef_type == ef_autokey_response)
    then some (s, false)
    else if ltb ef_length 4 || ltb 48 ef_length
    then some (s, false)
    else (do
      caps ← extract_capabilities s.ido_capabilities ef_length ef_data
      some (
        record s {
          ido_capabilities = caps;
          ido_response_sent = 1;
          ido_state = state_authenticated;
          ido_authenticated = 1;
        },
        true,
      ))

unfoldable pub autokey_process : IdoState → ℕ → ℕ → Option (List ℕ) → Option (IdoState × Bool)
unfolding autokey_process_offer autokey_process_response
autokey_process s ef_type ef_length none = some (s, false)
autokey_process s ef_type ef_length (some ef_data) =
    if ef_type == ef_autokey_offer
    then autokey_process_offer s ef_type ef_length (some ef_data)
    else if ef_type == ef_autokey_response
    then autokey_process_response s ef_type ef_length (some ef_data)
    else some (s, false)

unfoldable pub autokey_process_skip : IdoState → ℕ → ℕ → IdoState × Bool
autokey_process_skip s ef_type ef_length =
    if not (ef_type == ef_autokey_offer) && not (ef_type == ef_autokey_response)
    then (s, false)
    else if ltb ef_length 4 || ltb 48 ef_length
    then (s, false)
    else if ef_type == ef_autokey_offer
    then (record s { ido_offer_received = 1 }, true)
    else if ef_type == ef_autokey_response
    then (record s { ido_response_sent = 1 }, true)
    else (s, true)

-- The `switch`: the state that an event leads to.
unfoldable pub next_state : ℕ → ℕ → ℕ
next_state state event =
    if event == event_offer_received
    then (if state == state_idle then state_offer_received else state)
    else if event == event_response_sent
    then (if state == state_offer_received then state_response_sent else state)
    else if event == event_auth_established
    then (if state == state_response_sent then state_authenticated else state)
    else if event == event_negotiation_failed
    then state_rejected
    else state

unfoldable pub autokey_state_machine : IdoState → ℕ → IdoState × ℕ
unfolding next_state
autokey_state_machine s event =
    let new_state = next_state s.ido_state event in
    if not (new_state == s.ido_state)
    then (record s { ido_state = new_state }, new_state)
    else (s, new_state)

unfoldable pub autokey_is_authenticated : IdoState → Bool
autokey_is_authenticated s = not (s.ido_authenticated == 0)
