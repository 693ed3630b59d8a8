-- ===== src/Negotiation.antt =====
-- The shared negotiation state under every operation of ido.c and autokey.c, in any order.
pub mod Safety
pub mod Authentication
use dragon_ntpd.Base.{ℕ, ◌≡◌, List, Option, some, Bool, Status}
use dragon_ntpd.Ido.{
  IdoState, ido_state_init, ido_state_cleanup, ido_process, ido_process_skip, ido_state_machine,
  ido_process_offer, ido_process_response,
}
use dragon_ntpd.Autokey.{
  autokey_process, autokey_process_skip, autokey_state_machine, autokey_process_offer,
  autokey_process_response,
}
use dragon_ntpd.Autokey.Keys.{
  autokey_process_key_install, autokey_process_key_rotate, autokey_process_key_revoke,
  autokey_install_key, autokey_rotate_key, autokey_revoke_key,
}
use dragon_ntpd.Autokey.Mac.{autokey_init, autokey_cleanup}

-- One call of a function of ido.h or autokey.h that changes `g_ido_state`, with whatever arguments, that does not
-- read outside its field.
pub data Step (s : IdoState) : IdoState → Type 0 where
  init : {s' : IdoState} → ido_state_init s ≡ s' → Step s s'
  cleanup : {s' : IdoState} → ido_state_cleanup s ≡ s' → Step s s'
  process :
      {s' : IdoState} (t len : ℕ) (d : Option (List ℕ)) (b : Bool)
      → ido_process s t len d ≡ some (s', b)
      → Step s s'
  skip : {s' : IdoState} (t len : ℕ) → (ido_process_skip s t len).0 ≡ s' → Step s s'
  machine : {s' : IdoState} (event : ℕ) → (ido_state_machine s event).0 ≡ s' → Step s s'
  autokey :
      {s' : IdoState} (t len : ℕ) (d : Option (List ℕ)) (b : Bool)
      → autokey_process s t len d ≡ some (s', b)
      → Step s s'
  autokey_skip : {s' : IdoState} (t len : ℕ) → (autokey_process_skip s t len).0 ≡ s' → Step s s'
  autokey_machine : {s' : IdoState} (event : ℕ) → (autokey_state_machine s event).0 ≡ s' → Step s s'
  install :
      {s' : IdoState} (t len : ℕ) (d : Option (List ℕ)) (b : Bool)
      → autokey_process_key_install s t len d ≡ some (s', b)
      → Step s s'
  rotate :
      {s' : IdoState} (t len : ℕ) (d : Option (List ℕ)) (b : Bool)
      → autokey_process_key_rotate s t len d ≡ some (s', b)
      → Step s s'
  revoke :
      {s' : IdoState} (t len : ℕ) (d : Option (List ℕ)) (b : Bool)
      → autokey_process_key_revoke s t len d ≡ some (s', b)
      → Step s s'
  start :
      {s' : IdoState} (host_u32 : List ℕ → ℕ) (file : Option (Option (List ℕ))) (key_id : ℕ)
      → autokey_init host_u32 s file key_id ≡ s'
      → Step s s'
  stop : {s' : IdoState} → autokey_cleanup s ≡ s' → Step s s'
  offer :
      {s' : IdoState} (t len : ℕ) (d : Option (List ℕ)) (b : Bool)
      → ido_process_offer s t len d ≡ some (s', b)
      → Step s s'
  respond :
      {s' : IdoState} (t len : ℕ) (d : Option (List ℕ)) (b : Bool)
      → ido_process_response s t len d ≡ some (s', b)
      → Step s s'
  autokey_offer :
      {s' : IdoState} (t len : ℕ) (d : Option (List ℕ)) (b : Bool)
      → autokey_process_offer s t len d ≡ some (s', b)
      → Step s s'
  autokey_respond :
      {s' : IdoState} (t len : ℕ) (d : Option (List ℕ)) (b : Bool)
      → autokey_process_response s t len d ≡ some (s', b)
      → Step s s'
  install_key :
      {s' : IdoState} (id : ℕ) (key : Option (List ℕ)) (r : Status)
      → autokey_install_key s id key ≡ some (s', r)
      → Step s s'
  rotate_key :
      {s' : IdoState} (id : ℕ) (key : Option (List ℕ)) (r : Status)
      → autokey_rotate_key s id key ≡ some (s', r)
      → Step s s'
  revoke_key : {s' : IdoState} (id : ℕ) → (autokey_revoke_key s id).0 ≡ s' → Step s s'

-- The states that calls lead to from `s`.
pub data Reach (s : IdoState) : IdoState → Type 0 where
  here : Reach s s
  next : {t u : IdoState} → Reach s t → Step t u → Reach s u
