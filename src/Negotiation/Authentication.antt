-- ===== src/Negotiation/Authentication.antt =====
-- Which call establishes authentication.
use dragon_ntpd.Base.{
  ℕ, ◌≤◌, ◌≡◌, ◌≢◌, ◌⊎◌, refl, Bool, arith, List, Option, none, some, Option-cases, inl, inr,
  Status, ok, error, drop,
}
use dragon_ntpd.Bytes.{read_u32be}
use dragon_ntpd.Ido.{
  IdoState, ido_state_init, ido_state_cleanup, ido_process, ido_process_skip, ido_state_machine,
  ido_process_offer, ido_process_response, ef_type_response, ef_autokey_response,
}
use dragon_ntpd.Autokey.{
  autokey_process, autokey_process_skip, autokey_state_machine, autokey_init_state,
  autokey_process_offer, autokey_process_response,
}
use dragon_ntpd.Autokey.Keys.{
  autokey_install_key, autokey_rotate_key, autokey_revoke_key, autokey_process_key_install,
  autokey_process_key_rotate, autokey_process_key_revoke,
}
use dragon_ntpd.Autokey.Valid.{succeeded-keeps}
use dragon_ntpd.Autokey.Mac.{autokey_init, autokey_cleanup, loaded}
use dragon_ntpd.Negotiation.{Step}

-- A Response field, of I-DO or Autokey, of 4 to 48 bytes.
pub record IsResponseField (t len : ℕ) : Type 0 where
  pub response_type : (t ≡ ef_type_response) ⊎ (t ≡ ef_autokey_response)
  pub long_enough : 4 ≤ len
  pub short_enough : len ≤ 48

-- One with data.
pub record IsResponse (t len : ℕ) (d : Option (List ℕ)) : Type 0 where
  pub response_type : (t ≡ ef_type_response) ⊎ (t ≡ ef_autokey_response)
  pub long_enough : 4 ≤ len
  pub short_enough : len ≤ 48
  pub has_data : d ≢ none

module _ (s : IdoState) where
  abbrev Quiet : IdoState → Type 0
  Quiet s' = s'.ido_authenticated ≡ s.ido_authenticated

  -- Authentication is not newly established.
  abbrev Unraised : IdoState → Type 0
  Unraised s' = s.ido_authenticated ≡ 0 → s'.ido_authenticated ≡ 0

  process-auth :
      (t len : ℕ) (d : Option (List ℕ)) {s' : IdoState} {b : Bool}
      → ido_process s t len d ≡ some (s', b)
      → Quiet s' ⊎ IsResponse t len d
  unfolding ido_process
  process-auth t len none e = inl (ground arith)
  process-auth t len (some d) e = ground arith

  autokey-auth :
      (t len : ℕ) (d : Option (List ℕ)) {s' : IdoState} {b : Bool}
      → autokey_process s t len d ≡ some (s', b)
      → Quiet s' ⊎ IsResponse t len d
  unfolding autokey_process
  autokey-auth t len none e = inl (ground arith)
  autokey-auth t len (some d) e = ground arith

  offer-auth :
      (t len : ℕ) (d : Option (List ℕ)) {s' : IdoState} {b : Bool}
      → ido_process_offer s t len d ≡ some (s', b)
      → Quiet s'
  unfolding ido_process_offer
  offer-auth t len d e = ground arith

  autokey_offer-auth :
      (t len : ℕ) (d : Option (List ℕ)) {s' : IdoState} {b : Bool}
      → autokey_process_offer s t len d ≡ some (s', b)
      → Quiet s'
  unfolding autokey_process_offer
  autokey_offer-auth t len d e = ground arith

  respond-auth :
      (t len : ℕ) (d : Option (List ℕ)) {s' : IdoState} {b : Bool}
      → ido_process_response s t len d ≡ some (s', b)
      → Quiet s' ⊎ IsResponseField t len
  unfolding ido_process_response
  respond-auth t len d e = ground arith

  autokey_respond-auth :
      (t len : ℕ) (d : Option (List ℕ)) {s' : IdoState} {b : Bool}
      → autokey_process_response s t len d ≡ some (s', b)
      → Quiet s' ⊎ IsResponseField t len
  unfolding autokey_process_response
  autokey_respond-auth t len d e = ground arith

  revoke_key-auth : (id : ℕ) → Quiet (autokey_revoke_key s id).0
  unfolding autokey_revoke_key
  revoke_key-auth id = ground arith

  skip-auth : (t len : ℕ) → Quiet (ido_process_skip s t len).0
  unfolding ido_process_skip
  skip-auth t len = ground arith

  autokey_skip-auth : (t len : ℕ) → Quiet (autokey_process_skip s t len).0
  unfolding autokey_process_skip
  autokey_skip-auth t len = ground arith

  machine-auth : (event : ℕ) → Quiet (ido_state_machine s event).0
  unfolding ido_state_machine
  machine-auth event = ground arith

  autokey_machine-auth : (event : ℕ) → Quiet (autokey_state_machine s event).0
  unfolding autokey_state_machine
  autokey_machine-auth event = ground arith

  install-auth :
      (id : ℕ) (key : Option (List ℕ)) (r : IdoState × Status)
      → autokey_install_key s id key ≡ some r
      → Quiet r.0
  unfolding autokey_install_key
  install-auth id none r e = ground arith
  install-auth id (some key) r e = ground arith

  rotate-auth :
      (id : ℕ) (key : Option (List ℕ)) (r : IdoState × Status)
      → autokey_rotate_key s id key ≡ some r
      → Quiet r.0
  unfolding autokey_rotate_key
  rotate-auth id none r e = ground arith
  rotate-auth id (some key) r e = ground arith

  process_install-auth :
      (t len : ℕ) (d : Option (List ℕ)) {s' : IdoState} {b : Bool}
      → autokey_process_key_install s t len d ≡ some (s', b)
      → Quiet s'
  unfolding autokey_process_key_install
  process_install-auth t len none e = ground arith
  process_install-auth t len (some d) {s'} {b} e = elim (Option-cases (read_u32be d 0)) [
    | inl unread ↦ ground arith
    | inr (id, found) ↦ ground (
      arith,
      succeeded-keeps Quiet (autokey_install_key s id (some (drop 4 d)))
          (install-auth id (some (drop 4 d))) s' b,
    )
  ]

  process_rotate-auth :
      (t len : ℕ) (d : Option (List ℕ)) {s' : IdoState} {b : Bool}
      → autokey_process_key_rotate s t len d ≡ some (s', b)
      → Quiet s'
  unfolding autokey_process_key_rotate
  process_rotate-auth t len none e = ground arith
  process_rotate-auth t len (some d) {s'} {b} e = elim (Option-cases (read_u32be d 0)) [
    | inl unread ↦ ground arith
    | inr (id, found) ↦ ground (
      arith,
      succeeded-keeps Quiet (autokey_rotate_key s id (some (drop 4 d)))
          (rotate-auth id (some (drop 4 d))) s' b,
    )
  ]

  revoke-auth :
      (t len : ℕ) (d : Option (List ℕ)) {s' : IdoState} {b : Bool}
      → autokey_process_key_revoke s t len d ≡ some (s', b)
      → Quiet s'
  unfolding autokey_process_key_revoke autokey_revoke_key
  revoke-auth t len none e = ground arith
  revoke-auth t len (some d) e = ground arith

  loaded-auth : (r : Status × Option ℕ × List ℕ) → Quiet (loaded s r)
  unfolding loaded
  loaded-auth (ok, some id, key) = refl
  loaded-auth (ok, none, key) = refl
  loaded-auth (error, id, key) = refl

-- A call is a Response field where it has the arguments of one.
abbrev pub Responds : {s s' : IdoState} → Step s s' → Type 0
Responds (Step.process t len d b e) = IsResponse t len d
Responds (Step.autokey t len d b e) = IsResponse t len d
Responds (Step.respond t len d b e) = IsResponseField t len
Responds (Step.autokey_respond t len d b e) = IsResponseField t len
Responds _ = ⊥

start-auth :
    (host_u32 : List ℕ → ℕ) (s : IdoState) (file : Option (Option (List ℕ))) (key_id : ℕ)
    → (autokey_init host_u32 s file key_id).ido_authenticated ≡ 0
unfolding autokey_init
start-auth host_u32 s none key_id = refl
start-auth host_u32 s (some file) key_id = loaded-auth (autokey_init_state s) _

cleared-auth :
    (s : IdoState)
    → ((ido_state_init s).ido_authenticated ≡ 0)
      × ((ido_state_cleanup s).ido_authenticated ≡ 0)
      × ((autokey_cleanup s).ido_authenticated ≡ 0)
unfolding ido_state_init ido_state_cleanup autokey_cleanup
cleared-auth s = (refl, refl, refl)

-- Of all the calls, only the handling of a Response field of 4 to 48 bytes takes a state that is not
-- authenticated to one that is. By ido_process and autokey_process the field has data too;
-- ido_process_response and autokey_process_response do not ask for any.
pub authenticates-Responds :
    {s s' : IdoState} (st : Step s s')
    → s.ido_authenticated ≡ 0
    → s'.ido_authenticated ≢ 0
    → Responds st
authenticates-Responds {s} (Step.init e) z nz = absurd (ground (arith, cleared-auth s))
authenticates-Responds {s} (Step.cleanup e) z nz = absurd (ground (arith, cleared-auth s))
authenticates-Responds {s} (Step.process t len d b e) z nz =
    ground (arith, process-auth s t len d e)
authenticates-Responds {s} (Step.skip t len e) z nz = ground (arith, skip-auth s t len)
authenticates-Responds {s} (Step.machine event e) z nz = ground (arith, machine-auth s event)
authenticates-Responds {s} (Step.autokey t len d b e) z nz =
    ground (arith, autokey-auth s t len d e)
authenticates-Responds {s} (Step.autokey_skip t len e) z nz =
    ground (arith, autokey_skip-auth s t len)
authenticates-Responds {s} (Step.autokey_machine event e) z nz =
    ground (arith, autokey_machine-auth s event)
authenticates-Responds {s} (Step.install t len d b e) z nz =
    ground (arith, process_install-auth s t len d e)
authenticates-Responds {s} (Step.rotate t len d b e) z nz =
    ground (arith, process_rotate-auth s t len d e)
authenticates-Responds {s} (Step.revoke t len d b e) z nz = ground (arith, revoke-auth s t len d e)
authenticates-Responds {s} (Step.start host file id e) z nz =
    ground (arith, start-auth host s file id)
authenticates-Responds {s} (Step.stop e) z nz = absurd (ground (arith, cleared-auth s))
authenticates-Responds {s} (Step.offer t len d b e) z nz = ground (arith, offer-auth s t len d e)
authenticates-Responds {s} (Step.respond t len d b e) z nz =
    ground (arith, respond-auth s t len d e)
authenticates-Responds {s} (Step.autokey_offer t len d b e) z nz =
    ground (arith, autokey_offer-auth s t len d e)
authenticates-Responds {s} (Step.autokey_respond t len d b e) z nz =
    ground (arith, autokey_respond-auth s t len d e)
authenticates-Responds {s} {s'} (Step.install_key id key r e) z nz =
    let q = install-auth s id key (s', r) e in absurd (ground arith)
authenticates-Responds {s} {s'} (Step.rotate_key id key r e) z nz =
    let q = rotate-auth s id key (s', r) e in absurd (ground arith)
authenticates-Responds {s} (Step.revoke_key id e) z nz = ground (arith, revoke_key-auth s id)
