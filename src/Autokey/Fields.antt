-- ===== src/Autokey/Fields.antt =====
-- The Autokey operations beside those of ido.c that they repeat, and what the key fields store.
use dragon_ntpd.Base.{
  inl, inr, ℕ, ◌≤◌, ◌≡◌, refl, ◌≢◌, ◌⊎◌, List, Option, none, some, arith, length, take, drop,
  length-drop, true, false, not, ◌&&◌, ltb, leb, ok, error, ◌==◌, if◌then◌else◌,
}
use native.Mathlib.Decide.{ℕ_discrete}
use dragon_ntpd.Bytes.Laws.{word_at, read_u32be-eq-word_at}
use dragon_ntpd.Ido.{
  IdoState, ido_process, ido_process_skip, ido_state_machine, ef_autokey_offer, ef_autokey_response,
}
use dragon_ntpd.Autokey.{autokey_process, autokey_process_skip, autokey_state_machine}
use dragon_ntpd.Autokey.Keys.{
  autokey_install_key, autokey_rotate_key, autokey_revoke_key, read_bytes,
  autokey_process_key_install, autokey_process_key_rotate, autokey_process_key_revoke,
  ef_autokey_key_install, ef_autokey_key_rotate, ef_autokey_key_revoke,
}

same_process :
    (s : IdoState) (t len : ℕ) (d : Option (List ℕ))
    → (t ≡ ef_autokey_offer) ⊎ (t ≡ ef_autokey_response)
    → autokey_process s t len d ≡ ido_process s t len d
unfolding autokey_process ido_process
same_process s t len none e = refl
same_process s t len (some d) e = ground arith

same_skip :
    (s : IdoState) (t len : ℕ)
    → (t ≡ ef_autokey_offer) ⊎ (t ≡ ef_autokey_response)
    → autokey_process_skip s t len ≡ ido_process_skip s t len
unfolding autokey_process_skip ido_process_skip
same_skip s t len e = ground arith

other_types :
    (s : IdoState) (t len : ℕ) (d : Option (List ℕ))
    → t ≢ ef_autokey_offer
    → t ≢ ef_autokey_response
    → autokey_process s t len d ≡ some (s, false)
unfolding autokey_process
other_types s t len none p q = refl
other_types s t len (some d) p q = ground arith

same_machine :
    (s : IdoState) (event : ℕ) → autokey_state_machine s event ≡ ido_state_machine s event
unfolding autokey_state_machine ido_state_machine
same_machine s event = ground arith

-- On the Autokey types, Offer and Response, `autokey_process` does what `ido_process` does, faults
-- included, and so do the two skip functions; on any other type `autokey_process` returns false and
-- changes nothing. The two state machines agree at every state and event.
pub autokey_process-eq-ido_process :
    (s : IdoState) (t len : ℕ) (d : Option (List ℕ)) (event : ℕ)
    → ((((t ≡ ef_autokey_offer) ⊎ (t ≡ ef_autokey_response))
          × (autokey_process s t len d ≡ ido_process s t len d)
          × (autokey_process_skip s t len ≡ ido_process_skip s t len))
        ⊎ ((t ≢ ef_autokey_offer)
            × (t ≢ ef_autokey_response)
            × (autokey_process s t len d ≡ some (s, false))))
      × (autokey_state_machine s event ≡ ido_state_machine s event)
autokey_process-eq-ido_process s t len d event = (
  elim (ℕ_discrete t ef_autokey_offer) [
    | yes e ↦ inl (inl e, same_process s t len d (inl e), same_skip s t len (inl e))
    | no p ↦ elim (ℕ_discrete t ef_autokey_response) [
      | yes e ↦ inl (inr e, same_process s t len d (inr e), same_skip s t len (inr e))
      | no q ↦ inr (p, q, other_types s t len d p q)
    ]
  ],
  same_machine s event,
)

install_key_there :
    (s : IdoState) (id : ℕ) (key : List ℕ)
    → 20 ≤ length key
    → autokey_install_key s id (some key) ≡ (
        if ltb 255 id
        then some (s, error)
        else some (record s { ido_key_id = id; ido_key = take 20 key; ido_enabled = 1 }, ok))
unfolding autokey_install_key read_bytes
install_key_there s id key h = ground arith

rotate_key_there :
    (s : IdoState) (id : ℕ) (key : List ℕ)
    → 20 ≤ length key
    → autokey_rotate_key s id (some key) ≡ (
        if ltb 255 id
        then some (s, error)
        else some (record s { ido_key_id = id; ido_key = take 20 key }, ok))
unfolding autokey_rotate_key read_bytes
rotate_key_there s id key h = ground arith

-- A Key Install or Key Rotate field of 24 to 48 bytes, all of them there: the first four bytes are
-- the key id in network order and the next twenty the key. An id above 255 is refused with the state
-- as it was. Otherwise both store the id and the key; only an install enables authentication, and
-- neither touches the negotiation.
pub autokey_process_key_lem :
    (s : IdoState) (len : ℕ) (d : List ℕ)
    → 24 ≤ len
    → len ≤ 48
    → len ≤ length d
    → let id = word_at d 0 in
      let key = take 20 (drop 4 d) in
      (autokey_process_key_install s ef_autokey_key_install len (some d) ≡ (
        if ltb 255 id
        then some (s, false)
        else some (record s { ido_key_id = id; ido_key = key; ido_enabled = 1 }, true)))
      × (autokey_process_key_rotate s ef_autokey_key_rotate len (some d) ≡ (
          if ltb 255 id
          then some (s, false)
          else some (record s { ido_key_id = id; ido_key = key }, true)))
unfolding autokey_process_key_install autokey_process_key_rotate
autokey_process_key_lem s len d lo hi there = (
  ground (
    arith,
    read_u32be-eq-word_at d 0,
    length-drop 4 d,
    install_key_there s (word_at d 0) (drop 4 d),
  ),
  ground (
    arith,
    read_u32be-eq-word_at d 0,
    length-drop 4 d,
    rotate_key_there s (word_at d 0) (drop 4 d),
  ),
)

-- A field with as many bytes as its length says, given to the revoke handler: the state stays as it
-- was in every case, and the answer is true exactly if the type is Key Revoke, the length is 4 to 48
-- and the id in the field is not the active key's.
pub autokey_process_key_revoke_lem :
    (s : IdoState) (t len : ℕ) (d : List ℕ)
    → len ≤ length d
    → autokey_process_key_revoke s t len (some d)
      ≡ some (
        s,
        (t == ef_autokey_key_revoke)
            && (leb 4 len && (leb len 48 && not (s.ido_key_id == word_at d 0))),
      )
unfolding autokey_process_key_revoke autokey_revoke_key
autokey_process_key_revoke_lem s t len d there = ground (arith, read_u32be-eq-word_at d 0)
