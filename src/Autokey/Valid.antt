-- ===== src/Autokey/Valid.antt =====
-- The operations of autokey.c keep the invariant of the shared state, and read only what they are given.
use dragon_ntpd.Base.{
  ℕ, ◌≤◌, ◌<◌, ◌≡◌, List, Option, none, some, arith, length, Bool, subst, Status, ok, error, ◌>>=◌,
  refl, inl, inr, Option-cases, length-take, take, le→leb, drop,
}
use dragon_ntpd.Bytes.{read_u32be}
use dragon_ntpd.Ido.{IdoState}
use dragon_ntpd.Ido.Valid.{IsValid}
use dragon_ntpd.Autokey.{
  autokey_process, autokey_process_skip, autokey_state_machine, autokey_process_offer,
  autokey_process_response,
}
use dragon_ntpd.Autokey.Keys.{
  succeeded, autokey_install_key, autokey_rotate_key, autokey_revoke_key, read_bytes,
  autokey_process_key_install, autokey_process_key_rotate, autokey_process_key_revoke,
}

pub autokey_process-IsValid :
    (s : IdoState) (t len : ℕ) (d : Option (List ℕ)) {s' : IdoState} {b : Bool}
    → IsValid s
    → autokey_process s t len d ≡ some (s', b)
    → IsValid s'
unfolding autokey_process
autokey_process-IsValid s t len none v e = ground arith
autokey_process-IsValid s t len (some d) v e = ground arith

pub autokey_process_skip-IsValid :
    (s : IdoState) (t len : ℕ) → IsValid s → IsValid (autokey_process_skip s t len).0
unfolding autokey_process_skip
autokey_process_skip-IsValid s t len v = ground arith

pub autokey_state_machine-IsValid :
    (s : IdoState) (event : ℕ) → IsValid s → IsValid (autokey_state_machine s event).0
unfolding autokey_state_machine
autokey_state_machine-IsValid s event v = ground arith

pub read_bytes-eq-take : (n : ℕ) (p : List ℕ) → n ≤ length p → read_bytes n p ≡ some (take n p)
unfolding read_bytes
read_bytes-eq-take n p h = rw (le→leb n (length p) h)

pub read_bytes-eq-none : (n : ℕ) (p : List ℕ) → length p < n → read_bytes n p ≡ none
unfolding read_bytes
read_bytes-eq-none n p h = ground arith

read_bytes-length :
    (n : ℕ) (p : List ℕ) (bytes : List ℕ) → read_bytes n p ≡ some bytes → length bytes ≡ n
unfolding read_bytes
read_bytes-length n p bytes e = ground (arith, length-take n p)

-- What a field's handler makes of a key operation has the properties of the operation's state.
pub succeeded-keeps :
    (P : IdoState → Type 0) (m : Option (IdoState × Status))
    → ((r : IdoState × Status) → m ≡ some r → P r.0)
    → (s' : IdoState) (b : Bool) → (m >>= λ r. some (succeeded r)) ≡ some (s', b)
    → P s'
succeeded-keeps P none h s' b e = cc
succeeded-keeps P (some (s, ok)) h s' b e = subst P (cc) (h (s, ok) refl)
succeeded-keeps P (some (s, error)) h s' b e = subst P (cc) (h (s, error) refl)

pub install_key-IsValid :
    (s : IdoState) (id : ℕ) (key : Option (List ℕ)) (r : IdoState × Status)
    → IsValid s
    → autokey_install_key s id key ≡ some r
    → IsValid r.0
unfolding autokey_install_key
install_key-IsValid s id none r v e = ground arith
install_key-IsValid s id (some key) r v e = grind (arith, read_bytes-length)

pub rotate_key-IsValid :
    (s : IdoState) (id : ℕ) (key : Option (List ℕ)) (r : IdoState × Status)
    → IsValid s
    → autokey_rotate_key s id key ≡ some r
    → IsValid r.0
unfolding autokey_rotate_key
rotate_key-IsValid s id none r v e = ground arith
rotate_key-IsValid s id (some key) r v e = grind (arith, read_bytes-length)

pub autokey_process_key_install-IsValid :
    (s : IdoState) (t len : ℕ) (d : Option (List ℕ)) {s' : IdoState} {b : Bool}
    → IsValid s
    → autokey_process_key_install s t len d ≡ some (s', b)
    → IsValid s'
unfolding autokey_process_key_install
autokey_process_key_install-IsValid s t len none v e = ground arith
autokey_process_key_install-IsValid s t len (some d) {s'} {b} v e =
    elim (Option-cases (read_u32be d 0)) [
      | inl unread ↦ ground arith
      | inr (id, found) ↦ ground (
        arith,
        succeeded-keeps IsValid (autokey_install_key s id (some (drop 4 d)))
            (λ r. install_key-IsValid s id (some (drop 4 d)) r v) s' b,
      )
    ]

pub autokey_process_key_rotate-IsValid :
    (s : IdoState) (t len : ℕ) (d : Option (List ℕ)) {s' : IdoState} {b : Bool}
    → IsValid s
    → autokey_process_key_rotate s t len d ≡ some (s', b)
    → IsValid s'
unfolding autokey_process_key_rotate
autokey_process_key_rotate-IsValid s t len none v e = ground arith
autokey_process_key_rotate-IsValid s t len (some d) {s'} {b} v e =
    elim (Option-cases (read_u32be d 0)) [
      | inl unread ↦ ground arith
      | inr (id, found) ↦ ground (
        arith,
        succeeded-keeps IsValid (autokey_rotate_key s id (some (drop 4 d)))
            (λ r. rotate_key-IsValid s id (some (drop 4 d)) r v) s' b,
      )
    ]

pub autokey_process_key_revoke-IsValid :
    (s : IdoState) (t len : ℕ) (d : Option (List ℕ)) {s' : IdoState} {b : Bool}
    → IsValid s
    → autokey_process_key_revoke s t len d ≡ some (s', b)
    → IsValid s'
unfolding autokey_process_key_revoke autokey_revoke_key
autokey_process_key_revoke-IsValid s t len none v e = ground arith
autokey_process_key_revoke-IsValid s t len (some d) v e = ground arith

pub autokey_process_offer-IsValid :
    (s : IdoState) (t len : ℕ) (d : Option (List ℕ)) {s' : IdoState} {b : Bool}
    → IsValid s
    → autokey_process_offer s t len d ≡ some (s', b)
    → IsValid s'
unfolding autokey_process_offer
autokey_process_offer-IsValid s t len none v e = ground arith
autokey_process_offer-IsValid s t len (some d) v e = ground arith

pub autokey_process_response-IsValid :
    (s : IdoState) (t len : ℕ) (d : Option (List ℕ)) {s' : IdoState} {b : Bool}
    → IsValid s
    → autokey_process_response s t len d ≡ some (s', b)
    → IsValid s'
unfolding autokey_process_response
autokey_process_response-IsValid s t len none v e = ground arith
autokey_process_response-IsValid s t len (some d) v e = ground arith

pub autokey_revoke_key-IsValid :
    (s : IdoState) (id : ℕ) → IsValid s → IsValid (autokey_revoke_key s id).0
unfolding autokey_revoke_key
autokey_revoke_key-IsValid s id v = ground arith
