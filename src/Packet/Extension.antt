-- ===== src/Packet/Extension.antt =====
-- The extension fields behind the header: `skip_extension_fields` of ntp_packet.c and what it calls.
use dragon_ntpd.Base.{
  ℕ, zero, suc, ◌+◌, ◌-◌, ◌*◌, ◌%◌, Bool, true, false, not, ◌&&◌, ◌||◌, List, Option, none, some,
  ltb, leb, ◌==◌, if◌then◌else◌, ◌>>=◌, drop, Status, ok, error,
}
use dragon_ntpd.Bytes.{read}
use dragon_ntpd.Ido.{
  IdoState, state_idle, state_offer_received, state_response_sent, ef_type_offer, ef_type_response,
  ido_state_init, ido_process, ido_process_skip, ido_state_machine,
}
use dragon_ntpd.Autokey.{autokey_process_skip}
use dragon_ntpd.Autokey.Keys.{
  ef_autokey_key_install, ef_autokey_key_rotate, ef_autokey_key_revoke, autokey_process_key_install,
  autokey_process_key_rotate, autokey_process_key_revoke,
}

abbrev pub ef_crypto_nak : ℕ
ef_crypto_nak = 0x0000

abbrev pub ef_mac : ℕ
ef_mac = 0x0003

abbrev pub ef_checksum_comp : ℕ
ef_checksum_comp = 0x0005

abbrev pub ef_last_ef : ℕ
ef_last_ef = 0x0008

abbrev pub ef_nts_uid_req : ℕ
ef_nts_uid_req = 0x0104

abbrev pub ef_nts_aeef_resp : ℕ
ef_nts_aeef_resp = 0x8404

unfoldable pub validate_extension_field_length : ℕ → ℕ → Status
validate_extension_field_length len remaining =
    if not (len % 4 == 0)
    then error
    else if ltb 65532 len
    then error
    else if ltb remaining (48 + len)
    then error
    else ok

-- The status, the type and the length.
unfoldable pub parse_extension_field_header : List ℕ → ℕ → Option (Status × ℕ × ℕ)
parse_extension_field_header bytes pos = if ltb 48 (pos + 4) then some (error, 0, 0) else (do
  high ← read bytes pos
  low ← read bytes (pos + 1)
  len_high ← read bytes (pos + 2)
  len_low ← read bytes (pos + 3)
  some (ok, high * 256 + low, len_high * 256 + len_low))

-- What one round of the loop does: `continue` behind the field, `break`, or `return` at once.
pub data Round : Type 0 where
  next_field : IdoState → Round
  leave : IdoState → Round
  return_skipped : ℕ → IdoState → Round

-- `(uint8_t)(field_len - 4)`
abbrev pub body_len : ℕ → ℕ
body_len field_len = (field_len + 252) % 256

-- The I-DO branch: the data pointer of `ido_process` is null.
unfoldable pub ido_field : IdoState → ℕ → ℕ → Option IdoState
ido_field s field_type field_len = do
  let s₁ = if s.ido_state == state_idle then ido_state_init s else s
  let s₂ = (ido_process_skip s₁ field_type (body_len field_len)).0
  r ← ido_process s₂ field_type (body_len field_len) none
  let event = if field_type == ef_type_offer then state_offer_received else state_response_sent
  some (ido_state_machine r.0 event).0

-- The Autokey branch: install, rotate or revoke, with the field's body.
unfoldable pub autokey_field : IdoState → List ℕ → ℕ → ℕ → ℕ → Option IdoState
autokey_field s bytes pos field_type field_len = do
  let s₁ = (autokey_process_skip s field_type (body_len field_len)).0
  let body = some (drop (pos + 4) bytes)
  r ←
      (if field_type == ef_autokey_key_install
        then autokey_process_key_install s₁ field_type (body_len field_len) body
        else if field_type == ef_autokey_key_rotate
        then autokey_process_key_rotate s₁ field_type (body_len field_len) body
        else autokey_process_key_revoke s₁ field_type (body_len field_len) body)
  some r.0

abbrev is_autokey_key : ℕ → Bool
is_autokey_key t =
    (t == ef_autokey_key_install) || (t == ef_autokey_key_rotate) || (t == ef_autokey_key_revoke)

-- One field, from the check of its length on. The NTS handlers only log.
unfoldable pub handle_field : IdoState → List ℕ → ℕ → ℕ → ℕ → ℕ → Option Round
handle_field s bytes size pos field_type field_len =
    elim (validate_extension_field_length field_len (size - 48)) [
      | error ↦ some (leave s)
      | ok ↦
          if field_type == ef_last_ef
          then some (leave s)
          else if (field_type == 0) && (field_len == 2)
          then some (return_skipped (pos + field_len - 48) s)
          else if (field_type == ef_type_offer) || (field_type == ef_type_response)
          then (do s' ← ido_field s field_type field_len; some (next_field s'))
          else if leb ef_nts_uid_req field_type && leb field_type ef_nts_aeef_resp
          then some (next_field s)
          else if is_autokey_key field_type
          then (do s' ← autokey_field s bytes pos field_type field_len; some (next_field s'))
          else if field_type == ef_checksum_comp
          then some (next_field s)
          else if field_type == ef_mac
          then some (next_field s)
          else if field_type == ef_crypto_nak
          then some (return_skipped (pos + field_len - 48) s)
          else if leb 4 field_len && leb (pos + field_len) size
          then some (next_field s)
          else some (leave s)
    ]

-- The `while`, on fuel: the bytes skipped and the negotiation state.
unfoldable pub skip_loop : ℕ → List ℕ → ℕ → ℕ → ℕ → IdoState → Option (ℕ × IdoState)
skip_loop zero bytes size pos skipped s = none
skip_loop (suc fuel) bytes size pos skipped s = elim (leb (pos + 4) size) [
  | false ↦ some (skipped, s)
  | true ↦ do
    (status, field_type, field_len) ← parse_extension_field_header bytes pos
    elim status [
      | error ↦ some (skipped, s)
      | ok ↦ do
        round ← handle_field s bytes size pos field_type field_len
        elim round [
          | next_field s' ↦ skip_loop fuel bytes size (pos + field_len) (skipped + field_len) s'
          | leave s' ↦ some (skipped, s')
          | return_skipped n s' ↦ some (n, s')
        ]
    ]
]

-- A field of length 0 would not move the loop on, so the loop needs its fuel.
unfoldable pub skip_extension_fields : List ℕ → ℕ → IdoState → Option (ℕ × IdoState)
skip_extension_fields bytes size s =
    if leb size 48 then some (0, s) else skip_loop size bytes size 48 0 s
