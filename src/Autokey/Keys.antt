-- ===== src/Autokey/Keys.antt =====
-- The keys of autokey.c: install, rotate and revoke, and the extension fields that carry them.
-- `ef_data` and `key` may be null (`none`); a result `none` is a read outside the bytes they point to.
use dragon_ntpd.Base.{
  ℕ, Bool, true, false, not, ◌||◌, List, Option, none, some, ltb, leb, ◌==◌, if◌then◌else◌, ◌>>=◌,
  take, drop, length, Status, ok, error,
}
use dragon_ntpd.Bytes.{read_u32be}
use dragon_ntpd.Ido.{IdoState}

abbrev pub ef_autokey_key_install : ℕ
ef_autokey_key_install = 0x000b

abbrev pub ef_autokey_key_rotate : ℕ
ef_autokey_key_rotate = 0x000c

abbrev pub ef_autokey_key_revoke : ℕ
ef_autokey_key_revoke = 0x000d

-- `HMAC_SHA1_DIGEST_SIZE`
abbrev pub digest_size : ℕ
digest_size = 20

-- `memcpy` of `n` bytes from a pointer: a fault where the object has fewer.
unfoldable pub read_bytes : ℕ → List ℕ → Option (List ℕ)
read_bytes n p = if leb n (length p) then some (take n p) else none

-- `key` may be null (`none`).
unfoldable pub autokey_install_key : IdoState → ℕ → Option (List ℕ) → Option (IdoState × Status)
autokey_install_key s key_id none = some (s, error)
autokey_install_key s key_id (some key) = if ltb 255 key_id then some (s, error) else (do
  bytes ← read_bytes digest_size key
  some (record s { ido_key_id = key_id; ido_key = bytes; ido_enabled = 1 }, ok))

unfoldable pub autokey_rotate_key : IdoState → ℕ → Option (List ℕ) → Option (IdoState × Status)
autokey_rotate_key s new_key_id none = some (s, error)
autokey_rotate_key s new_key_id (some new_key) = if ltb 255 new_key_id then some (s, error) else (do
  bytes ← read_bytes digest_size new_key
  some (record s { ido_key_id = new_key_id; ido_key = bytes }, ok))

unfoldable pub autokey_revoke_key : IdoState → ℕ → IdoState × Status
autokey_revoke_key s key_id = if s.ido_key_id == key_id then (s, error) else (s, ok)

-- The last lines of a field's handler: `false` when the key operation failed.
abbrev pub succeeded : IdoState × Status → IdoState × Bool
succeeded (s, ok) = (s, true)
succeeded (s, error) = (s, false)

unfoldable pub autokey_process_key_install :
    IdoState → ℕ → ℕ → Option (List ℕ) → Option (IdoState × Bool)
autokey_process_key_install s ef_type ef_length none =
    if not (ef_type == ef_autokey_key_install)
    then some (s, false)
    else if ltb ef_length 24 || ltb 48 ef_length
    then some (s, false)
    else some (s, true)
autokey_process_key_install s ef_type ef_length (some ef_data) =
    if not (ef_type == ef_autokey_key_install)
    then some (s, false)
    else if ltb ef_length 24 || ltb 48 ef_length
    then some (s, false)
    else if leb 4 ef_length
    then (do
      key_id ← read_u32be ef_data 0
      if leb 24 ef_length
          then (do r ← autokey_install_key s key_id (some (drop 4 ef_data)); some (succeeded r))
          else some (s, true))
    else some (s, true)

unfoldable pub autokey_process_key_rotate :
    IdoState → ℕ → ℕ → Option (List ℕ) → Option (IdoState × Bool)
autokey_process_key_rotate s ef_type ef_length none =
    if not (ef_type == ef_autokey_key_rotate)
    then some (s, false)
    else if ltb ef_length 24 || ltb 48 ef_length
    then some (s, false)
    else some (s, true)
autokey_process_key_rotate s ef_type ef_length (some ef_data) =
    if not (ef_type == ef_autokey_key_rotate)
    then some (s, false)
    else if ltb ef_length 24 || ltb 48 ef_length
    then some (s, false)
    else if leb 4 ef_length
    then (do
      new_key_id ← read_u32be ef_data 0
      if leb 24 ef_length
          then (do r ← autokey_rotate_key s new_key_id (some (drop 4 ef_data)); some (succeeded r))
          else some (s, true))
    else some (s, true)

unfoldable pub autokey_process_key_revoke :
    IdoState → ℕ → ℕ → Option (List ℕ) → Option (IdoState × Bool)
autokey_process_key_revoke s ef_type ef_length none =
    if not (ef_type == ef_autokey_key_revoke)
    then some (s, false)
    else if ltb ef_length 4 || ltb 48 ef_length
    then some (s, false)
    else some (s, true)
autokey_process_key_revoke s ef_type ef_length (some ef_data) =
    if not (ef_type == ef_autokey_key_revoke)
    then some (s, false)
    else if ltb ef_length 4 || ltb 48 ef_length
    then some (s, false)
    else if leb 4 ef_length
    then (do key_id ← read_u32be ef_data 0; some (succeeded (autokey_revoke_key s key_id)))
    else some (s, true)
