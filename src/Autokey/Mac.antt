-- ===== src/Autokey/Mac.antt =====
-- The HMAC and the start and end of the Autokey subsystem (autokey.c).
-- libgcrypt and the key file are not under the repository: `Gcrypt` says what each call answers, and a
-- key file is absent (`none`) or the list of its bytes. A buffer that is passed with its length is the
-- list of that many bytes; null is `none`.
pub mod Laws
use dragon_ntpd.Base.{
  ℕ, ◌+◌, ◌≤◌, ◌<◌, ◌≡◌, refl, ◌≢◌, ◌↔◌, Bool, true, false, not, ◌&&◌, ◌||◌, List, ◌++◌, Option,
  none, some, ltb, leb, ◌==◌, if◌then◌else◌, ◌>>=◌, replicate, take, drop, length, Status, ok,
  error, arith,
}
use dragon_ntpd.Ido.{IdoState}
use dragon_ntpd.Autokey.{autokey_init_state, autokey_cleanup_state}
use dragon_ntpd.Autokey.Keys.{digest_size}

-- The answers of `gcry_md_open`, `gcry_md_setkey` and, for a key and the data written, `gcry_md_read`.
pub record Gcrypt : Type 0 where
  pub md_open : Bool
  pub md_setkey : List ℕ → Bool
  pub md_read : List ℕ → List ℕ → Option (List ℕ)

-- The digest, or `none` for the result -1.
unfoldable pub autokey_compute_hmac : Gcrypt → Option (List ℕ) → Option (List ℕ) → Option (List ℕ)
autokey_compute_hmac g none key = none
autokey_compute_hmac g (some message) none = none
autokey_compute_hmac g (some message) (some key) =
    if (length key == 0) || ltb 64 (length key)
    then none
    else if not g.md_open
    then none
    else if not (g.md_setkey key)
    then none
    else (do result ← g.md_read key message; some (take digest_size result))

unfoldable pub autokey_compute_mac : Gcrypt → IdoState → Option (List ℕ) → ℕ → Status
unfolding autokey_compute_hmac
autokey_compute_mac g s none key_id = error
autokey_compute_mac g s (some pkt) key_id =
    if not (s.ido_key_id == key_id)
    then error
    else if s.ido_enabled == 0
    then error
    else elim (autokey_compute_hmac g (some pkt) (some (take digest_size s.ido_key))) [
      | none ↦ error
      | some digest ↦ ok
    ]

unfoldable pub autokey_verify_mac : Gcrypt → IdoState → Option (List ℕ) → ℕ → Status
unfolding autokey_compute_hmac
autokey_verify_mac g s none key_id = error
autokey_verify_mac g s (some pkt) key_id =
    if not (s.ido_key_id == key_id)
    then error
    else if s.ido_enabled == 0
    then error
    else elim (autokey_compute_hmac g (some pkt) (some (take digest_size s.ido_key))) [
      | none ↦ error
      | some expected ↦ ok
    ]

-- `fread` of the bytes that are there into a buffer.
abbrev overlay : List ℕ → List ℕ → List ℕ
overlay bytes buffer = bytes ++ drop (length bytes) buffer

-- The status, the key id that the file gave and the key buffer. `host_u32` reads a `uint32_t` in the
-- byte order of the host.
unfoldable pub autokey_load_key_from_file :
    (List ℕ → ℕ) → Option (List ℕ) → List ℕ → Status × Option ℕ × List ℕ
autokey_load_key_from_file host_u32 none key = (error, none, key)
autokey_load_key_from_file host_u32 (some file) key =
    if ltb (length file) 4
    then (error, none, key)
    else let body = take digest_size (drop 4 file) in
      if not (length body == digest_size)
      then (error, none, overlay body key)
      else (ok, some (host_u32 (take 4 file)), overlay body key)

-- What `autokey_init` makes of the outcome of the load: the loaded key with its id cut to one byte, or
-- the default key.
unfoldable pub loaded : IdoState → Status × Option ℕ × List ℕ → IdoState
loaded s (ok, some file_key_id, key) = record s {
  ido_key = key;
  ido_key_id = if ltb 255 file_key_id then 0 else file_key_id;
}
loaded s (ok, none, key) = s
loaded s (error, id, key) = record s { ido_key = replicate digest_size 0xaa; ido_key_id = 0 }

-- `key_file` is null (`none`), or names a file that is absent or has some bytes. The state after the
-- call; the C result is always 0.
unfoldable pub autokey_init : (List ℕ → ℕ) → IdoState → Option (Option (List ℕ)) → ℕ → IdoState
unfolding autokey_init_state
autokey_init host_u32 s none key_id = record (autokey_init_state s) {
  ido_key = replicate digest_size 0xaa;
  ido_key_id = if ltb 0 key_id && leb key_id 255 then key_id else 0;
  ido_enabled = 1;
}
autokey_init host_u32 s (some file) key_id =
    let s₀ = autokey_init_state s in
    record (loaded s₀ (autokey_load_key_from_file host_u32 file s₀.ido_key)) { ido_enabled = 1 }

unfoldable pub autokey_cleanup : IdoState → IdoState
unfolding autokey_cleanup_state
autokey_cleanup s = autokey_cleanup_state (record s { ido_key = replicate digest_size 0 })
