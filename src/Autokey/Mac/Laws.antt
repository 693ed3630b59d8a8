-- ===== src/Autokey/Mac/Laws.antt =====
-- What the MAC check and the start of the Autokey subsystem guarantee.
use dragon_ntpd.Base.{
  ◌⊎◌, inl, inr, Bool-cases, ℕ, ◌≤◌, ◌<◌, ◌≡◌, refl, ◌≢◌, ◌↔◌, true, List, Option, none, some, ltb,
  replicate, take, drop, length, zero, suc, [], ◌∷◌, if◌then◌else◌, length-take, length-drop,
  length-append, Status, ok, error, arith, ap,
}
use mathlib.Core.List.{append-nil}
use dragon_ntpd.Ido.{IdoState}
use dragon_ntpd.Ido.Valid.{IsValid}
use dragon_ntpd.Autokey.{autokey_init_state}
use dragon_ntpd.Autokey.Mac.{
  Gcrypt, autokey_compute_hmac, autokey_compute_mac, autokey_verify_mac, autokey_load_key_from_file,
  loaded, autokey_init, overlay, autokey_cleanup,
}

-- libgcrypt answers every call.
pub record Works (g : Gcrypt) : Type 0 where
  pub opens : g.md_open ≡ true
  pub takes_key : (key : List ℕ) → g.md_setkey key ≡ true
  pub reads : (key message : List ℕ) → (digest : List ℕ) × (g.md_read key message ≡ some digest)

-- For a key of 20 bytes and a library that answers, `autokey_verify_mac` accepts a packet exactly if
-- the key id is the active one and authentication is enabled. The packet's bytes, and so any MAC that
-- it carries, play no part, and the answer is that of `autokey_compute_mac`.
pub autokey_verify_mac_lem :
    (g : Gcrypt) (s : IdoState) (pkt : List ℕ) (key_id : ℕ)
    → Works g
    → length s.ido_key ≡ 20
    → ((autokey_verify_mac g s (some pkt) key_id ≡ ok)
        ↔ ((s.ido_key_id ≡ key_id) × (s.ido_enabled ≢ 0)))
      × (autokey_verify_mac g s (some pkt) key_id ≡ autokey_compute_mac g s (some pkt) key_id)
unfolding autokey_verify_mac autokey_compute_mac autokey_compute_hmac
autokey_verify_mac_lem g s pkt key_id w full =
    let key = take 20 s.ido_key in
    ground (arith, w.opens, w.takes_key key, w.reads key pkt, length-take 20 s.ido_key)

length-overlay :
    (bytes buffer : List ℕ)
    → length bytes ≤ length buffer
    → length (overlay bytes buffer) ≡ length buffer
length-overlay bytes buffer h =
    omega
      (arith, length-append bytes (drop (length bytes) buffer), length-drop (length bytes) buffer)

-- The key buffer has its twenty bytes after the load, also where the file ends early.
load-length :
    (host_u32 : List ℕ → ℕ) (file : Option (List ℕ)) (key : List ℕ)
    → length key ≡ 20
    → length (autokey_load_key_from_file host_u32 file key).2 ≡ 20
unfolding autokey_load_key_from_file
load-length host_u32 none key h = h
load-length host_u32 (some file) key h =
    ground (arith, length-take 20 (drop 4 file), length-overlay (take 20 (drop 4 file)) key)

loaded-IsValid :
    (s : IdoState) (r : Status × Option ℕ × List ℕ)
    → length r.2 ≡ 20
    → IsValid s
    → IsValid (loaded s r)
unfolding loaded
loaded-IsValid s (ok, some id, key) h v = ground arith
loaded-IsValid s (ok, none, key) h v = v
loaded-IsValid s (error, id, key) h v = ground arith

enabled-IsValid : (s : IdoState) → IsValid s → IsValid (record s { ido_enabled = 1 })
enabled-IsValid s v = omega arith

-- `autokey_init` establishes the invariant from any state, whatever the key file holds.
pub autokey_init-IsValid :
    (host_u32 : List ℕ → ℕ) (s : IdoState) (file : Option (Option (List ℕ))) (key_id : ℕ)
    → IsValid (autokey_init host_u32 s file key_id)
unfolding autokey_init
autokey_init-IsValid host_u32 s none key_id = ground arith
autokey_init-IsValid host_u32 s (some file) key_id = enabled-IsValid _ (
    loaded-IsValid (autokey_init_state s) _
      (load-length host_u32 file (replicate 20 0) (omega arith)) (omega arith))

pub autokey_cleanup-IsValid : (s : IdoState) → IsValid (autokey_cleanup s)
unfolding autokey_cleanup
autokey_cleanup-IsValid s = omega arith

drop-all : (n : ℕ) (xs : List ℕ) → length xs ≤ n → drop n xs ≡ []
drop-all zero [] h = refl
drop-all zero (x ∷ xs) h = absurd (omega arith)
drop-all (suc n) [] h = refl
drop-all (suc n) (x ∷ xs) h = drop-all n xs (omega arith)

overlay-full : (bytes buffer : List ℕ) → length bytes ≡ length buffer → overlay bytes buffer ≡ bytes
overlay-full bytes buffer h = rw (drop-all (length bytes) buffer (omega arith)) (append-nil bytes)

-- What is loaded from a file of at least 24 bytes, and from a shorter one.
load_full :
    (host_u32 : List ℕ → ℕ) (f key : List ℕ)
    → length key ≡ 20
    → 24 ≤ length f
    → autokey_load_key_from_file host_u32 (some f) key
      ≡ (ok, some (host_u32 (take 4 f)), take 20 (drop 4 f))
unfolding autokey_load_key_from_file
load_full host_u32 f key h full =
    ground
      (arith, length-take 20 (drop 4 f), length-drop 4 f, overlay-full (take 20 (drop 4 f)) key)

load_short :
    (host_u32 : List ℕ → ℕ) (f key : List ℕ)
    → length f < 24
    → (autokey_load_key_from_file host_u32 (some f) key).0 ≡ error
unfolding autokey_load_key_from_file
load_short host_u32 f key short = ground (arith, length-take 20 (drop 4 f), length-drop 4 f)

loaded_default :
    (s : IdoState) (r : Status × Option ℕ × List ℕ)
    → r.0 ≡ error
    → loaded s r ≡ record s { ido_key = replicate 20 0xaa; ido_key_id = 0 }
unfolding loaded
loaded_default s (ok, id, key) e = cc
loaded_default s (error, id, key) e = refl

-- `autokey_init` with a key file that can be opened, from any state: authentication is enabled and not
-- established, and the negotiation is idle. Where the file has at least 24 bytes, the key is its bytes
-- 4 to 23, and the key id is the number in its first four bytes if that is a byte, else 0. Where it is
-- shorter, the key is the default one, 20 times 0xaa, under id 0.
pub autokey_init_lem :
    (host_u32 : List ℕ → ℕ) (s : IdoState) (f : List ℕ) (key_id : ℕ)
    → let s' = autokey_init host_u32 s (some (some f)) key_id in
      let id = host_u32 (take 4 f) in
      let fresh = record (autokey_init_state s) { ido_enabled = 1 } in
      ((24 ≤ length f)
        × (s' ≡ record fresh {
          ido_key = take 20 (drop 4 f);
          ido_key_id = if ltb 255 id then 0 else id;
        }))
      ⊎ ((length f < 24) × (s' ≡ record fresh { ido_key = replicate 20 0xaa; ido_key_id = 0 }))
unfolding autokey_init loaded
autokey_init_lem host_u32 s f key_id = elim (Bool-cases (ltb (length f) 24)) [
  | inr full ↦ inl (
    ground arith,
    ap (λ r. record (loaded (autokey_init_state s) r) { ido_enabled = 1 })
        (load_full host_u32 f (replicate 20 0) refl (ground arith)),
  )
  | inl short ↦ inr (
    ground arith,
    ap {A = IdoState} (λ r. record r { ido_enabled = 1 })
        (loaded_default (autokey_init_state s)
          (autokey_load_key_from_file host_u32 (some f) (replicate 20 0))
          (load_short host_u32 f (replicate 20 0) (ground arith))),
  )
]
