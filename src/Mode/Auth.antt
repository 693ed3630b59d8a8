-- ===== src/Mode/Auth.antt =====
-- `validate_packet_authentication` of mode_handler.c: the search for a MAC field behind the header.
pub mod Laws
use dragon_ntpd.Base.{
  ℕ, zero, suc, ◌+◌, ◌*◌, ◌/◌, ◌≤◌, ◌<◌, ◌≡◌, refl, ◌≢◌, ◌↔◌, ◌∙◌, ap, Bool, true, false, ◌||◌,
  List, Option, none, some, ltb, leb, ◌==◌, if◌then◌else◌, ◌>>=◌, length, get_or,
  get_elem?-eq-get_or, arith, Bool-cases, inl, inr,
}
use dragon_ntpd.Base.Lock
use dragon_ntpd.Base.Lock.{M, Run, done, free}
use dragon_ntpd.Bytes.{read}
use dragon_ntpd.Mode.{ModeState}
use dragon_ntpd.Mode.Acl.{peek}

-- One header of a field: its type and its length.
unfoldable pub field_header : List ℕ → ℕ → Option (ℕ × ℕ)
field_header bytes pos = do
  a ← read bytes pos
  b ← read bytes (pos + 1)
  c ← read bytes (pos + 2)
  d ← read bytes (pos + 3)
  some (a * 256 + b, c * 256 + d)

-- The `while`, on fuel: whether it comes to a MAC field. `none` is a read outside the buffer, or no
-- end.
unfoldable pub find_mac : ℕ → List ℕ → ℕ → ℕ → Option Bool
find_mac zero bytes size pos = none
find_mac (suc fuel) bytes size pos = elim (leb (pos + 4) size) [
  | false ↦ some false
  | true ↦ do
    (field_type, field_len) ← field_header bytes pos
    elim (ltb field_len 4 || ltb size (pos + field_len)) [
      | true ↦ some false
      | false ↦ elim (field_type == 0x0003) [
        | true ↦ some true
        | false ↦ elim (field_type == 0x0008) [
          | true ↦ some false
          | false ↦ find_mac fuel bytes size (pos + (field_len + 3) / 4 * 4)
        ]
      ]
    ]
]

-- The results 0, 1 and -ENOTSUP.
pub data Authentication : Type 0 where
  absent present not_supported : Authentication

-- The end of the search: a MAC is looked at only where the configuration enables authentication.
unfoldable pub judged : Bool → M ModeState Authentication
judged false = Lock.pure absent
judged true =
    Lock.◌>>=◌ peek
      (λ config. Lock.pure (if config.enable_ntp_auth == 0 then not_supported else present))

-- Each round goes four bytes on at least, so `size` rounds are enough.
unfoldable pub validate_packet_authentication :
    Option (List ℕ) → ℕ → Option (M ModeState Authentication)
unfolding judged
validate_packet_authentication none size = some (Lock.pure absent)
validate_packet_authentication (some bytes) size =
    if ltb size 48
    then some (Lock.pure absent)
    else if ltb 48 size
    then (do found ← find_mac size bytes size 48; some (judged found))
    else some (Lock.pure absent)
