-- ===== src/Mode/Auth/Laws.antt =====
-- That the search for a MAC of mode_handler.c ends, stays in the packet and finds the first MAC.
use dragon_ntpd.Base.{
  ℕ, zero, suc, ◌+◌, ◌*◌, ◌/◌, ◌≤◌, ◌<◌, ◌≡◌, refl, ◌≢◌, ◌⊎◌, inl, inr, ◌∙◌, Bool, true, false,
  ◌||◌, List, some, Option, ltb, leb, ◌==◌, if◌then◌else◌, ◌>>=◌, length, get_or,
  get_elem?-eq-get_or, arith, Bool-cases,
}
use dragon_ntpd.Base.Lock.{M, done, free}
use dragon_ntpd.Mode.{ModeState}
use dragon_ntpd.Mode.Auth.{
  Authentication, absent, present, not_supported, field_header, find_mac, judged,
  validate_packet_authentication,
}

abbrev pub type_at : List ℕ → ℕ → ℕ
type_at bytes pos = get_or bytes pos 0 * 256 + get_or bytes (pos + 1) 0

abbrev pub len_at : List ℕ → ℕ → ℕ
len_at bytes pos = get_or bytes (pos + 2) 0 * 256 + get_or bytes (pos + 3) 0

-- A field stands at the position, whole.
abbrev pub Field : List ℕ → ℕ → ℕ → Type 0
Field bytes size pos = (pos + 4 ≤ size) × (4 ≤ len_at bytes pos) × (pos + len_at bytes pos ≤ size)

-- From a position on, fields of other types lead to a MAC field, and no Autokey field is among them.
pub data HasMac (bytes : List ℕ) (size : ℕ) : ℕ → Type 0 where
  here : {pos : ℕ} → Field bytes size pos → type_at bytes pos ≡ 3 → HasMac bytes size pos
  later :
      {pos : ℕ}
      → Field bytes size pos
      → type_at bytes pos ≢ 3
      → type_at bytes pos ≢ 8
      → HasMac bytes size (pos + (len_at bytes pos + 3) / 4 * 4)
      → HasMac bytes size pos

field_header_lem :
    (bytes : List ℕ) (pos : ℕ)
    → pos + 4 ≤ length bytes
    → field_header bytes pos ≡ some (type_at bytes pos, len_at bytes pos)
unfolding field_header
field_header_lem bytes pos h =
    rw
      (
        get_elem?-eq-get_or bytes pos 0 (omega arith),
        get_elem?-eq-get_or bytes (pos + 1) 0 (omega arith),
        get_elem?-eq-get_or bytes (pos + 2) 0 (omega arith),
        get_elem?-eq-get_or bytes (pos + 3) 0 (omega arith),
      )
      refl

HasMac-Field : {bytes : List ℕ} {size pos : ℕ} → HasMac bytes size pos → Field bytes size pos
HasMac-Field (here f t) = f
HasMac-Field (later f t u h) = f

HasMac-rest :
    {bytes : List ℕ} {size pos : ℕ}
    → HasMac bytes size pos
    → (type_at bytes pos ≡ 3)
      ⊎ ((type_at bytes pos ≢ 8) × HasMac bytes size (pos + (len_at bytes pos + 3) / 4 * 4))
HasMac-rest (here f t) = inl t
HasMac-rest (later f t u h) = inr (u, h)

abbrev Searched : List ℕ → ℕ → ℕ → Option Bool → Type 0
Searched bytes size pos result =
    ((result ≡ some true) × HasMac bytes size pos)
    ⊎ ((result ≡ some false) × (¬ HasMac bytes size pos))

carry :
    {bytes : List ℕ} {size pos next : ℕ} {result rest : Option Bool}
    → result ≡ rest
    → (HasMac bytes size next → HasMac bytes size pos)
    → (HasMac bytes size pos → HasMac bytes size next)
    → Searched bytes size next rest
    → Searched bytes size pos result
carry e there back (inl (r, h)) = inl (e ∙ r, there h)
carry e there back (inr (r, no_mac)) = inr (e ∙ r, λ h. no_mac (back h))

next_of :
    {bytes : List ℕ} {size pos : ℕ}
    → type_at bytes pos ≢ 3
    → HasMac bytes size pos
    → (type_at bytes pos ≢ 8) × HasMac bytes size (pos + (len_at bytes pos + 3) / 4 * 4)
next_of other h = elim (HasMac-rest h) [ inl t ↦ absurd (other t) | inr rest ↦ rest ]

-- With more fuel than words to come, the search ends.
search_of :
    (fuel : ℕ) (bytes : List ℕ) (size pos : ℕ)
    → size ≤ length bytes
    → pos ≤ size + 3
    → size + 4 ≤ pos + 4 * fuel
    → Searched bytes size pos (find_mac fuel bytes size pos)
unfolding find_mac
search_of zero bytes size pos fits near enough = absurd (omega arith)
search_of (suc fuel) bytes size pos fits near enough = elim (Bool-cases (leb (pos + 4) size)) [
  | inr e ↦ inr (rw (find_mac, e) refl, λ h. let (a, b, c) = HasMac-Field h in ground arith)
  | inl e ↦
      let header = field_header_lem bytes pos (ground arith) in
      elim (Bool-cases (ltb (len_at bytes pos) 4 || ltb size (pos + len_at bytes pos))) [
        | inl bad ↦ inr (
          rw (find_mac, e, header, ◌>>=◌, bad) refl,
          λ h. let (a, b, c) = HasMac-Field h in ground arith,
        )
        | inr good ↦
            let field : Field bytes size pos = (ground arith, ground arith, ground arith) in
            elim (Bool-cases (type_at bytes pos == 3)) [
              | inl mac ↦
                  inl (rw (find_mac, e, header, ◌>>=◌, good, mac) refl, here field (ground arith))
              | inr no_mac ↦
                  let other : type_at bytes pos ≢ 3 = ground arith in
                  elim (Bool-cases (type_at bytes pos == 8)) [
                    | inl key ↦ inr (
                      rw (find_mac, e, header, ◌>>=◌, good, no_mac, key) refl,
                      λ h. (next_of other h).0 (ground arith),
                    )
                    | inr next ↦
                        carry (rw (find_mac, e, header, ◌>>=◌, good, no_mac, next) refl)
                          (λ h. later field other (ground arith) h) (λ h. (next_of other h).1)
                          (search_of fuel bytes size (pos + (len_at bytes pos + 3) / 4 * 4) fits
                            (ground arith) (ground arith))
                  ]
            ]
      ]
]

-- For a packet of which `size` bytes can be read, and with the mutex free, the search ends, reads
-- nothing outside the packet, and returns with the mutex free and the state as it was. It reports a
-- MAC, or where the configuration disables authentication that it is not supported, exactly if the
-- packet goes on behind the header and its fields lead to a MAC field; else it reports none.
pub validate_packet_authentication_lem :
    (bytes : List ℕ) (size : ℕ) (s : ModeState)
    → size ≤ length bytes
    → (m : M ModeState Authentication) × (validate_packet_authentication (some bytes) size ≡ some m)
      × (((48 < size)
            × HasMac bytes size 48
            × (m (free s)
                ≡ done (if s.config.enable_ntp_auth == 0 then not_supported else present) (free s)))
          ⊎ ((¬ ((48 < size) × HasMac bytes size 48)) × (m (free s) ≡ done absent (free s))))
unfolding validate_packet_authentication judged
validate_packet_authentication_lem bytes size s fits = elim (Bool-cases (ltb 48 size)) [
  | inr short ↦ elim (Bool-cases (ltb size 48)) [
    | inl e ↦ (judged false, rw e refl, inr (λ h. ground (arith, h), refl))
    | inr e ↦ (judged false, rw (e, short) refl, inr (λ h. ground (arith, h), refl))
  ]
  | inl long ↦
      let near : (ltb size 48) ≡ false = ground arith in
      elim (search_of size bytes size 48 fits (ground arith) (ground arith)) [
        | inl (e, h) ↦ (judged true, rw (near, long, e) refl, inl (ground arith, h, refl))
        | inr (e, no_mac) ↦ (judged false, rw (near, long, e) refl, inr (λ h. no_mac h.1, refl))
      ]
]
