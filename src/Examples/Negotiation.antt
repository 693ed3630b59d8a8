-- ===== src/Examples/Negotiation.antt =====
-- Concrete runs of ido.c, autokey.c and the byte stores.
use dragon_ntpd.Base.{
  ℕ, ◌≡◌, ◌+◌, ◌*◌, ◌⊎◌, refl, List, [], ◌∷◌, some, arith, length, inr, replicate, true,
}
use dragon_ntpd.Bytes.{write_u32be, read_u32be}
use dragon_ntpd.Bytes.Laws.{read_u32be-write_u32be}
use dragon_ntpd.Ido.{IdoState, ido_state_init, ido_process}
use dragon_ntpd.Ido.Machine.{Drawn, Follows, FollowsNone, ido_state_machine-Drawn}
use dragon_ntpd.Ido.Valid.{IsValid}
use dragon_ntpd.Autokey.Mac.{Gcrypt}
use dragon_ntpd.Autokey.Mac.Laws.{Works}
use dragon_ntpd.Negotiation.{Step, here, next}
use dragon_ntpd.Negotiation.Safety.{Reach-IsValid}
use dragon_ntpd.Negotiation.Authentication.{Responds, authenticates-Responds}

abbrev pub idle : IdoState
idle = record {
  ido_state = 0;
  ido_offer_received = 0;
  ido_response_sent = 0;
  ido_capabilities = 0;
  ido_key_id = 0;
  ido_key = replicate 20 0;
  ido_enabled = 0;
  ido_authenticated = 0;
}

-- An Offer field of 8 bytes, and 24 bytes of a Key Install field for key 5.
abbrev field : List ℕ
field = 5 ∷ 0 ∷ 0 ∷ 0 ∷ 1 ∷ 2 ∷ 3 ∷ 4 ∷ []

abbrev key_field : List ℕ
key_field = 0 ∷ 0 ∷ 0 ∷ 5 ∷ replicate 20 7

abbrev keyed : IdoState
keyed = record idle { ido_key_id = 5; ido_enabled = 1 }

-- A library that answers every call; the digest stands for that of SHA-1.
abbrev gcrypt : Gcrypt
gcrypt = record {
  md_open = true;
  md_setkey = λ key. true;
  md_read = λ key message. some (replicate 20 9);
}

gcrypt-Works : Works gcrypt
gcrypt-Works = record {
  opens = refl;
  takes_key = λ key. refl;
  reads = λ key message. (replicate 20 9, refl);
}

-- `uint32_t` of a little-endian host
abbrev little_endian : List ℕ → ℕ
little_endian (a ∷ b ∷ c ∷ d ∷ rest) = a + 256 * b + 65536 * c + 16777216 * d
little_endian bytes = 0

offered_state :
    (ido_process idle 7 8 (some field))
    ≡ some (record idle { ido_capabilities = 5; ido_offer_received = 1; ido_state = 1 }, true)
unfolding ido_process
offered_state = refl

-- A response is sent in the idle state.
ido_state_machine_example :
    ((state' : ℕ) × Drawn 0 2 state' × Follows idle 2 state')
    ⊎ ((¬ ((state' : ℕ) × Drawn 0 2 state')) × FollowsNone idle 2)
ido_state_machine_example = ido_state_machine-Drawn idle 2

abbrev offered : IdoState
offered = record idle { ido_capabilities = 5; ido_offer_received = 1; ido_state = 1 }

abbrev responded : IdoState
responded = record offered { ido_response_sent = 1; ido_state = 3; ido_authenticated = 1 }

offer_step : Step idle offered
offer_step = Step.process 7 8 (some field) true offered_state

response_run : ido_process offered 0x8007 8 (some field) ≡ some (responded, true)
unfolding ido_process
response_run = refl

response_step : Step offered responded
response_step = Step.process 0x8007 8 (some field) true response_run

Reach_example : IsValid responded
unfolding ido_state_init
Reach_example = Reach-IsValid idle (next (next here offer_step) response_step)

Responds_example : Responds response_step
Responds_example = authenticates-Responds response_step refl (omega arith)

word_example :
    (read_u32be (write_u32be field 2 0xdeadbeef) 2 ≡ some 0xdeadbeef)
    × (read_u32be (write_u32be field 2 0xdeadbeef) 6 ≡ read_u32be field 6)
    × (length (write_u32be field 2 0xdeadbeef) ≡ 8)
word_example =
    read_u32be-write_u32be field 2 0xdeadbeef 6 (omega arith) (omega arith) (inr (omega arith))
