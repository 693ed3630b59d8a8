-- ===== src/Mode/Acl/Laws.antt =====
-- The access list: who is served, and what adding and removing entries changes.
use dragon_ntpd.Base.{
  ℕ, ◌/◌, ◌%◌, ◌≡◌, ◌≢◌, Bool, true, false, not, ◌&&◌, List, none, some, leb, ◌==◌, if◌then◌else◌,
  arith, Bool-cases, inl, inr, ◌∙◌, ap,
}
use native.Mathlib.Decide.{ℕ_discrete}
use dragon_ntpd.Base.Lock.{◌>>=◌, done, free}
use dragon_ntpd.Mode.{ModeState, ModeConfig}
use dragon_ntpd.Mode.Network.{Libc, parse_ip}
use dragon_ntpd.Mode.Acl.{
  find_entry, flags_for, mode_permitted, is_symmetric, acl_check_client, mode_allowed,
}

-- Symmetric and broadcast packets pass only where the configuration enables them.
abbrev pub mode_enabled : ModeConfig → ℕ → Bool
mode_enabled config packet_mode =
    if is_symmetric packet_mode
    then not (config.enable_symmetric_mode == 0)
    else if packet_mode == 5
    then not (config.enable_broadcast == 0)
    else true

-- The bit of the flags that refuses a mode: NOQUERY for control and private packets, NOSERVE else.
abbrev pub refusal_bit : ℕ → ℕ → ℕ
refusal_bit flags packet_mode = if leb 6 packet_mode then flags % 2 else flags / 2 % 2

mode_permitted-eq :
    (flags mode : ℕ)
    → mode_permitted flags mode ≡ (leb 1 mode && (leb mode 7 && (refusal_bit flags mode == 0)))
unfolding mode_permitted
mode_permitted-eq flags mode = ground arith

mode_allowed-eq :
    (mode : ℕ) (s : ModeState)
    → mode_allowed mode (free s) ≡ done (mode_enabled s.config mode) (free s)
unfolding mode_allowed
mode_allowed-eq mode s = elim (Bool-cases (is_symmetric mode)) [
  | inl symmetric ↦
      let other : (mode == 5) ≡ false = ground arith in
      elim (Bool-cases (s.config.enable_symmetric_mode == 0)) [
        | inl disabled ↦ rw (symmetric, disabled)
        | inr enabled ↦ rw (symmetric, enabled, other)
      ]
  | inr other ↦ elim (Bool-cases (mode == 5)) [
    | inl broadcast ↦ rw (other, broadcast)
    | inr neither ↦ rw (other, neither)
  ]
]

pub acl_check_client_lem :
    (c : Libc) (text : List ℕ) (mode : ℕ) (s : ModeState)
    → parse_ip c (some text) ≢ 0
    → acl_check_client c (some text) mode (free s)
      ≡ done
          (mode_enabled s.config mode
            && (leb 1 mode
                && (leb mode 7
                    && (refusal_bit (flags_for s.config s.acl_entries (parse_ip c (some text))) mode
                        == 0))))
          (free s)
unfolding acl_check_client
acl_check_client_lem c text mode s known =
    let nonzero : (parse_ip c (some text) == 0) ≡ false = ground arith in
    elim (Bool-cases (mode_enabled s.config mode)) [
      | inl allowed ↦ rw (
        nonzero,
        ◌>>=◌,
        mode_allowed-eq mode s,
        allowed,
        mode_permitted-eq (flags_for s.config s.acl_entries (parse_ip c (some text))) mode,
      )
      | inr refused ↦ rw (nonzero, ◌>>=◌, mode_allowed-eq mode s, refused)
    ]

refused :
    (mode : ℕ) (config : ModeConfig)
    → config.acl_default_policy % 4 ≡ 3
    → (mode_enabled config mode
        && (leb 1 mode && (leb mode 7 && (refusal_bit config.acl_default_policy mode == 0))))
      ≡ false
refused mode config deny = elim (Bool-cases (leb 6 mode)) [
  | inl e ↦ rw e (ground arith)
  | inr e ↦ rw e (ground arith)
]

unreadable :
    (c : Libc) (text : List ℕ) (mode : ℕ) (s : ModeState)
    → parse_ip c (some text) ≡ 0
    → acl_check_client c (some text) mode (free s) ≡ done false (free s)
unfolding acl_check_client
unreadable c text mode s zero_ip = rw zero_ip

-- While no entry holds the client's address and the default policy has both refusal bits, as the
-- initial one has, no packet is served: a call with the mutex free answers false for every mode and
-- every text, one that is no address included, and changes nothing.
pub acl_check_client-default_deny :
    (c : Libc) (text : List ℕ) (mode : ℕ) (s : ModeState)
    → find_entry (parse_ip c (some text)) s.acl_entries ≡ none
    → s.config.acl_default_policy % 4 ≡ 3
    → acl_check_client c (some text) mode (free s) ≡ done false (free s)
unfolding flags_for
acl_check_client-default_deny c text mode s unlisted deny =
    elim (ℕ_discrete (parse_ip c (some text)) 0) [
      | yes e ↦ unreadable c text mode s e
      | no ne ↦
          acl_check_client_lem c text mode s ne
          ∙ ap (λ b. done b (free s)) (rw (flags_for, unlisted) (refused mode s.config deny))
    ]
