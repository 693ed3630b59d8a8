-- ===== src/Server/Laws.antt =====
-- Which requests are answered, and what the answer is.
use dragon_ntpd.Base.{
  ℕ, ◌≤◌, ◌<◌, ◌≡◌, refl, ◌⊎◌, inl, inr, Bool, true, false, not, ◌&&◌, ◌||◌, List, Option, none,
  some, ltb, leb, ◌==◌, if◌then◌else◌, length, get_or, arith, Bool-cases, Option-cases, ◌≢◌,
}
use dragon_ntpd.Base.Lock.{done, free}
use dragon_ntpd.Ido.{IdoState}
use dragon_ntpd.Mode.{
  ModeState, mode_handler_get_config, validate_packet_mode, validate_ntp_version, success, e2big,
}
use dragon_ntpd.Mode.Network.{parse_ip}
use dragon_ntpd.Mode.Acl.{flags_for}
use dragon_ntpd.Mode.Acl.Laws.{mode_enabled, refusal_bit, acl_check_client_lem}
use dragon_ntpd.Mode.RateLimit.{rate_limit_check, rate_limit_find, verdict, entry_at}
use dragon_ntpd.Mode.Auth.Laws.{HasMac, validate_packet_authentication_lem}
use dragon_ntpd.Leap.{LeapSecondState}
use dragon_ntpd.Packet.{NtpPacket, vn_of, mode_of}
use dragon_ntpd.Packet.Laws.{well_formed, decoded}
use dragon_ntpd.Daemon.{Daemon, Outcome, ClockState, Sockets, returns, ◌>>=◌}
use dragon_ntpd.Server.{
  Env, PeerRequestData, Reply, dropped, control_allowed, check_policy, is_pass, is_success,
  handle_parsed, handle_authenticated, response_mode_for, answer,
}

-- A state in which no mutex is held.
abbrev pub at_rest : IdoState → ModeState → LeapSecondState → ClockState → Sockets → Daemon
at_rest s m l k b = record { ido = s; mode = free m; leap = free l; clock = free k; sockets = b }

response_mode_range :
    (broadcast : Bool) (mode response_mode : ℕ)
    → response_mode_for broadcast mode ≡ some response_mode
    → ((response_mode == 0) ≡ false) × (leb response_mode 7 ≡ true)
unfolding response_mode_for
response_mode_range broadcast mode response_mode h = (ground arith, ground arith)

pub decoded_byte :
    (d : List ℕ) (size : ℕ) (pkt : NtpPacket) → (decoded d size pkt).li_vn_mode ≡ get_or d 0 0
decoded_byte d size pkt = elim (Bool-cases (ltb 68 size)) [ inl e ↦ rw e refl | inr e ↦ rw e refl ]

pub version_4 :
    (d : List ℕ) (size : ℕ) (pkt : NtpPacket)
    → well_formed d ≡ true
    → is_success (validate_ntp_version (vn_of (decoded d size pkt).li_vn_mode)) ≡ true
unfolding validate_ntp_version
version_4 d size pkt h = rw (decoded_byte d size pkt) (ground arith)

module _ (m : ModeState) where
  abbrev pub acl_decision : Env → PeerRequestData → ℕ → Bool
  acl_decision env request mode =
      mode_enabled m.config mode
      && (leb 1 mode
          && (leb mode 7
              && (refusal_bit
                    (flags_for m.config m.acl_entries (parse_ip env.libc (some request.ip))) mode
                  == 0)))

  -- What the configuration says of a client and a mode.
  abbrev pub policy : Env → PeerRequestData → ℕ → Bool
  policy env request mode =
      (not (leb 6 mode && leb mode 7) || not (m.config.enable_control_messages == 0))
      && (acl_decision env request mode
          && is_pass (
              verdict env.check_time m.config.rate_limit_interval (
                entry_at (rate_limit_find env.libc (some request.ip) m.rate_limit_entries)
                  m.rate_limit_entries)))

  -- The mode of the response to a request of a mode and a size, none where it gets no response.
  abbrev pub admission : Env → PeerRequestData → ℕ → Option ℕ
  admission env request mode =
      if policy env request mode && leb 48 (m.config.max_response_ratio request.size)
      then response_mode_for env.broadcast_mode mode
      else none

  small :
      (size response_mode : ℕ)
      → leb response_mode 7 ≡ true
      → validate_packet_mode response_mode size 48 (free m)
        ≡ done (if leb 48 (m.config.max_response_ratio size) then success else e2big) (free m)
  unfolding validate_packet_mode
  small size response_mode h = elim (Bool-cases (leb 48 (m.config.max_response_ratio size))) [
    | inl e ↦ ground arith
    | inr e ↦ ground arith
  ]

  -- The packet carries a MAC and the configuration disables authentication.
  abbrev pub Unsupported : List ℕ → ℕ → Type 0
  Unsupported d size = (48 < size) × HasMac d size 48 × (m.config.enable_ntp_auth ≡ 0)

module _ (s : IdoState) (m : ModeState) (l : LeapSecondState) (k : ClockState) (b : Sockets) where
  pub control_allowed_lem :
      (mode : ℕ)
      → control_allowed mode (at_rest s m l k b)
        ≡ returns
            (not (leb 6 mode && leb mode 7) || not (m.config.enable_control_messages == 0))
            (at_rest s m l k b)
  unfolding control_allowed mode_handler_get_config
  control_allowed_lem mode = elim (Bool-cases ((mode == 6) || (mode == 7))) [
    | inl e ↦ let f : (leb 6 mode && leb mode 7) ≡ true = ground arith in rw (e, f)
    | inr e ↦ let f : (leb 6 mode && leb mode 7) ≡ false = ground arith in rw (e, f)
  ]

  pub check_policy_lem :
      (env : Env) (request : PeerRequestData) (mode : ℕ)
      → parse_ip env.libc (some request.ip) ≢ 0
      → check_policy env request mode (at_rest s m l k b)
        ≡ returns (policy m env request mode) (at_rest s m l k b)
  unfolding check_policy rate_limit_check
  check_policy_lem env request mode known =
      elim (Bool-cases
        (not (leb 6 mode && leb mode 7) || not (m.config.enable_control_messages == 0))) [
          | inr refused ↦ rw (◌>>=◌, control_allowed_lem mode, refused)
          | inl allowed ↦ elim (Bool-cases (acl_decision m env request mode)) [
            | inr refused ↦ rw (
              ◌>>=◌,
              control_allowed_lem mode,
              allowed,
              acl_check_client_lem env.libc request.ip mode m known,
              refused,
            )
            | inl admitted ↦ rw (
              ◌>>=◌,
              control_allowed_lem mode,
              allowed,
              acl_check_client_lem env.libc request.ip mode m known,
              admitted,
            )
          ]
        ]

  abbrev pub respond : Env → PeerRequestData → NtpPacket → Option ℕ → Outcome Reply
  respond env request pkt none = returns dropped (at_rest s m l k b)
  respond env request pkt (some response_mode) =
      answer env request pkt response_mode (at_rest s m l k b)

  pub handle_authenticated_lem :
      (env : Env) (request : PeerRequestData) (pkt : NtpPacket)
      → parse_ip env.libc (some request.ip) ≢ 0
      → handle_authenticated env request pkt (at_rest s m l k b)
        ≡ respond env request pkt (admission m env request (mode_of pkt.li_vn_mode))
  unfolding handle_authenticated
  handle_authenticated_lem env request pkt known =
      let mode = mode_of pkt.li_vn_mode in
      let checked = check_policy_lem env request mode known in
      elim (Bool-cases (policy m env request mode)) [
        | inr refused ↦ rw (◌>>=◌, checked, refused)
        | inl admitted ↦ elim (Option-cases (response_mode_for env.broadcast_mode mode)) [
          | inl unanswered ↦ elim (Bool-cases (leb 48 (m.config.max_response_ratio request.size))) [
            | inl fits ↦ rw (◌>>=◌, checked, admitted, unanswered, fits)
            | inr large ↦ rw (◌>>=◌, checked, admitted, unanswered, large)
          ]
          | inr (response_mode, e) ↦
              let (nonzero, low) = response_mode_range env.broadcast_mode mode response_mode e in
              elim (Bool-cases (leb 48 (m.config.max_response_ratio request.size))) [
                | inl fits ↦ rw (
                  ◌>>=◌,
                  checked,
                  admitted,
                  e,
                  nonzero,
                  small m request.size response_mode low,
                  fits,
                )
                | inr large ↦ rw (
                  ◌>>=◌,
                  checked,
                  admitted,
                  e,
                  nonzero,
                  small m request.size response_mode low,
                  large,
                )
              ]
        ]
      ]

  pub handle_parsed_lem :
      (env : Env) (request : PeerRequestData) (d : List ℕ) (pkt : NtpPacket)
      → parse_ip env.libc (some request.ip) ≢ 0
      → request.size ≤ length d
      → is_success (validate_ntp_version (vn_of pkt.li_vn_mode)) ≡ true
      → (Unsupported m d request.size
          × (handle_parsed env request d pkt (at_rest s m l k b)
              ≡ returns dropped (at_rest s m l k b)))
        ⊎ ((¬ Unsupported m d request.size)
            × (handle_parsed env request d pkt (at_rest s m l k b)
                ≡ respond env request pkt (admission m env request (mode_of pkt.li_vn_mode))))
  unfolding handle_parsed
  handle_parsed_lem env request d pkt known fits v4 =
      let rest = handle_authenticated_lem env request pkt known in
      let (v, e, found) = validate_packet_authentication_lem d request.size m fits in
      elim found [
        | inr (no_mac, run) ↦
            inr (λ (long, mac, off). no_mac (long, mac), rw (v4, e, ◌>>=◌, run) rest)
        | inl (long, mac, run) ↦ elim (Bool-cases (m.config.enable_ntp_auth == 0)) [
          | inl off ↦ inl ((long, mac, ground arith), rw (v4, e, ◌>>=◌, run, off))
          | inr on ↦ inr (λ (_, _, off). ground arith, rw (v4, e, ◌>>=◌, run, on) rest)
        ]
      ]
