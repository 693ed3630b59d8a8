-- ===== src/Server/Admission.antt =====
-- Which requests `handle_peer_request_thread` answers.
use dragon_ntpd.Base.{
  ℕ, ◌≤◌, ◌<◌, ◌≡◌, ◌≢◌, ◌⊎◌, inl, inr, true, false, ◌||◌, List, Option, none, some, ltb, ◌==◌,
  length, get_or, arith, Bool-cases, Option-cases, refl, subst, ◌∙◌, Bool, leb, leb→le, ◌&&◌,
  if◌then◌else◌,
}
use dragon_ntpd.Ido.{IdoState}
use dragon_ntpd.Mode.{ModeState}
use dragon_ntpd.Mode.Network.{parse_ip}
use dragon_ntpd.Leap.{LeapSecondState}
use dragon_ntpd.Packet.{mode_of, ntp_is_kod}
use dragon_ntpd.Packet.Laws.{parse_ntp_packet_lem, well_formed, decoded}
use dragon_ntpd.Daemon.{ClockState, Sockets, returns}
use dragon_ntpd.Server.{
  Env, PeerRequestData, dropped, answer, handle_parsed, handle_peer_request_thread,
  response_mode_for,
}
use dragon_ntpd.Server.Laws.{
  at_rest, admission, policy, Unsupported, handle_parsed_lem, version_4, decoded_byte, respond,
}

-- Which mode of response a mode of request gets: a client (3) that of a server (4), a symmetric peer (1 or
-- 2) that of a passive one (2), and a broadcast (5) its own where broadcasting is on.
pub data ResponseTo (broadcasting : Bool) (mode response_mode : ℕ) : Type 0 where
  to_client : mode ≡ 3 → response_mode ≡ 4 → ResponseTo broadcasting mode response_mode
  to_active : mode ≡ 1 → response_mode ≡ 2 → ResponseTo broadcasting mode response_mode
  to_passive : mode ≡ 2 → response_mode ≡ 2 → ResponseTo broadcasting mode response_mode
  to_broadcast :
      mode ≡ 5
      → broadcasting ≡ true
      → response_mode ≡ 5
      → ResponseTo broadcasting mode response_mode

response_mode_for-ResponseTo :
    (b : Bool) (mode response_mode : ℕ)
    → response_mode_for b mode ≡ some response_mode
    → ResponseTo b mode response_mode
unfolding response_mode_for
response_mode_for-ResponseTo b mode rm e = elim (Bool-cases (mode == 3)) [
  | inl three ↦ to_client (ground arith) (ground arith)
  | inr not_three ↦ elim (Bool-cases (mode == 1)) [
    | inl one ↦ to_active (ground arith) (ground arith)
    | inr not_one ↦ elim (Bool-cases (mode == 2)) [
      | inl two ↦ to_passive (ground arith) (ground arith)
      | inr not_two ↦ elim (Bool-cases (mode == 5)) [
        | inl five ↦ to_broadcast (ground arith) (ground arith) (ground arith)
        | inr not_five ↦ absurd (ground arith)
      ]
    ]
  ]
]

ResponseTo-response_mode_for :
    (b : Bool) (mode response_mode : ℕ)
    → ResponseTo b mode response_mode
    → response_mode_for b mode ≡ some response_mode
unfolding response_mode_for
ResponseTo-response_mode_for b mode rm (to_client p q) = rw (p, q) refl
ResponseTo-response_mode_for b mode rm (to_active p q) = rw (p, q) refl
ResponseTo-response_mode_for b mode rm (to_passive p q) = rw (p, q) refl
ResponseTo-response_mode_for b mode rm (to_broadcast p c q) = rw (p, c, q) refl

-- The requests that are answered, and the mode of the response: 48 bytes or more from a named sender,
-- a packet that the parser accepts, no MAC that the configuration does not support, the consent of
-- the access list and the rate limit, a response that is not too large, and a mode that is answered.
pub record Served (m : ModeState) (env : Env) (request : PeerRequestData) (d : List ℕ)
    (response_mode : ℕ) : Type 0 where
  pub long : 48 ≤ request.size
  pub named : (0 < length request.ip) × (0 < length request.port)
  pub accepted : well_formed d ≡ true
  pub supported : ¬ Unsupported m d request.size
  pub consented : policy m env request (mode_of (get_or d 0 0)) ≡ true
  pub fitting : 48 ≤ m.config.max_response_ratio request.size
  pub answered : ResponseTo env.broadcast_mode (mode_of (get_or d 0 0)) response_mode

too_short : (n : ℕ) → ltb n 48 ≡ true → 48 ≤ n → ⊥
too_short n e h = ground arith

unnamed : (a b : ℕ) → ((a == 0) || (b == 0)) ≡ true → (0 < a) × (0 < b) → ⊥
unnamed a b e (p, q) = ground arith

admission-some :
    (m : ModeState) (env : Env) (request : PeerRequestData) (mode response_mode : ℕ)
    → policy m env request mode ≡ true
    → 48 ≤ m.config.max_response_ratio request.size
    → ResponseTo env.broadcast_mode mode response_mode
    → admission m env request mode ≡ some response_mode
admission-some m env request mode rm p f a =
    let fits : leb 48 (m.config.max_response_ratio request.size) ≡ true = ground arith in
    rw (p, fits) (ResponseTo-response_mode_for env.broadcast_mode mode rm a)

-- What admits a request.
abbrev Admitted : ModeState → Env → PeerRequestData → ℕ → ℕ → Type 0
Admitted m env request mode response_mode =
    (policy m env request mode ≡ true)
    × (48 ≤ m.config.max_response_ratio request.size)
    × ResponseTo env.broadcast_mode mode response_mode

not_both : (o : Option ℕ) {n : ℕ} → o ≡ none → o ≡ some n → ⊥
not_both none e f = cc
not_both (some n) e f = cc

admission-Admitted :
    (m : ModeState) (env : Env) (request : PeerRequestData) (mode response_mode : ℕ)
    → admission m env request mode ≡ some response_mode
    → Admitted m env request mode response_mode
admission-Admitted m env request mode rm e =
    go (policy m env request mode) (leb 48 (m.config.max_response_ratio request.size)) refl e
  where
    go :
        (p f : Bool)
        → leb 48 (m.config.max_response_ratio request.size) ≡ f
        → (if p && f then response_mode_for env.broadcast_mode mode else none) ≡ some rm
        → (p ≡ true)
          × (48 ≤ m.config.max_response_ratio request.size)
          × ResponseTo env.broadcast_mode mode rm
    go true true h e = (
      refl,
      leb→le 48 (m.config.max_response_ratio request.size) h,
      response_mode_for-ResponseTo env.broadcast_mode mode rm e,
    )
    go true false h e = absurd (not_both none refl e)
    go false f h e = absurd (not_both none refl e)

-- The request with its bytes.
abbrev pub with_bytes : List ℕ → PeerRequestData → PeerRequestData
with_bytes d request = record request { buffer = some d }

module _ (s : IdoState) (m : ModeState) (l : LeapSecondState) (k : ClockState) (b : Sockets)
    (env : Env) (request : PeerRequestData) (d : List ℕ) where
  -- A served request goes on to be answered in the mode of `Served`; any other is dropped.
  abbrev pub AnsweredOrDropped : Type 0
  AnsweredOrDropped =
      ((response_mode : ℕ) × Served m env (with_bytes d request) d response_mode
        × (handle_peer_request_thread env (with_bytes d request) (at_rest s m l k b)
            ≡ answer env (with_bytes d request) (decoded d request.size env.pkt) response_mode
                (at_rest s m l k b)))
      ⊎ ((¬ ((response_mode : ℕ) × Served m env (with_bytes d request) d response_mode))
          × (handle_peer_request_thread env (with_bytes d request) (at_rest s m l k b)
              ≡ returns dropped (at_rest s m l k b)))

  -- A request that the parser accepts.
  parsed :
      parse_ip env.libc (some request.ip) ≢ 0
      → request.size ≤ length d
      → 48 ≤ request.size
      → (0 < length request.ip) × (0 < length request.port)
      → well_formed d ≡ true
      → handle_peer_request_thread env (with_bytes d request) (at_rest s m l k b)
        ≡ handle_parsed env
            (with_bytes d request)
            d
            (decoded d request.size env.pkt)
            (at_rest s m l k b)
      → AnsweredOrDropped
  parsed known fits long named good e =
      let pkt = decoded d request.size env.pkt in
      elim (handle_parsed_lem s m l k b env (with_bytes d request) d pkt known fits
        (version_4 d request.size env.pkt good)) [
          | inl (unsupported, run) ↦ inr (λ (_, served). served.supported unsupported, e ∙ run)
          | inr (supported, run) ↦
              let mode = mode_of (get_or d 0 0) in
              let run' : handle_parsed env (with_bytes d request) d pkt (at_rest s m l k b)
                  ≡ respond s m l k b env (with_bytes d request) pkt
                      (admission m env (with_bytes d request) mode) =
                subst
                  (λ x.
                    handle_parsed env (with_bytes d request) d pkt (at_rest s m l k b)
                    ≡ respond s m l k b env (with_bytes d request) pkt
                        (admission m env (with_bytes d request) (mode_of x)))
                  (decoded_byte d request.size env.pkt) run in
              elim (Option-cases (admission m env (with_bytes d request) mode)) [
                | inl refused ↦ inr (
                  λ (_, served). not_both (admission m env (with_bytes d request) mode) refused (
                      admission-some m env (with_bytes d request) mode _ served.consented
                        served.fitting served.answered),
                  e ∙ run' ∙ rw refused refl,
                )
                | inr (response_mode, admitted) ↦
                    let (p, f, a) =
                      admission-Admitted m env (with_bytes d request) mode response_mode admitted in
                    inl (
                      response_mode,
                      record {
                        long = long;
                        named = named;
                        accepted = good;
                        supported = supported;
                        consented = p;
                        fitting = f;
                        answered = a;
                      },
                      e ∙ run' ∙ rw admitted refl,
                    )
              ]
        ]

  -- A call with no mutex held, for a sender whose address is readable and not 0, on a buffer that holds
  -- the bytes received, and 85 where more than 68 were, and where the packet to be filled does not look
  -- like a kiss-o'-death. A request that `Served` holds of goes on to be answered, in the mode that
  -- `Served` names; any other is dropped, nothing is sent, its memory is freed and no state changes.
  pub handle_peer_request_thread_lem :
      parse_ip env.libc (some request.ip) ≢ 0
      → request.size ≤ length d
      → (request.size ≤ 68) ⊎ (85 ≤ length d)
      → ntp_is_kod env.pkt ≡ false
      → AnsweredOrDropped
  unfolding handle_peer_request_thread
  handle_peer_request_thread_lem known fits mac fresh =
      let parse = parse_ntp_packet_lem s d request.size env.pkt fits mac in
      elim (Bool-cases (ltb request.size 48)) [
        | inl short ↦ inr (λ (_, served). too_short request.size short served.long, rw short)
        | inr long ↦ elim (Bool-cases ((length request.ip == 0) || (length request.port == 0))) [
          | inl nameless ↦ inr (
            λ (_, served). unnamed (length request.ip) (length request.port) nameless served.named,
            rw (long, nameless),
          )
          | inr named ↦ elim (Bool-cases (well_formed d)) [
            | inr bad ↦ inr (
              λ (_, served). let x = served.accepted in cc,
              rw (long, named, parse, long, fresh, bad),
            )
            | inl good ↦
                parsed known fits (ground arith) (ground arith, ground arith) good
                  (rw (long, named, parse, long, fresh, good))
          ]
        ]
      ]
