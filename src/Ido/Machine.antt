-- ===== src/Ido/Machine.antt =====
-- The transitions of `ido_state_machine`, against the diagram of ido.c as a relation.
use dragon_ntpd.Base.{
  ℕ, ◌≡◌, ◌≢◌, ◌⊎◌, inl, inr, false, arith, ◌==◌, Bool-cases, ◌∙◌, sym, Bool, true, ◌&&◌, subst,
}
use native.Mathlib.Decide.{ℕ_discrete}
use dragon_ntpd.Ido.{
  IdoState, state_idle, state_offer_received, state_response_sent, state_authenticated,
  state_rejected, event_offer_received, event_response_sent, event_auth_established,
  event_negotiation_failed, next_state, ido_state_machine, ido_is_authenticated,
}

-- The arrows of the diagram: `Edge state event state'`.
pub data Edge (state event : ℕ) : ℕ → Type 0 where
  offered :
      state ≡ state_idle → event ≡ event_offer_received → Edge state event state_offer_received
  responded :
      state ≡ state_offer_received
      → event ≡ event_response_sent
      → Edge state event state_response_sent
  established :
      state ≡ state_response_sent
      → event ≡ event_auth_established
      → Edge state event state_authenticated
  failed : event ≡ event_negotiation_failed → Edge state event state_rejected

Edge-next_state :
    (state event : ℕ) {state' : ℕ} → Edge state event state' → next_state state event ≡ state'
unfolding next_state
Edge-next_state state event (offered p q) = ground arith
Edge-next_state state event (responded p q) = ground arith
Edge-next_state state event (established p q) = ground arith
Edge-next_state state event (failed q) = ground arith

-- Where the `switch` moves, it moves along an arrow.
move_of :
    (state event : ℕ) → next_state state event ≢ state → Edge state event (next_state state event)
unfolding next_state
move_of state event moved = elim (Bool-cases (event == event_offer_received)) [
  | inl e ↦ elim (Bool-cases (state == state_idle)) [
    | inl f ↦ rw (e, f) (offered (ground arith) (ground arith))
    | inr f ↦ absurd (ground arith)
  ]
  | inr ne₁ ↦ elim (Bool-cases (event == event_response_sent)) [
    | inl e ↦ elim (Bool-cases (state == state_offer_received)) [
      | inl f ↦ rw (ne₁, e, f) (responded (ground arith) (ground arith))
      | inr f ↦ absurd (ground arith)
    ]
    | inr ne₂ ↦ elim (Bool-cases (event == event_auth_established)) [
      | inl e ↦ elim (Bool-cases (state == state_response_sent)) [
        | inl f ↦ rw (ne₁, ne₂, e, f) (established (ground arith) (ground arith))
        | inr f ↦ absurd (ground arith)
      ]
      | inr ne₃ ↦ elim (Bool-cases (event == event_negotiation_failed)) [
        | inl e ↦ rw (ne₁, ne₂, ne₃, e) (failed (ground arith))
        | inr ne₄ ↦ absurd (ground arith)
      ]
    ]
  ]
]

along :
    (s : IdoState) (event : ℕ) {state' : ℕ}
    → Edge s.ido_state event state'
    → ido_state_machine s event ≡ (record s { ido_state = state' }, state')
unfolding ido_state_machine
along s event e = ground (arith, Edge-next_state s.ido_state event e)

rested :
    (s : IdoState) (event : ℕ)
    → next_state s.ido_state event ≡ s.ido_state
    → ido_state_machine s event ≡ (s, s.ido_state)
unfolding ido_state_machine
rested s event stays = ground arith

-- Only a failure can lead a state to itself.
no_loop :
    {state event state' : ℕ}
    → Edge state event state'
    → state' ≡ state
    → (event == event_negotiation_failed) ≡ false
    → ⊥
no_loop (offered p q) e ne = ground arith
no_loop (responded p q) e ne = ground arith
no_loop (established p q) e ne = ground arith
no_loop (failed q) e ne = ground arith

-- `ido_state_machine` is the diagram: either there is an arrow from the state under the event, and the
-- arrow's end is stored and returned with all other fields as they were; or there is none, and nothing
-- changes and the state itself is returned.
pub ido_state_machine_lem :
    (s : IdoState) (event : ℕ)
    → ((state' : ℕ) × Edge s.ido_state event state'
        × (ido_state_machine s event ≡ (record s { ido_state = state' }, state')))
      ⊎ ((¬ ((state' : ℕ) × Edge s.ido_state event state'))
          × (ido_state_machine s event ≡ (s, s.ido_state)))
ido_state_machine_lem s event = elim (ℕ_discrete (next_state s.ido_state event) s.ido_state) [
  | no moved ↦
      let e = move_of s.ido_state event moved in
      inl (next_state s.ido_state event, e, along s event e)
  | yes stays ↦ elim (Bool-cases (event == event_negotiation_failed)) [
    | inl e ↦
        let failing : Edge s.ido_state event state_rejected = failed (ground arith) in
        inl (state_rejected, failing, along s event failing)
    | inr ne ↦ inr (
      λ h. no_loop h.1 (sym (Edge-next_state s.ido_state event h.1) ∙ stays) ne,
      rested s event stays,
    )
  ]
]

-- No event changes what `ido_is_authenticated` answers, and the failure of the negotiation is no
-- exception: after it the state is REJECTED, and the answer as before.
pub ido_is_authenticated-ido_state_machine :
    (s : IdoState) (event : ℕ)
    → (ido_is_authenticated (ido_state_machine s event).0 ≡ ido_is_authenticated s)
      × ((ido_state_machine s event_negotiation_failed).0 ≡ record s { ido_state = state_rejected })
unfolding ido_state_machine ido_is_authenticated
ido_is_authenticated-ido_state_machine s event = (ground arith, ground arith)

-- The arrows of the diagram that the comment of ido_state_machine draws for I-DO. "No offer received" is
-- the failure of the negotiation.
pub data Drawn (state event : ℕ) : ℕ → Type 0 where
  offer : state ≡ state_idle → event ≡ event_offer_received → Drawn state event state_offer_received
  response :
      state ≡ state_offer_received
      → event ≡ event_response_sent
      → Drawn state event state_response_sent
  early_response :
      state ≡ state_idle → event ≡ event_response_sent → Drawn state event state_response_sent
  authentication :
      state ≡ state_response_sent
      → event ≡ event_auth_established
      → Drawn state event state_authenticated
  no_offer :
      state ≡ state_response_sent
      → event ≡ event_negotiation_failed
      → Drawn state event state_rejected

-- The call stores and returns a state, and changes nothing else.
abbrev pub Moves : IdoState → ℕ → ℕ → Type 0
Moves s event state' = ido_state_machine s event ≡ (record s { ido_state = state' }, state')

-- What the code does with an arrow that is drawn, and where none is.
abbrev pub Follows : IdoState → ℕ → ℕ → Type 0
Follows s event state' =
    (¬ ((s.ido_state ≡ state_idle) × (event ≡ event_response_sent)) × Moves s event state')
    ⊎ ((s.ido_state ≡ state_idle) × (event ≡ event_response_sent) × Moves s event state_idle)

abbrev pub FollowsNone : IdoState → ℕ → Type 0
FollowsNone s event =
    ((event ≡ event_negotiation_failed) × Moves s event state_rejected)
    ⊎ ((event ≢ event_negotiation_failed) × Moves s event s.ido_state)

stays :
    (s : IdoState) (event : ℕ)
    → next_state s.ido_state event ≡ s.ido_state
    → Moves s event s.ido_state
unfolding ido_state_machine
stays s event e = ground arith

not_response : (event : ℕ) → event ≡ event_offer_received → event ≡ event_response_sent → ⊥
not_response event p q = ground arith

follow_arrow :
    (s : IdoState) (event : ℕ) {state' : ℕ}
    → Drawn s.ido_state event state'
    → Follows s event state'
unfolding next_state
follow_arrow s event (offer p q) =
    inl (λ (_, r). not_response event q r, along s event (offered p q))
follow_arrow s event (response p q) =
    inl (λ (r, _). ground (arith, p, r), along s event (responded p q))
follow_arrow s event (early_response p q) =
    inr (p, q, subst (λ x. Moves s event x) p (stays s event (ground (arith, p, q))))
follow_arrow s event (authentication p q) =
    inl (λ (r, _). ground (arith, p, r), along s event (established p q))
follow_arrow s event (no_offer p q) = inl (λ (r, _). ground (arith, p, r), along s event (failed q))

module _ (state event : ℕ) where
  abbrev is_at : ℕ → ℕ → Bool
  is_at a b = (state == a) && (event == b)

  refute :
      {state' : ℕ}
      → Drawn state event state'
      → is_at state_idle event_offer_received ≡ false
      → is_at state_offer_received event_response_sent ≡ false
      → is_at state_idle event_response_sent ≡ false
      → is_at state_response_sent event_auth_established ≡ false
      → is_at state_response_sent event_negotiation_failed ≡ false
      → ⊥
  refute (offer p q) a b c d e = ground (arith, p, q, a)
  refute (response p q) a b c d e = ground (arith, p, q, b)
  refute (early_response p q) a b c d e = ground (arith, p, q, c)
  refute (authentication p q) a b c d e = ground (arith, p, q, d)
  refute (no_offer p q) a b c d e = ground (arith, p, q, e)

  both_hold : (a b : ℕ) → is_at a b ≡ true → (state ≡ a) × (event ≡ b)
  both_hold a b e = ground arith

  arrow_or_none :
      ((state' : ℕ) × Drawn state event state') ⊎ (¬ ((state' : ℕ) × Drawn state event state'))
  arrow_or_none = elim (Bool-cases (is_at state_idle event_offer_received)) [
    | inl h ↦ let (p, q) = both_hold _ _ h in inl (_, offer p q)
    | inr a ↦ elim (Bool-cases (is_at state_offer_received event_response_sent)) [
      | inl h ↦ let (p, q) = both_hold _ _ h in inl (_, response p q)
      | inr b ↦ elim (Bool-cases (is_at state_idle event_response_sent)) [
        | inl h ↦ let (p, q) = both_hold _ _ h in inl (_, early_response p q)
        | inr c ↦ elim (Bool-cases (is_at state_response_sent event_auth_established)) [
          | inl h ↦ let (p, q) = both_hold _ _ h in inl (_, authentication p q)
          | inr d ↦ elim (Bool-cases (is_at state_response_sent event_negotiation_failed)) [
            | inl h ↦ let (p, q) = both_hold _ _ h in inl (_, no_offer p q)
            | inr e ↦ inr (λ (_, arrow). refute arrow a b c d e)
          ]
        ]
      ]
    ]
  ]

undrawn :
    (s : IdoState) (event : ℕ)
    → ¬ ((state' : ℕ) × Drawn s.ido_state event state')
    → FollowsNone s event
undrawn s event no_arrow = elim (ido_state_machine_lem s event) [
  | inl (_, offered p q, run) ↦ absurd (no_arrow (_, offer p q))
  | inl (_, responded p q, run) ↦ absurd (no_arrow (_, response p q))
  | inl (_, established p q, run) ↦ absurd (no_arrow (_, authentication p q))
  | inl (_, failed q, run) ↦ inl (q, run)
  | inr (no_edge, run) ↦ inr (λ q. no_edge (state_rejected, failed q), run)
]

-- `ido_state_machine` against the diagram that its comment draws for I-DO. Where the diagram has an arrow
-- from the state under the event, its end is stored and returned, with one exception: a response that is
-- sent in IDLE, which the diagram takes to RESPONSE_SENT, changes nothing. Where it has none, the failure
-- of the negotiation leads to REJECTED from every state, and any other event changes nothing. No
-- other field changes.
pub ido_state_machine-Drawn :
    (s : IdoState) (event : ℕ)
    → ((state' : ℕ) × Drawn s.ido_state event state' × Follows s event state')
      ⊎ ((¬ ((state' : ℕ) × Drawn s.ido_state event state')) × FollowsNone s event)
ido_state_machine-Drawn s event = elim (arrow_or_none s.ido_state event) [
  | inl (state', arrow) ↦ inl (state', arrow, follow_arrow s event arrow)
  | inr no_arrow ↦ inr (no_arrow, undrawn s event no_arrow)
]
