-- ===== src/Frequency/Discipline/Laws.antt =====
-- What the calls of the frequency discipline leave.
use dragon_ntpd.Base.{
  ℕ, ◌+◌, ◌-◌, ◌<◌, ◌≤◌, ◌≡◌, refl, sym, ap, subst, ◌∙◌, true, false, List, [], ◌∷◌, ltb, leb,
  arith, inl, inr, Bool-cases, ◌≢◌, some,
}
use dragon_ntpd.Base.Int.{ℤ, pos}
use dragon_ntpd.Frequency.{
  Floats, Stage, nset, fset, synced, recover, FreqState, FreqOs, Adjusted, clamp_frequency,
  apply_frequency_adjustment, adjtimex_freq, adjtimex_succeeds, update_dynamic_gain,
}
use dragon_ntpd.Frequency.Discipline.{
  Update, time_constant, estimated, update_frequency_discipline_internal, updates, exponent,
}

-- Every call has an exponent from 0 to 62 and comes before the time constant of its exponent has passed since the one before it.
abbrev pub Early : ℕ → List Update → Type 0
Early last [] = Unit {0}
Early last (u ∷ us) =
    (p : ℕ) × (u.poll_exp ≡ pos p) × (p ≤ 62) × (u.now < last + time_constant p) × Early u.now us

-- Every call has an exponent from 0 to 62 and comes when the time constant has passed.
abbrev pub Late : ℕ → List Update → Type 0
Late last [] = Unit {0}
Late last (u ∷ us) =
    (p : ℕ) × (u.poll_exp ≡ pos p) × (p ≤ 62) × (last + time_constant p ≤ u.now) × Late u.now us

exponent-some : (z : ℤ) (p : ℕ) → z ≡ pos p → p ≤ 62 → exponent z ≡ some p
exponent-some z p e h = let small : ltb 62 p ≡ false = ground arith in rw (e, small) refl

not_passed :
    (p last now : ℕ) → now < last + time_constant p → leb (time_constant p) (now - last) ≡ false
not_passed p last now h = ground arith

passed : (p last now : ℕ) → last + time_constant p ≤ now → leb (time_constant p) (now - last) ≡ true
passed p last now h = ground arith

module _ {R : Type 0} (fl : Floats R) (os : FreqOs) where
  -- The adjustment keeps all but the frequency, and a frequency within its limits.
  adjusted-same :
      (ppm : R) (s : FreqState R)
      → clamp_frequency fl ppm ≡ s.ppm
      → (apply_frequency_adjustment fl os ppm s).0 ≡ s
  unfolding apply_frequency_adjustment
  adjusted-same ppm s e =
      elim (Bool-cases (fl.less (fl.abs (clamp_frequency fl ppm)) (fl.literal 1 3))) [
        | inl small ↦ rw small refl
        | inr large ↦
            elim (Bool-cases
              (adjtimex_succeeds fl (os.adjtimex (adjtimex_freq fl (clamp_frequency fl ppm))))) [
                | inl succeeds ↦ rw (large, succeeds) (ap (λ c. record s { ppm = c }) e)
                | inr fails ↦ rw (large, fails) refl
              ]
      ]

  adjusted-mode :
      (ppm : R) (s : FreqState R)
      → ((apply_frequency_adjustment fl os ppm s).0.state ≡ s.state)
        × ((apply_frequency_adjustment fl os ppm s).0.last_update ≡ s.last_update)
  unfolding apply_frequency_adjustment
  adjusted-mode ppm s =
      elim (Bool-cases (fl.less (fl.abs (clamp_frequency fl ppm)) (fl.literal 1 3))) [
        | inl small ↦ rw small (refl, refl)
        | inr large ↦
            elim (Bool-cases
              (adjtimex_succeeds fl (os.adjtimex (adjtimex_freq fl (clamp_frequency fl ppm))))) [
                | inl succeeds ↦ rw (large, succeeds) (refl, refl)
                | inr fails ↦ rw (large, fails) (refl, refl)
              ]
      ]

  -- An early call changes the time and the offset alone.
  update-early :
      (u : Update) (p : ℕ) (s : FreqState R)
      → u.poll_exp ≡ pos p
      → p ≤ 62
      → u.now < s.last_update + time_constant p
      → clamp_frequency fl s.ppm ≡ s.ppm
      → (r : Adjusted fl) × (update_frequency_discipline_internal fl os u s ≡ some r)
        × (r.0 ≡ record s { last_update = u.now; last_offset_us = u.offset_us })
  unfolding update_frequency_discipline_internal
  update-early u p s z le h e = (
    apply_frequency_adjustment fl os s.ppm
        (record s { last_update = u.now; last_offset_us = u.offset_us }),
    rw (exponent-some u.poll_exp p z le, not_passed p s.last_update u.now h) refl,
    adjusted-same s.ppm (record s { last_update = u.now; last_offset_us = u.offset_us }) e,
  )

  -- The state behind one call that is late.
  abbrev next : Stage → Stage
  next nset = fset
  next fset = synced
  next synced = synced
  next recover = recover

  gain-state : (jitter : ℕ) (s : FreqState R) → (update_dynamic_gain fl jitter s).state ≡ s.state
  unfolding update_dynamic_gain
  gain-state jitter s = elim (Bool-cases (ltb 200000 jitter)) [
    | inl high ↦ rw high refl
    | inr low ↦ elim (Bool-cases (ltb jitter 50000)) [
      | inl e ↦ rw (low, e) refl
      | inr e ↦ rw (low, e) refl
    ]
  ]

  estimated-next :
      (u : Update) (p delta : ℕ) (s : FreqState R) (m : Stage)
      → s.state ≡ m
      → (estimated fl u p delta s m).state ≡ next m
  estimated-next u p delta s nset e = refl
  estimated-next u p delta s fset e = refl
  estimated-next u p delta s synced e = gain-state u.jitter_us s ∙ e
  estimated-next u p delta s recover e = gain-state u.jitter_us s ∙ e

  update-late :
      (u : Update) (p : ℕ) (s : FreqState R)
      → u.poll_exp ≡ pos p
      → p ≤ 62
      → s.last_update + time_constant p ≤ u.now
      → (r : Adjusted fl) × (update_frequency_discipline_internal fl os u s ≡ some r)
        × (r.0.state ≡ next s.state)
        × (r.0.last_update ≡ u.now)
  unfolding update_frequency_discipline_internal
  update-late u p s z le h =
      let s₁ = estimated fl u p (u.now - s.last_update) s s.state in
      let s₂ = record s₁ { last_update = u.now; last_offset_us = u.offset_us } in
      let kept = adjusted-mode s₁.ppm s₂ in
      (
        apply_frequency_adjustment fl os s₁.ppm s₂,
        rw (exponent-some u.poll_exp p z le, passed p s.last_update u.now h) refl,
        kept.0 ∙ estimated-next u p (u.now - s.last_update) s s.state refl,
        kept.1,
      )

  -- The state, the frequency and the filter of a result.
  abbrev pub Unchanged : FreqState R → FreqState R → Type 0
  Unchanged s r = (r.state ≡ s.state) × (r.ppm ≡ s.ppm) × (r.ppm_filter ≡ s.ppm_filter)

  -- As long as every call of the discipline has an exponent from 0 to 62 and comes before the time constant
  -- has passed since the call before it, every call is defined and no number of calls changes its state, its
  -- frequency or its filter: the time of the last call is kept in any case. The frequency was within its
  -- limits.
  pub updates-Early :
      (us : List Update) (s : FreqState R)
      → clamp_frequency fl s.ppm ≡ s.ppm
      → Early s.last_update us
      → (r : FreqState R) × (updates fl os us s ≡ some r) × Unchanged s r
  unfolding updates
  updates-Early [] s e early = (s, refl, (refl, refl, refl))
  updates-Early (u ∷ us) s e (p, z, le, h, early) =
      let s' = record s { last_update = u.now; last_offset_us = u.offset_us } in
      let (a, run, same) = update-early u p s z le h e in
      let (r, rest, kept) = updates-Early us s' e early in
      (r, rw (updates, run) (ap (λ t. updates fl os us t) same ∙ rest), kept)

  updates-synced :
      (us : List Update) (s : FreqState R)
      → Late s.last_update us
      → s.state ≡ synced
      → (r : FreqState R) × (updates fl os us s ≡ some r) × (r.state ≡ synced)
  unfolding updates
  updates-synced [] s late e = (s, refl, e)
  updates-synced (u ∷ us) s (p, z, le, h, late) e =
      let (a, run, m, t) = update-late u p s z le h in
      let (r, rest, end) =
        updates-synced us a.0 (subst (λ last. Late last us) (sym t) late) (m ∙ ap next e) in
      (r, rw (updates, run) rest, end)

  next-next : (m : Stage) → m ≢ recover → next (next m) ≡ synced
  next-next nset h = refl
  next-next fset h = refl
  next-next synced h = refl
  next-next recover h = absurd (h refl)

  -- From every state but FREQ_STATE_RECOVER, which nothing sets, two calls or more with exponents from 0 to
  -- 62 that each come when the time constant has passed since the one before are defined and bring the
  -- discipline to FREQ_STATE_SYNC.
  pub updates-Late :
      (u v : Update) (us : List Update) (s : FreqState R)
      → s.state ≢ recover
      → Late s.last_update (u ∷ v ∷ us)
      → (r : FreqState R) × (updates fl os (u ∷ v ∷ us) s ≡ some r) × (r.state ≡ synced)
  unfolding updates
  updates-Late u v us s known (p, z, le, h, (q, z', le', h', late)) =
      let (a, run, m, t) = update-late u p s z le h in
      let (b, run', m', t') =
        update-late v q a.0 z' le' (subst (λ last. last + time_constant q ≤ v.now) (sym t) h') in
      let (r, rest, end) =
        updates-synced us b.0 (subst (λ last. Late last us) (sym t') late)
          (m' ∙ ap next m ∙ next-next s.state known) in
      (r, rw (updates, run, run') rest, end)
