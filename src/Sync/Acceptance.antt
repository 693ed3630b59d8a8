-- ===== src/Sync/Acceptance.antt =====
-- Which replies pass the checks of `sync_ntp_time`.
use dragon_ntpd.Base.{
  ℕ, zero, suc, ◌+◌, ◌*◌, ◌≤◌, ◌<◌, ◌≡◌, refl, Bool, true, false, not, ◌&&◌, ◌||◌, List, [], ◌∷◌,
  Option, none, some, ltb, Status, ◌==◌, if◌then◌else◌, arith, subst, sym,
}
use dragon_ntpd.Base.Lock
use dragon_ntpd.Base.Lock.{Run, Locked}
use dragon_ntpd.Base.Int.{ℤ, pos_part, neg_part}
use dragon_ntpd.Algorithms.{calculate_delay_offset}
use dragon_ntpd.Algorithms.Selection.{compute_system_offset}
use dragon_ntpd.Filter.Outliers.{marx_filter_outliers}
use dragon_ntpd.Ido.{IdoState}
use dragon_ntpd.Leap.{LeapSecondState, World, handle_leap_indicator, leap_second_schedule_event}
use dragon_ntpd.Packet.{NtpPacket, NtpTimestamp, li_of, mode_of, ntp_is_kod}
use dragon_ntpd.Packet.Parse.{parse_ntp_packet}
use dragon_ntpd.Daemon.{
  Daemon, Outcome, M, returns, waits, faults, ◌>>=◌, pure, unless_fault, on_clock, on_leap,
  on_samples,
}
use dragon_ntpd.Daemon.Unsynced.{Gives}
use dragon_ntpd.Sync.Examine.{
  Reply, Accepted, Examined, rejected, accepted, accepted_of, unsynchronise, unsynchronise_only,
  examine, examine_packet, examine_sample, same_stamp, add_sample, maxdist, unsynced, unsynced_16,
}

-- The packet of a reply that may be used, with what the rest of the call gets: from a server that is
-- synchronised, of stratum 1 to 15, in answer to the request of time `t1`, with a transmit time, at
-- most a second away and ten seconds on the way by the on-wire calculation.
pub record Acceptable (reply : Reply) (t1 : NtpTimestamp) (pkt : NtpPacket) (a : Accepted)
    : Type 0 where
  pub server : mode_of pkt.li_vn_mode ≡ 4
  pub synchronised : li_of pkt.li_vn_mode < 3
  pub origin : (pkt.orig_ts.sec ≡ t1.sec) × (pkt.orig_ts.frac ≡ t1.frac)
  pub transmitted : ¬ ((pkt.xmit_ts.sec ≡ 0) × (pkt.xmit_ts.frac ≡ 0))
  pub measured :
      calculate_delay_offset t1 pkt.recv_ts pkt.xmit_ts reply.t4 ≡ some (a.delay_us, a.offset_us)
  pub stratum : (1 ≤ pkt.stratum) × (pkt.stratum ≤ 15)
  pub near : pos_part a.offset_us + neg_part a.offset_us ≤ 1000000
  pub quick : a.delay_us ≤ 10000000
  pub passed : a ≡ accepted_of reply pkt a.delay_us a.offset_us

-- What holds of the result of code, from whatever state, where it returns.
unfoldable Yields : (Examined → Type 0) → M Examined → Type 0
Yields Q m = (d : Daemon) → Gives (λ a d'. Q a) (m d)

module _ (Q : Examined → Type 0) where
  result_of :
      {A : Type 0} (o : Outcome A) (f : A → M Examined)
      → ((a : A) → Yields Q (f a))
      → Gives (λ b d'. Q b) (elim o [ returns a d' ↦ f a d' | waits ↦ waits | faults ↦ faults ])
  unfolding Yields
  result_of (returns a d) f h = h a d
  result_of waits f h = tt
  result_of faults f h = tt

  Yields-bind :
      {A : Type 0} (m : M A) (f : A → M Examined) → ((a : A) → Yields Q (f a)) → Yields Q (m >>= f)
  unfolding Yields
  Yields-bind m f h d = result_of (m d) f h

  Yields-pure : (a : Examined) → Q a → Yields Q (pure a)
  unfolding Yields
  Yields-pure a q d = q

  Yields-unless_fault :
      {A : Type 0} (o : Option A) (f : A → M Examined)
      → ((a : A) → Yields Q (f a))
      → Yields Q (unless_fault o f)
  unfolding Yields
  Yields-unless_fault none f h d = tt
  Yields-unless_fault (some a) f h d = h a d

  Yields-if :
      (c : Bool) (m n : M Examined)
      → Yields Q m
      → (c ≡ false → Yields Q n)
      → Yields Q (if c then m else n)
  Yields-if true m n h k = h
  Yields-if false m n h k = k refl

abbrev Sound : Reply → NtpTimestamp → NtpPacket → Examined → Type 0
Sound reply t1 pkt rejected = Unit {0}
Sound reply t1 pkt (accepted a) = Acceptable reply t1 pkt a

module _ (reply : Reply) (t1 : NtpTimestamp) (pkt : NtpPacket) where
  abbrev Right : Examined → Type 0
  Right x = Sound reply t1 pkt x

  unsynchronise-Yields : Yields Right unsynchronise
  unsynchronise-Yields = Yields-bind Right (on_clock Lock.lock) _ (λ u.
      Yields-bind Right (on_clock (Lock.modify unsynced_16)) _
        (λ v. Yields-bind Right (on_clock Lock.unlock) _ (λ w. Yields-pure Right rejected tt)))

  unsynchronise_only-Yields : Yields Right unsynchronise_only
  unsynchronise_only-Yields = Yields-bind Right (on_clock Lock.lock) _ (λ u.
      Yields-bind Right (on_clock (Lock.modify unsynced)) _
        (λ v. Yields-bind Right (on_clock Lock.unlock) _ (λ w. Yields-pure Right rejected tt)))

  refused : Yields Right (pure rejected)
  refused = Yields-pure Right rejected tt

  examine_sample-Yields :
      (delay_us : ℕ) (offset_us : ℤ)
      → (((pkt.stratum == 0) || ltb 15 pkt.stratum) ≡ false
          → ltb maxdist (pos_part offset_us + neg_part offset_us) ≡ false
          → ltb (maxdist * 10) delay_us ≡ false
          → Acceptable reply t1 pkt (accepted_of reply pkt delay_us offset_us))
      → Yields Right (examine_sample reply pkt delay_us offset_us)
  unfolding examine_sample
  examine_sample-Yields delay_us offset_us good =
      Yields-if Right ((pkt.stratum == 0) || ltb 15 pkt.stratum) _ _ unsynchronise-Yields (λ s.
        Yields-if Right (ltb maxdist (pos_part offset_us + neg_part offset_us)) _ _
          unsynchronise-Yields
          (λ o. Yields-if Right (ltb (maxdist * 10) delay_us) _ _ unsynchronise_only-Yields (λ l.
            Yields-unless_fault Right (compute_system_offset (offset_us ∷ []) 1) _ (λ x.
              Yields-bind Right (add_sample reply.gettimeofday delay_us offset_us) _ (λ y.
                Yields-bind Right (on_samples (marx_filter_outliers 3)) _ (λ n.
                  Yields-if Right (n == 0) _ _ unsynchronise_only-Yields (λ z.
                    Yields-pure Right (accepted (accepted_of reply pkt delay_us offset_us))
                      (good s o l))))))))

  -- The end of the checks, on the result of the on-wire calculation.
  abbrev measured : Option (ℕ × ℤ) → M Examined
  measured none = pure rejected
  measured (some (delay_us, offset_us)) = examine_sample reply pkt delay_us offset_us

  measured-Yields :
      (o : Option (ℕ × ℤ))
      → calculate_delay_offset t1 pkt.recv_ts pkt.xmit_ts reply.t4 ≡ o
      → mode_of pkt.li_vn_mode ≡ 4
      → li_of pkt.li_vn_mode < 3
      → (pkt.orig_ts.sec ≡ t1.sec) × (pkt.orig_ts.frac ≡ t1.frac)
      → ¬ ((pkt.xmit_ts.sec ≡ 0) × (pkt.xmit_ts.frac ≡ 0))
      → Yields Right (elim o [
        | none ↦ pure rejected
        | some (delay_us, offset_us) ↦ examine_sample reply pkt delay_us offset_us
      ])
  measured-Yields none e server sync origin sent = refused
  measured-Yields (some (delay_us, offset_us)) e server sync origin sent =
      examine_sample-Yields delay_us offset_us (λ s o l. record {
        server = server;
        synchronised = sync;
        origin = origin;
        transmitted = sent;
        measured = e;
        stratum = (ground arith, ground arith);
        near = ground arith;
        quick = ground arith;
        passed = refl;
      })

  checked-Yields :
      li_of pkt.li_vn_mode < 3
      → Yields Right (
          if not (mode_of pkt.li_vn_mode == 4)
          then pure rejected
          else if ntp_is_kod pkt
          then pure rejected
          else if not (same_stamp pkt.orig_ts t1)
          then pure rejected
          else if (pkt.xmit_ts.sec == 0) && (pkt.xmit_ts.frac == 0)
          then pure rejected
          else elim (calculate_delay_offset t1 pkt.recv_ts pkt.xmit_ts reply.t4) [
            | none ↦ pure rejected
            | some (delay_us, offset_us) ↦ examine_sample reply pkt delay_us offset_us
          ])
  checked-Yields sync = Yields-if Right (not (mode_of pkt.li_vn_mode == 4)) _ _ refused (λ m.
      Yields-if Right (ntp_is_kod pkt) _ _ refused (λ k.
        Yields-if Right (not (same_stamp pkt.orig_ts t1)) _ _ refused (λ o.
          Yields-if Right ((pkt.xmit_ts.sec == 0) && (pkt.xmit_ts.frac == 0)) _ _ refused (λ x.
            measured-Yields (calculate_delay_offset t1 pkt.recv_ts pkt.xmit_ts reply.t4) refl
              (ground arith) sync (ground arith, ground arith) (λ (a, b). ground arith)))))

alarm :
    (w : World) (n : ℕ) (l : Locked LeapSecondState)
    → handle_leap_indicator w (suc (suc (suc n))) l ≡ Lock.done true l
unfolding handle_leap_indicator
alarm w n l = ground arith

module _ (Q : Examined → Type 0) (rest : M Examined) (q : Q rejected) where
  -- Behind a leap second that was scheduled, or not.
  scheduled :
      (r : Run LeapSecondState Status) (d : Daemon)
      → Yields Q rest
      → Gives
          (λ a d'. Q a)
          (elim (elim (elim r as (λ r. Run LeapSecondState Bool) [
            | Lock.done a l ↦ Lock.done false l
            | Lock.blocked ↦ Lock.blocked
          ])
              as (λ r. Outcome Bool) [
                | Lock.done a l ↦ returns a (record d { leap = l })
                | Lock.blocked ↦ waits
              ])
            as (λ r. Outcome Examined) [
              | returns skip d' ↦ (if skip then pure rejected else rest) d'
              | waits ↦ waits
              | faults ↦ faults
            ])
  unfolding Yields
  scheduled (Lock.done a l) d h = h (record d { leap = l })
  scheduled Lock.blocked d h = tt

  raised :
      (w : World) (n : ℕ) (d : Daemon)
      → (on_leap (handle_leap_indicator w (suc (suc (suc n))))
            >>= (λ skip. if skip then pure rejected else rest))
          d
        ≡ returns rejected d
  raised w n d = rw (◌>>=◌, alarm w n d.leap)

  after_indicator :
      (w : World) (li : ℕ)
      → (li < 3 → Yields Q rest)
      → Yields Q
          (on_leap (handle_leap_indicator w li) >>= (λ skip. if skip then pure rejected else rest))
  unfolding Yields handle_leap_indicator
  after_indicator w zero h d = h (omega arith) d
  after_indicator w (suc zero) h d =
      scheduled (leap_second_schedule_event w 1 d.leap) d (h (omega arith))
  after_indicator w (suc (suc zero)) h d =
      scheduled (leap_second_schedule_event w 2 d.leap) d (h (omega arith))
  after_indicator w (suc (suc (suc n))) h d =
      subst (λ o. Gives (λ a d'. Q a) o) (sym (raised w n d)) q

examine_packet-Yields :
    (reply : Reply) (t1 : NtpTimestamp) (pkt : NtpPacket)
    → Yields (Sound reply t1 pkt) (examine_packet reply pkt t1)
unfolding examine_packet
examine_packet-Yields reply t1 pkt =
    after_indicator (Sound reply t1 pkt) _ tt reply.world (li_of pkt.li_vn_mode)
      (checked-Yields reply t1 pkt)

module _ (reply : Reply) (t1 : NtpTimestamp) where
  by_parse :
      (o : Option (Bool × NtpPacket × IdoState)) (d d' : Daemon) (a : Accepted)
      → unless_fault o
          (λ (parsed, pkt, ido) d'.
            (if parsed then examine_packet reply pkt t1 else pure rejected)
              (record d' { ido = ido }))
          d
        ≡ returns (accepted a) d'
      → (pkt : NtpPacket) × (ido : IdoState) × (o ≡ some (true, pkt, ido))
        × Acceptable reply t1 pkt a
  unfolding Yields
  by_parse none d d' a e = absurd cc
  by_parse (some (false, pkt, ido)) d d' a e = absurd cc
  by_parse (some (true, pkt, ido)) d d' a e = (
    pkt,
    ido,
    refl,
    subst (λ o. Gives (λ x d'. Sound reply t1 pkt x) o) e
        (examine_packet-Yields reply t1 pkt (record d { ido = ido })),
  )

  -- Whatever the state, the buffer and the state of the filter: a reply passes the checks of
  -- `sync_ntp_time` only if the parser accepts it as a packet that is `Acceptable`. Its origin time is that of the
  -- request, so a reply that did not see the request is refused.
  pub examine-Acceptable :
      (buffer : List ℕ) (recv_len : ℕ) (d d' : Daemon) (a : Accepted)
      → examine reply buffer recv_len t1 d ≡ returns (accepted a) d'
      → (pkt : NtpPacket) × (ido : IdoState) × (parse_ntp_packet d.ido
            (some buffer)
            recv_len
            reply.pkt
          ≡ some (true, pkt, ido))
        × Acceptable reply t1 pkt a
  unfolding examine
  examine-Acceptable buffer recv_len d d' a e =
      by_parse (parse_ntp_packet d.ido (some buffer) recv_len reply.pkt) d d' a e
