-- ===== src/Sync/Laws.antt =====
-- `sync_ntp_time` never synchronises the clock.
use dragon_ntpd.Base.{
  refl, ℕ, List, Option, none, some, Bool, true, false, Option-cases, inl, inr, error, ltb, ◌==◌,
  ◌||◌, ◌&&◌, ◌+◌, ◌*◌, not, if◌then◌else◌, [], ◌∷◌,
}
use dragon_ntpd.Base.Int.{ℤ, pos_part, neg_part}
use dragon_ntpd.Leap.{handle_leap_indicator}
use dragon_ntpd.Algorithms.{calculate_delay_offset}
use dragon_ntpd.Algorithms.Selection.{compute_system_offset}
use dragon_ntpd.Ido.{IdoState}
use dragon_ntpd.Packet.Request.{create_ntp_request}
use dragon_ntpd.Packet.Parse.{parse_ntp_packet}
use dragon_ntpd.Sync.{
  Env, mark_reachable, handle_reply, send_request, send_made, send_resolved, server_port,
  get_sync_socket, sync_ntp_time,
}
use dragon_ntpd.Sync.Commit.{commit}
use dragon_ntpd.Sync.Deadlock.{commit-waits}
use dragon_ntpd.Packet.{NtpPacket, NtpTimestamp, li_of, mode_of, ntp_is_kod}
use dragon_ntpd.Daemon.{Daemon, pure, ◌>>=◌, unless_fault, on_samples, on_leap}
use dragon_ntpd.Daemon.Unsynced.{
  Keeps, Gives, Unsynced, Fails, Fails-error, Fails-waits, Fails-if, Fails-bind, Keeps-bind,
  Keeps-if, Keeps-pure, Keeps-lock, Keeps-get, Keeps-unlock, Keeps-modify, Keeps-unless_fault,
  Keeps-on_samples, Keeps-on_leap,
}
use dragon_ntpd.Sync.Examine.{
  Reply, Examined, examine_sample, unsynchronise, unsynchronise_only, add_sample, unsynced,
  unsynced_16, maxdist, accepted_of, examine_packet, same_stamp, examine, rejected, accepted,
}
use dragon_ntpd.Filter.{marx_add_sample_us}
use dragon_ntpd.Filter.Outliers.{marx_filter_outliers}

unsynchronise-Keeps : Keeps unsynchronise
unsynchronise-Keeps = Keeps-bind _ _ Keeps-lock (λ u.
    Keeps-bind _ _ (Keeps-modify unsynced_16 (λ k e. refl))
      (λ v. Keeps-bind _ _ Keeps-unlock (λ w. Keeps-pure rejected)))

unsynchronise_only-Keeps : Keeps unsynchronise_only
unsynchronise_only-Keeps = Keeps-bind _ _ Keeps-lock (λ u.
    Keeps-bind _ _ (Keeps-modify unsynced (λ k e. refl))
      (λ v. Keeps-bind _ _ Keeps-unlock (λ w. Keeps-pure rejected)))

add_sample-Keeps :
    (time : Option (ℕ × ℕ)) (delay : ℕ) (offset : ℤ) → Keeps (add_sample time delay offset)
add_sample-Keeps none delay offset = Keeps-pure tt
add_sample-Keeps (some (sec, usec)) delay offset =
    Keeps-on_samples (marx_add_sample_us (sec * 1000000000 + usec * 1000) delay offset)

examine_sample-Keeps :
    (reply : Reply) (pkt : NtpPacket) (delay_us : ℕ) (offset_us : ℤ)
    → Keeps (examine_sample reply pkt delay_us offset_us)
unfolding examine_sample
examine_sample-Keeps reply pkt delay_us offset_us =
    Keeps-if ((pkt.stratum == 0) || ltb 15 pkt.stratum) _ _ unsynchronise-Keeps (
      Keeps-if (ltb maxdist (pos_part offset_us + neg_part offset_us)) _ _ unsynchronise-Keeps (
        Keeps-if (ltb (maxdist * 10) delay_us) _ _ unsynchronise_only-Keeps (
          Keeps-unless_fault (compute_system_offset (offset_us ∷ []) 1) _ (λ o.
            Keeps-bind (add_sample reply.gettimeofday delay_us offset_us) _
              (add_sample-Keeps reply.gettimeofday delay_us offset_us)
              (λ u.
                Keeps-bind (on_samples (marx_filter_outliers 3)) _
                  (Keeps-on_samples (marx_filter_outliers 3))
                  (λ n.
                    Keeps-if (n == 0) _ _ unsynchronise_only-Keeps
                      (Keeps-pure (accepted (accepted_of reply pkt delay_us offset_us)))))))))

measured-Keeps :
    (reply : Reply) (pkt : NtpPacket) (o : Option (ℕ × ℤ))
    → Keeps (elim o [
      | none ↦ pure rejected
      | some (delay_us, offset_us) ↦ examine_sample reply pkt delay_us offset_us
    ])
measured-Keeps reply pkt none = Keeps-pure rejected
measured-Keeps reply pkt (some (delay_us, offset_us)) =
    examine_sample-Keeps reply pkt delay_us offset_us

examine_packet-Keeps :
    (reply : Reply) (pkt : NtpPacket) (t1 : NtpTimestamp) → Keeps (examine_packet reply pkt t1)
unfolding examine_packet
examine_packet-Keeps reply pkt t1 =
    let indicator = handle_leap_indicator reply.world (li_of pkt.li_vn_mode) in
    Keeps-bind (on_leap indicator) _ (Keeps-on_leap indicator) (λ skip.
      Keeps-if skip _ _ (Keeps-pure rejected) (
        Keeps-if (not (mode_of pkt.li_vn_mode == 4)) _ _ (Keeps-pure rejected) (
          Keeps-if (ntp_is_kod pkt) _ _ (Keeps-pure rejected) (
            Keeps-if (not (same_stamp pkt.orig_ts t1)) _ _ (Keeps-pure rejected) (
              Keeps-if ((pkt.xmit_ts.sec == 0) && (pkt.xmit_ts.frac == 0)) _ _ (Keeps-pure rejected)
                (measured-Keeps reply pkt
                  (calculate_delay_offset t1 pkt.recv_ts pkt.xmit_ts reply.t4)))))))

parsed-Keeps :
    (reply : Reply) (t1 : NtpTimestamp) (ok : Bool) (pkt : NtpPacket) (ido : IdoState) (d : Daemon)
    → Unsynced d
    → Gives
        (λ (a : Examined) d'. Unsynced d')
        ((if ok then examine_packet reply pkt t1 else pure rejected) (record d { ido = ido }))
unfolding Keeps
parsed-Keeps reply t1 true pkt ido d u =
    examine_packet-Keeps reply pkt t1 (record d { ido = ido }) u
parsed-Keeps reply t1 false pkt ido d u = u

parse-Gives :
    (reply : Reply) (t1 : NtpTimestamp) (o : Option (Bool × NtpPacket × IdoState)) (d : Daemon)
    → Unsynced d
    → Gives
        (λ (a : Examined) d'. Unsynced d')
        (unless_fault o
          (λ (parsed, pkt, ido) d'.
            (if parsed then examine_packet reply pkt t1 else pure rejected)
              (record d' { ido = ido }))
          d)
parse-Gives reply t1 none d u = tt
parse-Gives reply t1 (some (ok, pkt, ido)) d u = parsed-Keeps reply t1 ok pkt ido d u

-- Whatever the reply: the checks leave the clock unsynchronised.
pub examine-Keeps :
    (reply : Reply) (buffer : List ℕ) (recv_len : ℕ) (t1 : NtpTimestamp)
    → Keeps (examine reply buffer recv_len t1)
unfolding examine Keeps
examine-Keeps reply buffer recv_len t1 d u =
    parse-Gives reply t1 (parse_ntp_packet d.ido (some buffer) recv_len reply.pkt) d u

examined-Fails :
    (env : Env) (ip : List ℕ) (examined : Examined)
    → Fails (elim examined [
      | rejected ↦ pure error
      | accepted a ↦ commit env.discipline env.os env.reply.world ip a
    ])
examined-Fails env ip rejected = Fails-error
examined-Fails env ip (accepted a) =
    Fails-waits (commit env.discipline env.os env.reply.world ip a)
      (commit-waits env.discipline env.os env.reply.world ip a)

handle_reply-Fails :
    (env : Env) (ip port : List ℕ) (t1 : NtpTimestamp) → Fails (handle_reply env ip port t1)
unfolding handle_reply
handle_reply-Fails env ip port t1 = Fails-if (env.recv_len == 0) _ _ Fails-error (
    Fails-bind _ _ Keeps-lock (λ u.
      Fails-bind _ _
        (Keeps-modify (λ k. record k { peer_pool = mark_reachable ip port env.time k.peer_pool })
          (λ k e. e))
        (λ v. Fails-bind _ _ Keeps-unlock (λ w.
          Fails-bind (examine env.reply env.buffer env.recv_len t1) _
            (examine-Keeps env.reply env.buffer env.recv_len t1) (examined-Fails env ip)))))

sent-Keeps :
    (env : Env) (sock port_num address : ℕ) (made : Option (List ℕ × NtpTimestamp))
    → Keeps (send_made env sock port_num address made)
unfolding send_made
sent-Keeps env sock port_num address none = Keeps-pure none
sent-Keeps env sock port_num address (some (request, t1)) =
    Keeps-if (env.sendto sock request address port_num) _ _ (Keeps-pure (some t1)) (Keeps-pure none)

resolved-Keeps :
    (env : Env) (sock port_num : ℕ) (address : Option ℕ)
    → Keeps (send_resolved env sock port_num address)
unfolding send_resolved
resolved-Keeps env sock port_num none = Keeps-pure none
resolved-Keeps env sock port_num (some address) =
    Keeps-if (not env.set_timeout) _ _ (Keeps-pure none) (
      Keeps-bind _ _ Keeps-get (λ clock.
        Keeps-unless_fault
          (create_ntp_request clock.local_poll clock.local_precision env.t1 (some env.request))
          (send_made env sock port_num address) (sent-Keeps env sock port_num address)))

requested-Keeps :
    (env : Env) (sock : ℕ) (ip : List ℕ) (port : Option ℕ)
    → Keeps {A = Option NtpTimestamp} (elim port [
      | none ↦ pure none
      | some port_num ↦ send_resolved env sock port_num (env.getaddrinfo ip port_num)
    ])
requested-Keeps env sock ip none = Keeps-pure none
requested-Keeps env sock ip (some port_num) =
    resolved-Keeps env sock port_num (env.getaddrinfo ip port_num)

send_request-Keeps :
    (env : Env) (sock : ℕ) (ip port : List ℕ) → Keeps (send_request env sock ip port)
unfolding send_request
send_request-Keeps env sock ip port = requested-Keeps env sock ip (server_port env port)

get_sync_socket-Keeps : (env : Env) → Keeps (get_sync_socket env)
unfolding get_sync_socket Keeps
get_sync_socket-Keeps env d u = elim (Option-cases d.sockets.sync_sock) [
  | inl e ↦ rw e u
  | inr (sock, e) ↦ rw e u
]

answered-Fails :
    (env : Env) (ip port : List ℕ) (sent : Option NtpTimestamp)
    → Fails (elim sent [ none ↦ pure error | some t1 ↦ handle_reply env ip port t1 ])
answered-Fails env ip port none = Fails-error
answered-Fails env ip port (some t1) = handle_reply-Fails env ip port t1

opened-Fails :
    (env : Env) (ip port : List ℕ) (sock : Option ℕ)
    → Fails (elim sock [
      | none ↦ pure error
      | some fd ↦
          send_request env fd ip port
          >>= (λ sent. elim sent [ none ↦ pure error | some t1 ↦ handle_reply env ip port t1 ])
    ])
opened-Fails env ip port none = Fails-error
opened-Fails env ip port (some fd) =
    Fails-bind (send_request env fd ip port) _ (send_request-Keeps env fd ip port)
      (answered-Fails env ip port)

-- Called in a state where the clock is not synchronised, whatever the network, the server and the
-- operating system do: `sync_ntp_time` returns -1 with the clock not synchronised, or it faults, or it
-- never comes back. It never returns 0, and never makes the clock synchronised for anyone else to see.
pub sync_ntp_time-Fails :
    (env : Env) (ip port : Option (List ℕ)) → Fails (sync_ntp_time env ip port)
unfolding sync_ntp_time
sync_ntp_time-Fails env none port = Fails-error
sync_ntp_time-Fails env (some ip) none = Fails-error
sync_ntp_time-Fails env (some ip) (some port) =
    Fails-bind (get_sync_socket env) _ (get_sync_socket-Keeps env) (opened-Fails env ip port)
