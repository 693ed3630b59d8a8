-- ===== src/Examples/Synchronisation.antt =====
-- Concrete replies to time_sync.c, and samples of filter.c.
use dragon_ntpd.Base.{ℕ, ◌≡◌, refl, List, [], ◌∷◌, ◌++◌, some, none, replicate, true, ok}
use dragon_ntpd.Base.Int.{pos}
use dragon_ntpd.Base.Lock.{done, free}
use dragon_ntpd.Examples.Negotiation.{idle}
use dragon_ntpd.Examples.Packets.{cleared}
use dragon_ntpd.Examples.Limits.{client}
use dragon_ntpd.Examples.Clock.{world, ready}
use dragon_ntpd.Examples.Requests.{clock, sockets, env, everyone}
use dragon_ntpd.Packet.{ntp_is_kod}
use dragon_ntpd.Filter.{NtpSample, marx_add_sample_us, marx_median, bubble_sort, bubble}
use dragon_ntpd.Filter.Outliers.{
  marx_filter_outliers, threshold_of, filter_loop, remove_slot, scaled,
}
use dragon_ntpd.Ido.{IdoState}
use dragon_ntpd.Packet.{NtpPacket, NtpTimestamp}
use dragon_ntpd.Packet.Parse.{parse_ntp_packet}
use dragon_ntpd.Daemon.{Daemon, returns, waits}
use dragon_ntpd.Daemon.Unsynced.{Fails}
use dragon_ntpd.Server.Laws.{at_rest}
use dragon_ntpd.Correction.{Os}
use dragon_ntpd.Packet.Extension.{skip_extension_fields, skip_loop, parse_extension_field_header}
use dragon_ntpd.Packet.Parse.{read_header, read_timestamp, read_mac, header_accepted}
use dragon_ntpd.Bytes.{read_u32be}
use dragon_ntpd.Leap.{handle_leap_indicator}
use dragon_ntpd.Algorithms.{
  ntp_timestamp_to_ns, calculate_delay_offset, ntp_local_stratum_from_peer,
}
use dragon_ntpd.Algorithms.Selection.{
  compute_system_offset, majority_vote, count_valid, insert, qsort, is_false_ticker,
}
use dragon_ntpd.Sync.Examine.{examine_packet, examine_sample}
use dragon_ntpd.Sync.{Env, sync_ntp_time}
use dragon_ntpd.Sync.Commit.{Discipline, commit}
use dragon_ntpd.Sync.Deadlock.{commit-waits}
use dragon_ntpd.Sync.Examine.{Reply, Accepted, accepted, examine}
use dragon_ntpd.Sync.Acceptance.{Acceptable, examine-Acceptable}
use dragon_ntpd.Sync.Laws.{sync_ntp_time-Fails}

abbrev sent : NtpTimestamp
sent = record { sec = 3900000000; frac = 7 }

abbrev stamp : List ℕ
stamp = 232 ∷ 117 ∷ 71 ∷ 0 ∷ 0 ∷ 0 ∷ 0 ∷ 7 ∷ []

-- A server of stratum 2 whose clock stands like ours.
abbrev server_answer : List ℕ
server_answer = 36 ∷ 2 ∷ 6 ∷ 236 ∷ replicate 20 0 ++ stamp ++ stamp ++ stamp

abbrev reply : Reply
reply = record { t4 = sent; pkt = cleared; world = world 1000; gettimeofday = some (1000, 0) }

abbrev samples : List NtpSample
samples =
    record { ts = 1; delay = 9; offset = pos 0 }
    ∷ record { ts = 2; delay = 1; offset = pos 0 }
    ∷ record { ts = 3; delay = 2; offset = pos 0 }
    ∷ []

abbrev pub begun : Daemon
begun = at_rest idle everyone ready clock sockets

abbrev acceptance : Accepted
acceptance = record {
  li = 0;
  stratum = 3;
  peer_poll = pos 6;
  delay_us = 0;
  offset_us = pos 0;
  t4 = sent;
}

-- The sample of the reply is in the filter.
abbrev with_sample : Daemon
with_sample =
    at_rest idle everyone ready
      (record clock { samples = record { ts = 1000000000000; delay = 0; offset = pos 0 } ∷ [] })
      sockets

examined : examine reply server_answer 48 sent begun ≡ returns (accepted acceptance) with_sample
unfolding examine parse_ntp_packet skip_extension_fields skip_loop parse_extension_field_header
    ntp_is_kod read_header read_timestamp read_u32be read_mac header_accepted examine_packet
    handle_leap_indicator calculate_delay_offset examine_sample compute_system_offset
    marx_filter_outliers ntp_local_stratum_from_peer majority_vote count_valid insert qsort
    is_false_ticker ntp_timestamp_to_ns marx_add_sample_us
examined = refl

acceptance_example :
    (pkt : NtpPacket) × (ido : IdoState) × (parse_ntp_packet idle (some server_answer) 48 cleared
      ≡ some (true, pkt, ido))
    × Acceptable reply sent pkt acceptance
acceptance_example =
    examine-Acceptable reply sent server_answer 48 begun with_sample acceptance examined

abbrev discipline : Discipline
discipline = record {
  deviation = λ samples. 0;
  update_frequency = λ k offset poll jitter. ok;
  dispersion = λ elapsed offset jitter. 0;
  now = 1000;
  inet_pton = λ text. none;
  leap_correction = λ offset. ok;
}

abbrev os : Os
os = record { clock_gettime = some (1000, 0); clock_settime = λ s ns. ok; adjtime = λ s us. ok }

commit_example : commit discipline os (world 1000) client acceptance begun ≡ waits
commit_example = commit-waits discipline os (world 1000) client acceptance begun

abbrev pub exchange : Env
exchange = record {
  family_preference = 0;
  net4 = env.net;
  net6 = env.net;
  strtol = λ text. pos 123;
  errno = 0;
  getaddrinfo = λ ip port. some 77;
  set_timeout = true;
  t1 = sent;
  request = replicate 48 0;
  sendto = λ sock request address port. true;
  time = 1000;
  buffer = server_answer;
  recv_len = 48;
  reply = reply;
  os = os;
  discipline = discipline;
}

exchange_example : Fails (sync_ntp_time exchange (some client) (some (b'1' ∷ [])))
exchange_example = sync_ntp_time-Fails exchange (some client) (some (b'1' ∷ []))

-- Delays 9, 1 and 2: the first is above the threshold 5 and is removed, which moves the second out of the
-- loop's way; the sample of delay 1 is lost and that of delay 2 is there twice.
outliers_run :
    marx_filter_outliers 3 (free samples)
    ≡ done 2 (
        free (
          record { ts = 3; delay = 2; offset = pos 0 }
          ∷ record { ts = 3; delay = 2; offset = pos 0 }
          ∷ []))
unfolding marx_filter_outliers marx_median bubble_sort bubble filter_loop remove_slot threshold_of
    scaled
outliers_run = refl
