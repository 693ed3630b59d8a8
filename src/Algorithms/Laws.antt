-- ===== src/Algorithms/Laws.antt =====
-- What the calculations of ntp_algorithms.c come to.
use dragon_ntpd.Base.{
  ℕ, ◌+◌, ◌-◌, ◌*◌, ◌/◌, ◌^◌, ◌<◌, ◌≡◌, min, Option, none, some, ltb, leb, if◌then◌else◌, arith,
}
use dragon_ntpd.Base.Int.{
  ℤ, pos, neg, sub_ℕ, pos_part, neg_part, ◌+ℤ◌, ◌-ℤ◌, ◌/ℤ◌, ltb_ℤ, +ℤ_parts, -ℤ_parts, eq_of_parts,
}
use dragon_ntpd.Packet.{NtpTimestamp}
use dragon_ntpd.Packet.Request.{IsStamp}
use dragon_ntpd.Correction.{times}
use dragon_ntpd.Algorithms.{
  epoch_delta, ntp_timestamp_to_ns, calculate_delay_offset, ntp_u16_16_from_us,
  calculate_network_quality,
}

-- Nanoseconds since 1900, to the whole nanosecond below.
abbrev pub ns_of : NtpTimestamp → ℕ
ns_of t = t.sec * 1000000000 + t.frac * 1000000000 / 2 ^ 32

-- For a 32-bit timestamp `ntp_timestamp_to_ns` is the time since 1970 in nanoseconds, before 1970 as a
-- negative number: neither clamp applies.
pub ntp_timestamp_to_ns_lem :
    (t : NtpTimestamp)
    → IsStamp t
    → ntp_timestamp_to_ns t ≡ sub_ℕ (ns_of t) (epoch_delta * 1000000000)
unfolding ntp_timestamp_to_ns times ◌+ℤ◌ ◌-ℤ◌
ntp_timestamp_to_ns_lem t h = ground arith

-- `ntp_u16_16_from_us` is the number of 65536ths of a second, cut off at the largest 32-bit value, for
-- every 64-bit number of microseconds.
pub ntp_u16_16_from_us_lem :
    (us : ℕ) → us < 2 ^ 64 → ntp_u16_16_from_us us ≡ min (us * 65536 / 1000000) (2 ^ 32 - 1)
unfolding ntp_u16_16_from_us
ntp_u16_16_from_us_lem us h = ground arith

pub calculate_network_quality_lem :
    (delay : ℕ) → calculate_network_quality delay ≡ 100 - delay / 1000
unfolding calculate_network_quality ◌-ℤ◌
calculate_network_quality_lem delay = ground arith

sub_parts : (a b : ℕ) → pos_part (sub_ℕ a b) + b ≡ neg_part (sub_ℕ a b) + a
sub_parts a b = ground arith

delay_of :
    (a₁ a₂ a₃ a₄ d : ℕ)
    → (sub_ℕ a₄ d -ℤ sub_ℕ a₁ d) -ℤ (sub_ℕ a₃ d -ℤ sub_ℕ a₂ d) ≡ sub_ℕ (a₄ + a₂) (a₁ + a₃)
delay_of a₁ a₂ a₃ a₄ d =
    let x₁ = sub_ℕ a₁ d in
    let x₂ = sub_ℕ a₂ d in
    let x₃ = sub_ℕ a₃ d in
    let x₄ = sub_ℕ a₄ d in
    eq_of_parts ((x₄ -ℤ x₁) -ℤ (x₃ -ℤ x₂)) (sub_ℕ (a₄ + a₂) (a₁ + a₃)) (
      omega (
        arith,
        sub_parts a₁ d,
        sub_parts a₂ d,
        sub_parts a₃ d,
        sub_parts a₄ d,
        sub_parts (a₄ + a₂) (a₁ + a₃),
        -ℤ_parts x₄ x₁,
        -ℤ_parts x₃ x₂,
        -ℤ_parts (x₄ -ℤ x₁) (x₃ -ℤ x₂),
      ))

offset_sum :
    (a₁ a₂ a₃ a₄ d : ℕ)
    → (sub_ℕ a₂ d -ℤ sub_ℕ a₁ d) +ℤ (sub_ℕ a₃ d -ℤ sub_ℕ a₄ d) ≡ sub_ℕ (a₂ + a₃) (a₁ + a₄)
offset_sum a₁ a₂ a₃ a₄ d =
    let x₁ = sub_ℕ a₁ d in
    let x₂ = sub_ℕ a₂ d in
    let x₃ = sub_ℕ a₃ d in
    let x₄ = sub_ℕ a₄ d in
    eq_of_parts ((x₂ -ℤ x₁) +ℤ (x₃ -ℤ x₄)) (sub_ℕ (a₂ + a₃) (a₁ + a₄)) (
      omega (
        arith,
        sub_parts a₁ d,
        sub_parts a₂ d,
        sub_parts a₃ d,
        sub_parts a₄ d,
        sub_parts (a₂ + a₃) (a₁ + a₄),
        -ℤ_parts x₂ x₁,
        -ℤ_parts x₃ x₄,
        +ℤ_parts (x₂ -ℤ x₁) (x₃ -ℤ x₄),
      ))

-- Half the difference, in microseconds, towards zero at each division.
abbrev pub half_in_us : ℕ → ℕ → ℤ
half_in_us a b = if leb b a then pos ((a - b) / 2 / 1000) else neg ((b - a) / 2 / 1000)

halved : (a b : ℕ) → (sub_ℕ a b /ℤ 2) /ℤ 1000 ≡ half_in_us a b
unfolding ◌/ℤ◌
halved a b = ground arith

-- The result by the nanoseconds of the four timestamps.
abbrev pub on_wire : ℕ → ℕ → ℕ → ℕ → Option (ℕ × ℤ)
on_wire n₁ n₂ n₃ n₄ =
    if ltb (n₄ + n₂) (n₁ + n₃)
    then none
    else some ((n₄ + n₂ - (n₁ + n₃)) / 1000, half_in_us (n₂ + n₃) (n₁ + n₄))

abbrev computed : ℤ → ℤ → Option (ℕ × ℤ)
computed delay_ns sum =
    if ltb_ℤ delay_ns (pos 0) then none else some (pos_part (delay_ns /ℤ 1000), (sum /ℤ 2) /ℤ 1000)

computed-eq :
    (n₁ n₂ n₃ n₄ : ℕ)
    → computed (sub_ℕ (n₄ + n₂) (n₁ + n₃)) (sub_ℕ (n₂ + n₃) (n₁ + n₄)) ≡ on_wire n₁ n₂ n₃ n₄
unfolding ◌/ℤ◌
computed-eq n₁ n₂ n₃ n₄ = rw (halved (n₂ + n₃) (n₁ + n₄)) (ground arith)

-- The on-wire calculation of RFC 5905, section 8, on 32-bit timestamps, in terms of their nanoseconds.
-- The result is false exactly if the round trip would be negative. Else the delay is the time that the
-- request was under way less the time that the server kept it, and the offset is half of what the
-- server's two times are ahead of the client's; both in whole microseconds, the offset towards zero.
-- The sums between stay below 2 ^ 63, the range of the code's integers.
pub calculate_delay_offset_lem :
    (t1 t2 t3 t4 : NtpTimestamp)
    → IsStamp t1
    → IsStamp t2
    → IsStamp t3
    → IsStamp t4
    → (calculate_delay_offset t1 t2 t3 t4 ≡ on_wire (ns_of t1) (ns_of t2) (ns_of t3) (ns_of t4))
      × (ns_of t4 + ns_of t2 < 2 ^ 63)
      × (ns_of t1 + ns_of t3 < 2 ^ 63)
      × (ns_of t2 + ns_of t3 < 2 ^ 63)
      × (ns_of t1 + ns_of t4 < 2 ^ 63)
unfolding calculate_delay_offset
calculate_delay_offset_lem t1 t2 t3 t4 h1 h2 h3 h4 = (
  rw
      (
        ntp_timestamp_to_ns_lem t1 h1,
        ntp_timestamp_to_ns_lem t2 h2,
        ntp_timestamp_to_ns_lem t3 h3,
        ntp_timestamp_to_ns_lem t4 h4,
        delay_of (ns_of t1) (ns_of t2) (ns_of t3) (ns_of t4) (epoch_delta * 1000000000),
        offset_sum (ns_of t1) (ns_of t2) (ns_of t3) (ns_of t4) (epoch_delta * 1000000000),
      )
      (computed-eq (ns_of t1) (ns_of t2) (ns_of t3) (ns_of t4)),
  omega arith,
  omega arith,
  omega arith,
  omega arith,
)
