-- ===== src/Precision/Laws.antt =====
-- Which precision the daemon reports for a resolution of the system's clock.
use dragon_ntpd.Base.{
  ℕ, zero, suc, ◌*◌, ◌/◌, ◌^◌, ◌≤◌, ◌<◌, ◌≡◌, refl, ap, sym, subst, ◌∙◌, false, some, ltb, leb,
  ◌==◌, if◌then◌else◌, inl, inr, Bool-cases, arith, ltb→lt, lt→ltb, not-ltb→le,
}
use native.Mathlib.Nat.{pow-suc}
use dragon_ntpd.Base.Int.{pos, neg, negsuc}
use dragon_ntpd.Precision.{bits, doublings, doubling_fuel, seconds_precision, get_system_precision}

shift : (ns x : ℕ) → ns * 2 * x ≡ ns * (x * 2)
shift ns x = ground arith

stopped : (n ns : ℕ) → ltb ns 1000000000 ≡ false → doublings n ns ≡ 0
unfolding doublings
stopped zero ns e = refl
stopped (suc n) ns e = rw e refl

move_two : (ns n : ℕ) → ns * 2 * 2 ^ n ≡ ns * 2 ^ suc n
move_two ns n = shift ns (2 ^ n) ∙ ap (λ x. ns * x) (sym (pow-suc 2 n))

-- Fuel enough to come to a second is fuel to stop right behind it.
doublings_lem :
    (n ns : ℕ)
    → ns < 1000000000
    → 1000000000 ≤ ns * 2 ^ n
    → (m : ℕ) × (doublings n ns ≡ suc m)
      × (ns * 2 ^ m < 1000000000)
      × (1000000000 ≤ ns * 2 ^ suc m)
      × (m < n)
unfolding doublings
doublings_lem zero ns h e = absurd (omega arith)
doublings_lem (suc n) ns h e = elim (Bool-cases (ltb (ns * 2) 1000000000)) [
  | inl more ↦
      let (m, d, low, high, le) =
        doublings_lem n (ns * 2) (ltb→lt _ _ more)
          (subst (λ x. 1000000000 ≤ x) (sym (move_two ns n)) e) in
      (
        suc m,
        rw (lt→ltb ns 1000000000 h) (ap suc d),
        subst (λ x. x < 1000000000) (move_two ns m) low,
        subst (λ x. 1000000000 ≤ x) (move_two ns (suc m)) high,
        omega arith,
      )
  | inr less ↦ (
    zero,
    rw (lt→ltb ns 1000000000 h) (ap suc (stopped n (ns * 2) less)),
    omega arith,
    not-ltb→le (ns * 2) 1000000000 less,
    omega arith,
  )
]

bits_zero : (n : ℕ) → bits n 0 ≡ 0
unfolding bits
bits_zero zero = refl
bits_zero (suc n) = refl

le→not-leb : (s : ℕ) → 0 < s → leb s 0 ≡ false
le→not-leb s h = ground arith

half_zero : (s : ℕ) → s / 2 ≤ 0 → s / 2 ≡ 0
half_zero s h = omega arith

positive : (n : ℕ) → 0 < n → (n == 0) ≡ false
positive n h = ground arith

neg_suc : (m : ℕ) → neg (suc m) ≡ negsuc m
neg_suc m = ground arith

limit : (p : ℕ) → seconds_precision (suc p) ≡ (if ltb p 6 then negsuc p else pos 6)
limit p = ground arith

bits_lem : (n s : ℕ) → 0 < s → s ≤ n → (m : ℕ) × (bits n s ≡ suc m) × (2 ^ m ≤ s) × (s < 2 ^ suc m)
unfolding bits
bits_lem zero s h e = absurd (omega arith)
bits_lem (suc n) s h e = elim (Bool-cases (ltb 0 (s / 2))) [
  | inl more ↦
      let (m, b, low, high) = bits_lem n (s / 2) (ltb→lt _ _ more) (omega arith) in
      (
        suc m,
        rw (le→not-leb s h) (ap suc b),
        rw (pow-suc 2 m) (omega arith),
        rw (pow-suc 2 (suc m)) (omega arith),
      )
  | inr last ↦ (
    zero,
    rw (le→not-leb s h) (
        ap suc (
          subst (λ x. bits n x ≡ 0) (sym (half_zero s (not-ltb→le 0 (s / 2) last))) (bits_zero n))),
    omega arith,
    omega (arith, not-ltb→le 0 (s / 2) last),
  )
]

-- With a resolution of nsec nanoseconds, below a second, the precision is the exponent with
-- 2 ^ precision at most the resolution and below twice its value, and the loop that finds it ends. A
-- resolution of 64 seconds or more has the precision 6, and one of sec seconds below is reported as a
-- negative exponent too: minus the number of its bits.
pub get_system_precision_lem :
    (nsec sec rest : ℕ)
    → 0 < nsec
    → nsec < 1000000000
    → 0 < sec
    → ((m : ℕ) × (get_system_precision (some (0, nsec)) ≡ negsuc m)
        × (nsec * 2 ^ m < 1000000000)
        × (1000000000 ≤ nsec * 2 ^ suc m))
      × ((m : ℕ) × (2 ^ m ≤ sec)
          × (sec < 2 ^ suc m)
          × (get_system_precision (some (sec, rest)) ≡ (if ltb m 6 then negsuc m else pos 6)))
unfolding get_system_precision
get_system_precision_lem nsec sec rest h below some_sec =
    let (m, d, low, high, le) = doublings_lem doubling_fuel nsec below (omega arith) in
    let (p, b, least, most) = bits_lem sec sec some_sec (omega arith) in
    (
      (m, rw (positive nsec h, d) (neg_suc m), low, high),
      (p, least, most, rw (lt→ltb 0 sec some_sec, b) (limit p)),
    )
