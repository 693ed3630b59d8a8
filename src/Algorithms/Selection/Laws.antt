-- ===== src/Algorithms/Selection/Laws.antt =====
-- What the choice among peers guarantees.
use dragon_ntpd.Base.{
  ℕ, zero, suc, ◌+◌, ◌/◌, ◌≤◌, ◌<◌, ◌≡◌, refl, ◌⊎◌, inl, inr, ◌∙◌, ◌^◌, sym, ap, subst, min, true,
  false, ◌&&◌, List, [], ◌∷◌, some, ltb, leb, if◌then◌else◌, ◌>>=◌, arith, Bool-cases, length,
  length-take, take, get_or, get_elem?-eq-get_or, ok,
}
use dragon_ntpd.Base.Int.{ℤ, pos, ◌-ℤ◌, pos_part, neg_part}
use dragon_ntpd.Algorithms.Selection.{
  abs64, insert, qsort, median_of, near_median, low_jitter, select_best_peers, distance,
}
use dragon_ntpd.Algorithms.Selection.Sorting.{Ascending, count_of, count_of-qsort, qsort-Ascending}

-- The peers by one pass: near the median and of low jitter.
abbrev pub good_peers : List ℕ → ℕ → List ℤ → ℤ → List ℕ
good_peers jitter i [] median = []
good_peers jitter i (x ∷ xs) median =
    let rest = good_peers jitter (suc i) xs median in
    if ltb (abs64 (x -ℤ median)) 250000 && leb (get_or jitter i 0) 100000 then i ∷ rest else rest

abbrev In : ℤ → List ℤ → Type 0
In a [] = ⊥
In a (x ∷ xs) = (a ≡ x) ⊎ In a xs

In-get_or : (xs : List ℤ) (k : ℕ) (d : ℤ) → k < length xs → In (get_or xs k d) xs
In-get_or [] k d h = absurd (omega arith)
In-get_or (x ∷ xs) zero d h = inl refl
In-get_or (x ∷ xs) (suc k) d h = inr (In-get_or xs k d (omega arith))

-- What stands in the sorted list stands in the list.
In-insert : (a x : ℤ) (ys : List ℤ) → In a (insert x ys) → (a ≡ x) ⊎ In a ys
unfolding insert
In-insert a x [] h = h
In-insert a x (y ∷ ys) h = ground (arith, h, In-insert a x ys)

In-qsort : (a : ℤ) (xs : List ℤ) → In a (qsort xs) → In a xs
unfolding qsort
In-qsort a [] h = h
In-qsort a (x ∷ xs) h = elim (In-insert a x (qsort xs) h) [
  | inl e ↦ inl e
  | inr rest ↦ inr (In-qsort a xs rest)
]

length-insert : (x : ℤ) (ys : List ℤ) → length (insert x ys) ≡ suc (length ys)
unfolding insert
length-insert x [] = refl
length-insert x (y ∷ ys) = ground (arith, length-insert x ys)

length-qsort : (xs : List ℤ) → length (qsort xs) ≡ length xs
unfolding qsort
length-qsort [] = refl
length-qsort (x ∷ xs) = length-insert x (qsort xs) ∙ ap suc (length-qsort xs)

In-median_of : (xs : List ℤ) → 1 ≤ length xs → In (median_of xs) xs
In-median_of xs some_left =
    In-qsort (median_of xs) xs
      (In-get_or (qsort xs) (length xs / 2) (pos 0) (omega (arith, length-qsort xs)))

-- An offset of less than 2 ^ 62 microseconds, in either direction.
abbrev pub IsModest : ℤ → Type 0
IsModest x = (pos_part x < 2 ^ 62) × (neg_part x < 2 ^ 62)

abbrev pub AllModest : List ℤ → Type 0
AllModest [] = Unit
AllModest (x ∷ xs) = IsModest x × AllModest xs

AllModest-take : (n : ℕ) (xs : List ℤ) → AllModest xs → AllModest (take n xs)
AllModest-take zero xs h = tt
AllModest-take (suc n) [] h = tt
AllModest-take (suc n) (x ∷ xs) h = (h.0, AllModest-take n xs h.1)

In-IsModest : (a : ℤ) (xs : List ℤ) → In a xs → AllModest xs → IsModest a
In-IsModest a [] here h = absurd here
In-IsModest a (x ∷ xs) (inl e) h = subst IsModest (sym e) h.0
In-IsModest a (x ∷ xs) (inr rest) h = In-IsModest a xs rest h.1

distance-some : (a b : ℤ) → IsModest a → IsModest b → distance a b ≡ some (abs64 (a -ℤ b))
unfolding distance abs64 ◌-ℤ◌
distance-some a b p q = ground arith

-- The indices of the offsets near the median, by exact distances.
abbrev near_peers : ℕ → List ℤ → ℤ → List ℕ
near_peers i [] median = []
near_peers i (x ∷ xs) median =
    let rest = near_peers (suc i) xs median in
    if ltb (abs64 (x -ℤ median)) 250000 then i ∷ rest else rest

near_median-some :
    (i : ℕ) (xs : List ℤ) (median : ℤ)
    → AllModest xs
    → IsModest median
    → near_median i xs median ≡ some (near_peers i xs median)
unfolding near_median
near_median-some i [] median all m = refl
near_median-some i (x ∷ xs) median all m =
    rw (distance-some x median all.0 m, near_median-some (suc i) xs median all.1 m, ◌>>=◌) refl

two_passes :
    (jitter : List ℕ) (i : ℕ) (xs : List ℤ) (median : ℤ)
    → i + length xs ≤ length jitter
    → low_jitter jitter (near_peers i xs median) ≡ some (good_peers jitter i xs median)
unfolding low_jitter
two_passes jitter i [] median h = refl
two_passes jitter i (x ∷ xs) median h =
    let read = get_elem?-eq-get_or jitter i 0 (omega arith) in
    let rest = two_passes jitter (suc i) xs median (omega arith) in
    elim (Bool-cases (ltb (abs64 (x -ℤ median)) 250000)) [
      | inr far ↦ rw far rest
      | inl near ↦ elim (Bool-cases (ltb 100000 (get_or jitter i 0))) [
        | inl noisy ↦
            let out : leb (get_or jitter i 0) 100000 ≡ false = ground arith in
            rw (near, out, read, ◌>>=◌, rest, noisy) refl
        | inr quiet ↦
            let kept : leb (get_or jitter i 0) 100000 ≡ true = ground arith in
            rw (near, kept, read, ◌>>=◌, rest, quiet) refl
      ]
    ]

-- `select_best_peers` for one peer or more, eight at most that count, with offsets of less than 2 ^ 62
-- microseconds and jitters for all of them. It succeeds, and its indices are those of the peers whose
-- offset is less than 250000 away from the median and whose jitter is at most 100000, in the order of the
-- peers and not of their jitters. The median is the element at the place count / 2 of a list that is in
-- ascending order and has each offset as often as the peers have it.
pub select_best_peers_lem :
    (offsets : List ℤ) (jitter : List ℕ) (count : ℕ)
    → 1 ≤ count
    → min count 8 ≤ length offsets
    → min count 8 ≤ length jitter
    → AllModest offsets
    → let xs = take (min count 8) offsets in
      (sorted : List ℤ) × (median : ℤ) × Ascending sorted
      × ((v : ℤ) → count_of v sorted ≡ count_of v xs)
      × (length sorted ≡ min count 8)
      × (median ≡ get_or sorted (min count 8 / 2) (pos 0))
      × (select_best_peers offsets jitter count ≡ some (ok, good_peers jitter 0 xs median))
unfolding select_best_peers
select_best_peers_lem offsets jitter count one enough jitters modest = (
  qsort xs,
  median_of xs,
  qsort-Ascending xs,
  (λ v. count_of-qsort v xs),
  length-qsort xs ∙ len,
  ap (λ k. get_or (qsort xs) (k / 2) (pos 0)) len,
  chosen,
)
  where
    n : ℕ
    n = min count 8

    xs : List ℤ
    xs = take n offsets

    len : length xs ≡ n
    len = omega (arith, length-take n offsets)

    cut : (if ltb 8 count then 8 else count) ≡ n
    cut = ground arith

    median-IsModest : IsModest (median_of xs)
    median-IsModest =
        In-IsModest (median_of xs) xs (In-median_of xs (omega (arith, len)))
          (AllModest-take n offsets modest)

    chosen :
        select_best_peers offsets jitter count ≡ some (ok, good_peers jitter 0 xs (median_of xs))
    chosen =
        let positive : ltb count 1 ≡ false = ground arith in
        let full : ltb (length offsets) n ≡ false = ground arith in
        rw
          (
            positive,
            cut,
            full,
            near_median-some 0 xs (median_of xs) (AllModest-take n offsets modest) median-IsModest,
            ◌>>=◌,
            two_passes jitter 0 xs (median_of xs) (omega (arith, length-take n offsets)),
          )
          refl
