-- ===== src/Algorithms/Selection.antt =====
-- The choice among peers of ntp_algorithms.c: outliers, jitter and the majority.
-- An array that is passed with its count is a list, which may be longer or shorter; null is not
-- modelled. A result `none` is a read or a store outside an array,
-- or a signed overflow. `qsort` puts the list in order.
pub mod Laws
pub mod Sorting
use dragon_ntpd.Base.{
  ℕ, zero, suc, ◌+◌, ◌-◌, ◌*◌, ◌/◌, ◌%◌, Bool, true, false, not, ◌||◌, ◌&&◌, ◌^◌, leb, List, [],
  ◌∷◌, Option, none, some, ltb, leb, ◌==◌, if◌then◌else◌, ◌>>=◌, Status, ok, error, length, take,
  get_elem?, get_or, min,
}
use dragon_ntpd.Base.Int.{ℤ, pos, negsuc, pos_part, neg_part, ◌+ℤ◌, ◌-ℤ◌, ◌/ℤ◌, ltb_ℤ, leb_ℤ, uint8}

abbrev pub falseticker_threshold : ℕ
falseticker_threshold = 250000

abbrev pub jitter_threshold : ℕ
jitter_threshold = 100000

abbrev pub max_peers : ℕ
max_peers = 8

unfoldable pub abs64 : ℤ → ℕ
abs64 v = if ltb_ℤ v (pos 0) then neg_part v else pos_part v

unfoldable pub insert : ℤ → List ℤ → List ℤ
insert x [] = x ∷ []
insert x (y ∷ ys) = let rest = insert x ys in if leb_ℤ x y then x ∷ y ∷ ys else y ∷ rest

unfoldable pub qsort : List ℤ → List ℤ
qsort [] = []
qsort (x ∷ xs) = insert x (qsort xs)

-- `sorted[count / 2]`
abbrev pub median_of : List ℤ → ℤ
median_of xs = get_or (qsort xs) (length xs / 2) (pos 0)

-- The distance of two offsets; none where the difference or its negation leaves 64 bits.
unfoldable pub distance : ℤ → ℤ → Option ℕ
unfolding abs64 ◌-ℤ◌
distance a b = let d = abs64 (a -ℤ b) in if ltb d (2 ^ 63) then some d else none

unfoldable pub is_false_ticker : ℤ → ℤ → Option Bool
unfolding distance
is_false_ticker peer_offset cluster_offset = do
  d ← distance peer_offset cluster_offset
  some (ltb falseticker_threshold d)

-- The second step of `select_best_peers`: the indices, from `i` on, of the offsets near the median.
unfoldable pub near_median : ℕ → List ℤ → ℤ → Option (List ℕ)
unfolding distance
near_median i [] median = some []
near_median i (x ∷ xs) median = do
  diff ← distance x median
  rest ← near_median (suc i) xs median
  some (if ltb diff falseticker_threshold then i ∷ rest else rest)

-- The third step: those of low jitter.
unfoldable pub low_jitter : List ℕ → List ℕ → Option (List ℕ)
low_jitter jitter [] = some []
low_jitter jitter (i ∷ is) = do
  peer_jitter ← get_elem? jitter i
  rest ← low_jitter jitter is
  some (if ltb jitter_threshold peer_jitter then rest else i ∷ rest)

-- The C result and `valid_indices` up to `valid_count`.
unfoldable pub select_best_peers : List ℤ → List ℕ → ℕ → Option (Status × List ℕ)
unfolding near_median low_jitter qsort
select_best_peers offsets jitter count =
    if ltb count 1
    then some (error, [])
    else let n = if ltb max_peers count then max_peers else count in
      let xs = take n offsets in
      if ltb (length offsets) n then none else (do
        near ← near_median 0 xs (median_of xs)
        chosen ← low_jitter jitter near
        some (ok, chosen))

-- The loop of `majority_vote`: the number of matches and the last one.
unfoldable pub count_matches : List ℤ → ℤ → ℕ × ℤ → Option (ℕ × ℤ)
unfolding distance
count_matches [] median r = some r
count_matches (x ∷ xs) median r = do
  d ← distance x median
  count_matches xs median (if ltb d falseticker_threshold then (suc r.0, x) else r)

-- The mean of two offsets that differ; none where their sum leaves 64 bits.
abbrev pub mean : ℤ → ℤ → Option ℤ
unfolding ◌+ℤ◌ ◌/ℤ◌
mean a b =
    if leb_ℤ a b && leb_ℤ b a
    then some a
    else if ltb (pos_part (a +ℤ b)) (2 ^ 63) && leb (neg_part (a +ℤ b)) (2 ^ 63)
    then some ((a +ℤ b) /ℤ 2)
    else none

unfoldable pub majority_vote : List ℤ → ℕ → Option ℤ
unfolding count_matches qsort ◌+ℤ◌ ◌/ℤ◌
majority_vote offsets count =
    if ltb count 1
    then some (pos 0)
    else if count == 1
    then get_elem? offsets 0
    else if ltb count 3
    then (do a ← get_elem? offsets 0; b ← get_elem? offsets 1; mean a b)
    else let xs = take count offsets in
      if ltb (length offsets) count || ltb max_peers count then none else (do
        (match_count, match_value) ← count_matches xs (median_of xs) (0, pos 0)
        some (if ltb (count / 2) match_count then match_value else median_of xs))

-- The loop that counts the peers that are no falsetickers.
unfoldable pub count_valid : List ℤ → ℤ → Option ℕ
unfolding is_false_ticker
count_valid [] median = some 0
count_valid (x ∷ xs) median = do
  far ← is_false_ticker x median
  rest ← count_valid xs median
  some (if far then rest else suc rest)

-- The majority offset cut to a signed byte.
abbrev pub clamp : ℤ → ℤ
clamp v = if ltb_ℤ (pos 127) v then pos 127 else if ltb_ℤ v (negsuc 127) then negsuc 127 else v

-- The result; `*best_idx` is 0 on every path.
unfoldable pub compute_system_offset : List ℤ → ℕ → Option ℕ
unfolding qsort
compute_system_offset offsets count =
    if ltb count 1
    then some 16
    else if ltb (length offsets) count || ltb max_peers count
    then none
    else (do
      valid ← count_valid (take count offsets) (median_of (take count offsets))
      (if valid == 0 then some 16 else (do
        majority_offset ← majority_vote offsets count
        some (uint8 (clamp majority_offset)))))
