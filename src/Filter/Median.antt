-- ===== src/Filter/Median.antt =====
-- That `marx_median` of filter.c sorts, and what it returns.
use dragon_ntpd.Base.{
  ℕ, zero, suc, ◌+◌, ◌-◌, ◌/◌, ◌%◌, ◌≤◌, ◌≡◌, refl, ap, subst, Bool, true, false, List, [], ◌∷◌,
  ◌++◌, ltb, ◌==◌, if◌then◌else◌, length, length-append, get_or, arith, Bool-cases, inl, inr,
}
use mathlib.Core.List.{append-nil}
use dragon_ntpd.Filter.{bubble, bubble_sort, marx_median}

abbrev pub Sorted : List ℕ → Type 0
Sorted [] = Unit
Sorted (x ∷ []) = Unit
Sorted (x ∷ y ∷ xs) = (x ≤ y) × Sorted (y ∷ xs)

-- How often a value stands in a list.
abbrev pub occurrences : ℕ → List ℕ → ℕ
occurrences v [] = 0
occurrences v (x ∷ xs) = (if x == v then 1 else 0) + occurrences v xs

occurrences-append :
    (v : ℕ) (xs ys : List ℕ) → occurrences v (xs ++ ys) ≡ occurrences v xs + occurrences v ys
occurrences-append v [] ys = omega arith
occurrences-append v (x ∷ xs) ys = omega (arith, occurrences-append v xs ys)

abbrev Bounded : ℕ → List ℕ → Type 0
Bounded b [] = Unit
Bounded b (x ∷ xs) = (x ≤ b) × Bounded b xs

-- A round over `x ∷ zs`: what is behind stays, and the greatest element comes last.
record Round (x : ℕ) (zs back : List ℕ) (result : List ℕ) : Type 0 where
  low : List ℕ
  top : ℕ
  shape : result ≡ low ++ top ∷ back
  size : length low ≡ length zs
  bounded : Bounded top low
  first : x ≤ top
  bounds : (b : ℕ) → x ≤ b → Bounded b zs → (top ≤ b) × Bounded b low
  same : (v : ℕ) → occurrences v (low ++ top ∷ []) ≡ occurrences v (x ∷ zs)

bubble-Round :
    (n x : ℕ) (zs back : List ℕ) → length zs ≡ n → Round x zs back (bubble n (x ∷ zs ++ back))
unfolding bubble
bubble-Round zero x [] back h = record {
  low = [];
  top = x;
  shape = refl;
  size = refl;
  bounded = tt;
  first = omega arith;
  bounds = λ b l _. (l, tt);
  same = λ v. refl;
}
bubble-Round zero x (z ∷ zs) back h = absurd (omega arith)
bubble-Round (suc n) x [] back h = absurd (omega arith)
bubble-Round (suc n) x (z ∷ zs) back h = elim (Bool-cases (ltb z x)) [
  | inl above ↦
      let r = bubble-Round n x zs back (omega arith) in
      record {
        low = z ∷ r.low;
        top = r.top;
        shape = rw above (ap (λ ys. z ∷ ys) r.shape);
        size = omega (arith, r.size);
        bounded = (ground (arith, r.first), r.bounded);
        first = r.first;
        bounds = λ b l zb. (let (t, lo) = r.bounds b l zb.1 in (t, (zb.0, lo)));
        same = λ v. omega (arith, r.same v);
      }
  | inr below ↦
      let r = bubble-Round n z zs back (omega arith) in
      record {
        low = x ∷ r.low;
        top = r.top;
        shape = rw below (ap (λ ys. x ∷ ys) r.shape);
        size = omega (arith, r.size);
        bounded = (ground (arith, r.first), r.bounded);
        first = ground (arith, r.first);
        bounds = λ b l zb. (let (t, lo) = r.bounds b zb.0 zb.1 in (t, (l, lo)));
        same = λ v. omega (arith, r.same v);
      }
]

abbrev Below : List ℕ → List ℕ → Type 0
Below xs [] = Unit
Below xs (b ∷ back) = Bounded b xs

top-Sorted :
    {x : ℕ} {zs result : List ℕ} (back : List ℕ) (r : Round x zs back result)
    → Below (x ∷ zs) back
    → Sorted back
    → Sorted (r.top ∷ back)
top-Sorted [] r below s = tt
top-Sorted (b ∷ back) r below s = ((r.bounds b below.0 below.1).0, s)

record Sorts (xs result : List ℕ) : Type 0 where
  sorted : Sorted result
  same : (v : ℕ) → occurrences v result ≡ occurrences v xs
  size : length result ≡ length xs

bubble_sort-Sorts :
    (k : ℕ) (front back : List ℕ)
    → length front ≡ suc k
    → Below front back
    → Sorted back
    → Sorts (front ++ back) (bubble_sort k (front ++ back))
unfolding bubble_sort
bubble_sort-Sorts k [] back h below s = absurd (omega arith)
bubble_sort-Sorts zero (x ∷ []) [] h below s = record { sorted = tt; same = λ v. refl; size = refl }
bubble_sort-Sorts zero (x ∷ []) (b ∷ back) h below s = record {
  sorted = (below.0, s);
  same = λ v. refl;
  size = refl;
}
bubble_sort-Sorts zero (x ∷ y ∷ zs) back h below s = absurd (omega arith)
bubble_sort-Sorts (suc k) (x ∷ zs) back h below s =
    let r = bubble-Round (suc k) x zs back (omega arith) in
    let rest =
      bubble_sort-Sorts k r.low (r.top ∷ back) (omega (arith, r.size)) r.bounded
        (top-Sorted back r below s) in
    rw r.shape record {
      sorted = rest.sorted;
      same = λ v. omega (
        arith,
        rest.same v,
        r.same v,
        occurrences-append v r.low (r.top ∷ back),
        occurrences-append v r.low (r.top ∷ []),
        occurrences-append v zs back,
      );
      size =
          omega
            (arith, rest.size, r.size, length-append r.low (r.top ∷ back), length-append zs back);
    }

halves : (n : ℕ) → (if (suc n) % 2 == 0 then suc n / 2 - 1 else suc n / 2) ≡ n / 2
halves n = ground arith

pick :
    (b : Bool) (xs : List ℕ) (i j : ℕ)
    → (if b then get_or xs i 0 else get_or xs j 0) ≡ get_or xs (if b then i else j) 0
pick true xs i j = refl
pick false xs i j = refl

-- For every array of one element or more, `marx_median` leaves in it the same elements, each as often as
-- before, in order, and returns the middle one, for an even count the lower of the two in the middle.
pub marx_median_lem :
    (x : ℕ) (xs : List ℕ) (v : ℕ)
    → (sorted : List ℕ) × (marx_median (x ∷ xs) ≡ (get_or sorted (length xs / 2) 0, sorted))
      × Sorted sorted
      × (length sorted ≡ suc (length xs))
      × (occurrences v sorted ≡ occurrences v (x ∷ xs))
unfolding marx_median
marx_median_lem x xs v =
    let sorts =
      subst (λ l. Sorts l (bubble_sort (length xs) l)) (append-nil (x ∷ xs))
        (bubble_sort-Sorts (length xs) (x ∷ xs) [] refl tt tt) in
    (bubble_sort (length xs) (x ∷ xs), run, sorts.sorted, sorts.size, sorts.same v)
  where
    run : marx_median (x ∷ xs) ≡ (
      get_or (bubble_sort (length xs) (x ∷ xs)) (length xs / 2) 0,
      bubble_sort (length xs) (x ∷ xs),
    )
    run =
        let n = length xs in
        let sorted = bubble_sort n (x ∷ xs) in
        let not_empty : (suc n == 0) ≡ false = ground arith in
        let rounds : suc n - 1 ≡ n = omega arith in
        rw (not_empty, rounds, pick (suc n % 2 == 0) sorted (suc n / 2 - 1) (suc n / 2), halves n)
          refl
