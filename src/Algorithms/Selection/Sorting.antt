-- ===== src/Algorithms/Selection/Sorting.antt =====
-- That the order that `qsort` makes of the offsets is sorted, and which offset is the median.
use dragon_ntpd.Base.{
  ℕ, ◌+◌, ◌≡◌, refl, ◌∙◌, true, false, List, [], ◌∷◌, if◌then◌else◌, arith, Bool-cases, Bool, ◌&&◌,
  ◌==◌, inl, inr,
}
use dragon_ntpd.Base.Int.{ℤ, pos_part, neg_part, leb_ℤ, ◌≤ℤ◌}
use dragon_ntpd.Algorithms.Selection.{insert, qsort}

abbrev pub Ascending : List ℤ → Type 0
Ascending [] = Unit
Ascending (x ∷ []) = Unit
Ascending (x ∷ y ∷ xs) = (x ≤ℤ y) × Ascending (y ∷ xs)

abbrev pub same_number : ℤ → ℤ → Bool
same_number a b = (pos_part a == pos_part b) && (neg_part a == neg_part b)

-- How often an offset stands in a list.
abbrev pub count_of : ℤ → List ℤ → ℕ
count_of v [] = 0
count_of v (x ∷ xs) = (if same_number x v then 1 else 0) + count_of v xs

count_of-insert : (v x : ℤ) (ys : List ℤ) → count_of v (insert x ys) ≡ count_of v (x ∷ ys)
unfolding insert
count_of-insert v x [] = refl
count_of-insert v x (y ∷ ys) = elim (Bool-cases (leb_ℤ x y)) [
  | inl e ↦ rw e refl
  | inr e ↦ rw (e, count_of-insert v x ys) (omega arith)
]

pub count_of-qsort : (v : ℤ) (xs : List ℤ) → count_of v (qsort xs) ≡ count_of v xs
unfolding qsort
count_of-qsort v [] = refl
count_of-qsort v (x ∷ xs) = count_of-insert v x (qsort xs) ∙ (rw (count_of-qsort v xs) refl)

-- An element before one of two lists that are in order.
led :
    (b : Bool) (y x z : ℤ) (xs zs : List ℤ)
    → y ≤ℤ x
    → y ≤ℤ z
    → Ascending (if b then x ∷ xs else z ∷ zs)
    → Ascending (y ∷ (if b then x ∷ xs else z ∷ zs))
led true y x z xs zs p q h = (p, h)
led false y x z xs zs p q h = (q, h)

cons-insert :
    (x y : ℤ) (ys : List ℤ)
    → y ≤ℤ x
    → Ascending (y ∷ ys)
    → Ascending (insert x ys)
    → Ascending (y ∷ insert x ys)
unfolding insert
cons-insert x y [] p h rest = (p, tt)
cons-insert x y (z ∷ zs) p h rest = led (leb_ℤ x z) y x z (z ∷ zs) (insert x zs) p h.0 rest

behind_first : (y : ℤ) (ys : List ℤ) → Ascending (y ∷ ys) → Ascending ys
behind_first y [] h = tt
behind_first y (z ∷ zs) h = h.1

insert-Ascending : (x : ℤ) (ys : List ℤ) → Ascending ys → Ascending (insert x ys)
unfolding insert
insert-Ascending x [] h = tt
insert-Ascending x (y ∷ ys) h = elim (Bool-cases (leb_ℤ x y)) [
  | inl e ↦ rw e (ground arith, h)
  | inr e ↦
      let below : y ≤ℤ x = ground arith in
      rw e (cons-insert x y ys below h (insert-Ascending x ys (behind_first y ys h)))
]

pub qsort-Ascending : (xs : List ℤ) → Ascending (qsort xs)
unfolding qsort
qsort-Ascending [] = tt
qsort-Ascending (x ∷ xs) = insert-Ascending x (qsort xs) (qsort-Ascending xs)
