-- ===== src/Bytes/Laws.antt =====
-- Reads and writes of 32-bit words in network byte order.
use dragon_ntpd.Base.{
  ℕ, zero, suc, ◌+◌, ◌*◌, ◌/◌, ◌%◌, ◌^◌, ◌≤◌, ◌<◌, ◌≡◌, refl, ◌≢◌, ◌⊎◌, List, [], ◌∷◌, some, length,
  get_elem?, get_or, set, length-set, get_elem?-eq-get_or, arith, ap, ◌∙◌,
}
use dragon_ntpd.Bytes.{read_u32be, write_u32be}

module _ {ℓ} {A : Type ℓ} where
  pub get_elem?-set_self :
      (xs : List A) (i : ℕ) (v : A) → i < length xs → get_elem? (set xs i v) i ≡ some v
  get_elem?-set_self [] i v h = elim h [ ]
  get_elem?-set_self (x ∷ xs) zero v h = refl
  get_elem?-set_self (x ∷ xs) (suc i) v h = get_elem?-set_self xs i v (omega arith)

  pub get_elem?-set_ne :
      (xs : List A) (i j : ℕ) (v : A) → i ≢ j → get_elem? (set xs i v) j ≡ get_elem? xs j
  get_elem?-set_ne [] i j v h = refl
  get_elem?-set_ne (x ∷ xs) zero zero v h = absurd (h refl)
  get_elem?-set_ne (x ∷ xs) zero (suc j) v h = refl
  get_elem?-set_ne (x ∷ xs) (suc i) zero v h = refl
  get_elem?-set_ne (x ∷ xs) (suc i) (suc j) v h = get_elem?-set_ne xs i j v (λ e. h (ap suc e))

-- The word at `i`, where the buffer has four bytes there.
abbrev pub word_at : List ℕ → ℕ → ℕ
word_at p i =
    get_or p i 0 * 2 ^ 24
    + get_or p (i + 1) 0 * 2 ^ 16
    + get_or p (i + 2) 0 * 2 ^ 8
    + get_or p (i + 3) 0

pub read_u32be-eq-word_at :
    (p : List ℕ) (i : ℕ) → i + 4 ≤ length p → read_u32be p i ≡ some (word_at p i)
unfolding read_u32be
read_u32be-eq-word_at p i h = ground (
  arith,
  get_elem?-eq-get_or p i 0,
  get_elem?-eq-get_or p (i + 1) 0,
  get_elem?-eq-get_or p (i + 2) 0,
  get_elem?-eq-get_or p (i + 3) 0,
)

-- The four stores of a word, and what is read back from each place.
module _ (p : List ℕ) (i a b c d : ℕ) where
  abbrev set_four : List ℕ
  set_four = set (set (set (set p i a) (i + 1) b) (i + 2) c) (i + 3) d

  length-set_four : length set_four ≡ length p
  length-set_four = rw (length-set, length-set, length-set, length-set)

  set_four_other : (j : ℕ) → (j < i) ⊎ (i + 4 ≤ j) → get_elem? set_four j ≡ get_elem? p j
  set_four_other j h =
      get_elem?-set_ne (set (set (set p i a) (i + 1) b) (i + 2) c) (i + 3) j d (omega arith)
      ∙ get_elem?-set_ne (set (set p i a) (i + 1) b) (i + 2) j c (omega arith)
      ∙ get_elem?-set_ne (set p i a) (i + 1) j b (omega arith)
      ∙ get_elem?-set_ne p i j a (omega arith)

  set_four_at :
      i + 4 ≤ length p
      → (get_elem? set_four i ≡ some a)
        × (get_elem? set_four (i + 1) ≡ some b)
        × (get_elem? set_four (i + 2) ≡ some c)
        × (get_elem? set_four (i + 3) ≡ some d)
  set_four_at h = (
    get_elem?-set_ne p₃ (i + 3) i d (omega arith)
        ∙ get_elem?-set_ne p₂ (i + 2) i c (omega arith)
        ∙ get_elem?-set_ne p₁ (i + 1) i b (omega arith)
        ∙ get_elem?-set_self p i a (omega arith),
    get_elem?-set_ne p₃ (i + 3) (i + 1) d (omega arith)
        ∙ get_elem?-set_ne p₂ (i + 2) (i + 1) c (omega arith)
        ∙ get_elem?-set_self p₁ (i + 1) b (rw length-set (omega arith)),
    get_elem?-set_ne p₃ (i + 3) (i + 2) d (omega arith)
        ∙ get_elem?-set_self p₂ (i + 2) c (rw (length-set, length-set) (omega arith)),
    get_elem?-set_self p₃ (i + 3) d (rw (length-set, length-set, length-set) (omega arith)),
  )
    where
      p₁ : List ℕ
      p₁ = set p i a

      p₂ : List ℕ
      p₂ = set p₁ (i + 1) b

      p₃ : List ℕ
      p₃ = set p₂ (i + 2) c

pub length-write_u32be : (p : List ℕ) (i v : ℕ) → length (write_u32be p i v) ≡ length p
unfolding write_u32be
length-write_u32be p i v =
    length-set_four p i (v / 2 ^ 24 % 256) (v / 2 ^ 16 % 256) (v / 2 ^ 8 % 256) (v % 256)

-- A store leaves the bytes outside its four places alone.
pub write_u32be_other :
    (p : List ℕ) (i v j : ℕ)
    → (j < i) ⊎ (i + 4 ≤ j)
    → get_elem? (write_u32be p i v) j ≡ get_elem? p j
unfolding write_u32be
write_u32be_other p i v =
    set_four_other p i (v / 2 ^ 24 % 256) (v / 2 ^ 16 % 256) (v / 2 ^ 8 % 256) (v % 256)

pub read_u32be_other :
    (p : List ℕ) (i v j : ℕ)
    → (j + 4 ≤ i) ⊎ (i + 4 ≤ j)
    → read_u32be (write_u32be p i v) j ≡ read_u32be p j
unfolding read_u32be
read_u32be_other p i v j h = rw (
  write_u32be_other p i v j (omega arith),
  write_u32be_other p i v (j + 1) (omega arith),
  write_u32be_other p i v (j + 2) (omega arith),
  write_u32be_other p i v (j + 3) (omega arith),
)

read_back :
    (p : List ℕ) (i v : ℕ)
    → i + 4 ≤ length p
    → v < 2 ^ 32
    → read_u32be (write_u32be p i v) i ≡ some v
unfolding read_u32be write_u32be
read_back p i v h hv =
    ground
      (arith, set_four_at p i (v / 2 ^ 24 % 256) (v / 2 ^ 16 % 256) (v / 2 ^ 8 % 256) (v % 256) h)

-- What `write_u32be` stores at `i`, where the buffer has four bytes there, `read_u32be` gives back,
-- for every 32-bit word; a word read at a `j` four or more bytes away is as before, and the buffer
-- keeps its length.
pub read_u32be-write_u32be :
    (p : List ℕ) (i v j : ℕ)
    → i + 4 ≤ length p
    → v < 2 ^ 32
    → (j + 4 ≤ i) ⊎ (i + 4 ≤ j)
    → (read_u32be (write_u32be p i v) i ≡ some v)
      × (read_u32be (write_u32be p i v) j ≡ read_u32be p j)
      × (length (write_u32be p i v) ≡ length p)
read_u32be-write_u32be p i v j h hv apart =
    (read_back p i v h hv, read_u32be_other p i v j apart, length-write_u32be p i v)
