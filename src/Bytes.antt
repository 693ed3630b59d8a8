-- ===== src/Bytes.antt =====
-- The byte-order helpers of ntpd.c (`read_u32be`, `write_u32be`).
-- A buffer is the list of its bytes and a pointer into it is an index. `read` is `p[i]`: it faults
-- outside the buffer. The shifted bytes that C joins by `|` have no bit in common, so the model adds
-- them; `>> 8` is a division by 256 and the cast to `uint8_t` a remainder by 256.
pub mod Laws
use dragon_ntpd.Base.{ℕ, ◌+◌, ◌*◌, ◌/◌, ◌%◌, ◌^◌, List, Option, some, get_elem?, set, ◌>>=◌}

abbrev pub read : List ℕ → ℕ → Option ℕ
read p i = get_elem? p i

unfoldable pub read_u32be : List ℕ → ℕ → Option ℕ
read_u32be p i = do
  a ← read p i
  b ← read p (i + 1)
  c ← read p (i + 2)
  d ← read p (i + 3)
  some (a * 2 ^ 24 + b * 2 ^ 16 + c * 2 ^ 8 + d)

-- The four stores at `p + i`; `Laws` shows where they land.
unfoldable pub write_u32be : List ℕ → ℕ → ℕ → List ℕ
write_u32be p i v =
    set
      (set (set (set p i (v / 2 ^ 24 % 256)) (i + 1) (v / 2 ^ 16 % 256)) (i + 2) (v / 2 ^ 8 % 256))
      (i + 3) (v % 256)
