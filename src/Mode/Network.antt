-- ===== src/Mode/Network.antt =====
-- Addresses and networks of mode_handler.c.
-- `inet_addr`, `sscanf` with "%u", and `htonl` are the C library's, and are parameters.
use Prim.Native.Nat.{bit_and}
use dragon_ntpd.Base.{
  ℕ, ◌-◌, ◌*◌, ◌%◌, ◌^◌, Bool, true, false, not, ◌&&◌, List, [], ◌∷◌, Option, none, some, ltb, leb,
  ◌==◌, if◌then◌else◌, length,
}

pub record Libc : Type 0 where
  pub inet_addr : List ℕ → ℕ
  pub scan_unsigned : List ℕ → Option ℕ
  pub htonl : ℕ → ℕ

-- `INADDR_NONE`, which is also the address 255.255.255.255.
abbrev pub inaddr_none : ℕ
inaddr_none = 2 ^ 32 - 1

abbrev broadcast_text : List ℕ
broadcast_text =
    b'2' ∷ b'5' ∷ b'5' ∷ b'.' ∷ b'2' ∷ b'5' ∷ b'5' ∷ b'.' ∷ b'2' ∷ b'5' ∷ b'5' ∷ b'.' ∷ b'2' ∷ b'5'
    ∷ b'5' ∷ []

unfoldable pub same_text : List ℕ → List ℕ → Bool
same_text [] [] = true
same_text [] (y ∷ ys) = false
same_text (x ∷ xs) [] = false
same_text (x ∷ xs) (y ∷ ys) = (x == y) && same_text xs ys

-- The text before the first '/', and the text behind it where there is one.
unfoldable pub split_slash : List ℕ → List ℕ × Option (List ℕ)
split_slash [] = ([], none)
split_slash (c ∷ cs) =
    let rest = split_slash cs in if c == b'/' then ([], some cs) else (c ∷ rest.0, rest.1)

-- The prefix length: 32 without a '/', none where it is refused.
unfoldable pub prefix_length : Libc → Option (List ℕ) → Option ℕ
prefix_length c none = some 32
prefix_length c (some digits) = elim (c.scan_unsigned digits) [
  | none ↦ none
  | some n ↦ if ltb 32 n then none else some n
]

-- The address and the mask. Where the address is 0 the source may leave the mask unwritten; the callers
-- do not read it then.
unfoldable pub parse_network : Libc → Option (List ℕ) → ℕ × ℕ
unfolding split_slash prefix_length same_text
parse_network c none = (0, 0)
parse_network c (some network) =
    let (buf, digits) = split_slash network in
    if leb 64 (length buf) then (0, 0) else elim (prefix_length c digits) [
      | none ↦ (0, 0)
      | some prefix_len ↦
          let ip = c.inet_addr buf in
          if (ip == inaddr_none) && not (same_text buf broadcast_text) then (0, 0) else (
            ip,
            if prefix_len == 0 then 0 else c.htonl ((2 ^ 32 - 1) * 2 ^ (32 - prefix_len) % 2 ^ 32),
          )
    ]

unfoldable pub parse_ip : Libc → Option (List ℕ) → ℕ
parse_ip c none = 0
parse_ip c (some text) = c.inet_addr text

unfoldable pub ip_in_network : ℕ → ℕ → ℕ → Bool
ip_in_network ip net mask = bit_and ip mask == bit_and net mask
