-- ===== src/Network6/Laws.antt =====
-- Reading, printing and comparing IPv6 addresses.
use dragon_ntpd.Base.{
  ℕ, zero, suc, ◌<◌, ◌≤◌, ◌≡◌, refl, ap, ap₂, subst, Bool, true, false, List, [], ◌∷◌, some, length,
  take, ◌↔◌, ==_iff, arith, ◌==◌, ◌&&◌,
}
use dragon_ntpd.Mode.Network.{same_text}
use dragon_ntpd.Network6.{
  Net6, SockAddr6, network6_parse_address, network6_format_address, network6_addresses_equal,
}

take_all : {A : Type 0} (n : ℕ) (xs : List A) → length xs ≤ n → take n xs ≡ xs
take_all zero [] h = refl
take_all zero (x ∷ xs) h = absurd (omega arith)
take_all (suc n) [] h = refl
take_all (suc n) (x ∷ xs) h = ap (λ l. x ∷ l) (take_all n xs (omega arith))

network6_parse_address-some :
    (net : Net6) (text bytes : List ℕ) (port : ℕ)
    → net.inet_pton text ≡ some bytes
    → network6_parse_address net (some text) port
      ≡ some (record { port = net.htons port; address = bytes; scope_id = 0 })
unfolding network6_parse_address
network6_parse_address-some net text bytes port r = rw (network6_parse_address, r) refl

-- An address that was read from a text is printed as that text, in full, where the text is the one that
-- `inet_ntop` writes for it and the buffer has a byte more than the text.
pub network6_format_address-network6_parse_address :
    (net : Net6) (text bytes : List ℕ) (port size : ℕ)
    → net.inet_pton text ≡ some bytes
    → net.inet_ntop bytes ≡ some text
    → length text < size
    → network6_format_address net (network6_parse_address net (some text) port) (some size)
      ≡ (length text, some text)
unfolding network6_format_address
network6_format_address-network6_parse_address net text bytes port zero r w h = absurd (omega arith)
network6_format_address-network6_parse_address net text bytes port (suc n) r w h =
    rw (network6_parse_address-some net text bytes port r, w, take_all n text (omega arith)) refl

both : (a b : Bool) → a && b ≡ true → (a ≡ true) × (b ≡ true)
both true b e = (refl, e)
both false b e = absurd cc

same_text_refl : (xs : List ℕ) → same_text xs xs ≡ true
unfolding same_text
same_text_refl [] = refl
same_text_refl (x ∷ xs) = rw ((==_iff x x).1 refl, same_text_refl xs) refl

same_text-eq : (xs ys : List ℕ) → same_text xs ys ≡ true → xs ≡ ys
unfolding same_text
same_text-eq [] [] e = refl
same_text-eq [] (y ∷ ys) e = absurd cc
same_text-eq (x ∷ xs) [] e = absurd cc
same_text-eq (x ∷ xs) (y ∷ ys) e =
    let (h, t) = both (x == y) (same_text xs ys) e in
    ap₂ (λ a l. a ∷ l) ((==_iff x y).0 h) (same_text-eq xs ys t)

-- Two addresses are equal for the daemon if and only if their bytes and their ports are; the scope, which
-- tells apart link-local addresses of different interfaces, does not count.
pub network6_addresses_equal_iff :
    (a b : SockAddr6)
    → (network6_addresses_equal (some a) (some b) ≡ true)
      ↔ ((a.address ≡ b.address) × (a.port ≡ b.port))
unfolding network6_addresses_equal
network6_addresses_equal_iff a b = (
  λ e.
      let (h, t) = both (same_text a.address b.address) (a.port == b.port) e in
      (same_text-eq a.address b.address h, (==_iff a.port b.port).0 t),
  λ e.
      subst (λ x. same_text a.address x && (a.port == b.port) ≡ true) e.0
        (rw (same_text_refl a.address, (==_iff a.port b.port).1 e.1) refl),
)
