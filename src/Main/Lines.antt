-- ===== src/Main/Lines.antt =====
-- What a line of dntpd.conf that was written for a server is read as.
use dragon_ntpd.Base.{
  ℕ, ◌≤◌, ◌≡◌, refl, Bool, true, false, not, ◌&&◌, List, [], ◌∷◌, ◌++◌, some, leb, ◌==◌,
  if◌then◌else◌, length, length-append, arith, ap, ◌∙◌,
}
use dragon_ntpd.Mode.ConfigFile.{codes, starts_with}
use dragon_ntpd.Main.{
  Entry, server, nothing, broadcast_mode, broadcast_addr, broadcast_interval, read_line, is_skipped,
  server_at, cut,
}

-- The byte is not in the text.
unfoldable pub lacks : ℕ → List ℕ → Bool
lacks c [] = true
lacks c (x ∷ text) = not (x == c) && lacks c text

-- No comment, no empty line, and none of the settings.
abbrev pub is_ordinary : List ℕ → Bool
is_ordinary line =
    not (is_skipped line)
    && (not (starts_with (codes "enable_broadcast") 16 line)
        && (not (starts_with (codes "broadcast_addr") 14 line)
            && not (starts_with (codes "broadcast_interval") 18 line)))

-- The line that names a server, as one writes it.
abbrev pub print_server : List ℕ → List ℕ → List ℕ
print_server ip port = ip ++ (b':' ∷ (port ++ (b'\n' ∷ [])))

cut-append :
    (c : ℕ) (ip rest : List ℕ) → lacks c ip ≡ true → cut c (ip ++ (c ∷ rest)) ≡ some (ip, rest)
unfolding cut lacks
cut-append c [] rest h = let here : (c == c) ≡ true = ground arith in rw here refl
cut-append c (x ∷ ip) rest h =
    let other : (x == c) ≡ false = ground arith in
    let rest_lacks : lacks c ip ≡ true = ground arith in
    rw (other, cut-append c ip rest rest_lacks) refl

ordinary :
    (a b c d : Bool) (w x y z v : Entry)
    → (not a && (not b && (not c && not d))) ≡ true
    → (if a then w else if b then x else if c then y else if d then z else v) ≡ v
ordinary false false false false w x y z v h = refl
ordinary true b c d w x y z v h = absurd cc
ordinary false true c d w x y z v h = absurd cc
ordinary false false true d w x y z v h = absurd cc
ordinary false false false true w x y z v h = absurd cc

fits :
    (ip rest : List ℕ)
    → 1 ≤ length ip
    → length ip ≤ 126
    → length rest ≤ 14
    → server_at (some (ip, rest)) ≡ server ip rest
fits ip rest h₁ h₂ h₃ =
    let a : (length ip == 0) ≡ false = ground arith in
    let b : leb 127 (length ip) ≡ false = ground arith in
    let c : leb 15 (length rest) ≡ false = ground arith in rw (a, b, c) refl

-- A server's line, with an address of 1 to 126 bytes and no colon in it, a port of 13 bytes at most, and no setting or comment in
-- their place: the address is read as it was written, and the port with the line's end behind it.
pub read_line-print_server :
    (ip port : List ℕ)
    → is_ordinary (print_server ip port) ≡ true
    → lacks b':' ip ≡ true
    → 1 ≤ length ip
    → length ip ≤ 126
    → length port ≤ 13
    → read_line (print_server ip port) ≡ server ip (port ++ (b'\n' ∷ []))
unfolding read_line
read_line-print_server ip port plain no_colon h₁ h₂ h₃ =
    let line = print_server ip port in
    let rest : List ℕ = port ++ (b'\n' ∷ []) in
    ordinary (is_skipped line) (starts_with (codes "enable_broadcast") 16 line)
      (starts_with (codes "broadcast_addr") 14 line)
      (starts_with (codes "broadcast_interval") 18 line) nothing (broadcast_mode (cut b'=' line))
      (broadcast_addr (cut b'=' line)) (broadcast_interval (cut b'=' line))
      (server_at (cut b':' line)) plain
    ∙ ap server_at (cut-append b':' ip rest no_colon)
    ∙ fits ip rest h₁ h₂ (omega (arith, length-append port (b'\n' ∷ [])))
