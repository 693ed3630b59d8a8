-- ===== src/Threads/Peer/Loop/Laws.antt =====
-- What a thread sends for what it receives.
use dragon_ntpd.Base.{
  ℕ, ◌+◌, ◌-◌, ◌*◌, ◌≤◌, ◌≡◌, refl, inl, inr, Bool, true, false, not, List, [], ◌∷◌, ◌++◌, Option,
  some, ltb, ◌==◌, if◌then◌else◌, length, take, replicate, length-take, length-append, zero, suc,
  ◌&&◌, arith, Bool-cases, get_or, ap, ◌∙◌,
}
use dragon_ntpd.Base.Int.{pos}
use dragon_ntpd.Ido.{IdoState}
use dragon_ntpd.Packet.{NtpPacket, mode_of}
use dragon_ntpd.Packet.Laws.{decoded, well_formed}
use dragon_ntpd.Threads.{usable}
use dragon_ntpd.Threads.Peer.{
  Env, Peer, Peers, Handled, set_peer, handle_peer_request, reply, response_to, refuse, zero_packet,
}
use dragon_ntpd.Threads.Peer.Laws.{handle_peer_request_lem, is_served}
use dragon_ntpd.Threads.Peer.Loop.{
  Round, no_data, failed, datagram, Served, buffer_size, buffer_with, peer_loop, finished,
  with_flag, with_sender,
}

-- The bytes that the rounds take from the network.
abbrev pub received_bytes : List Round → ℕ
received_bytes [] = 0
received_bytes (no_data flag ∷ rounds) = received_bytes rounds
received_bytes (failed ∷ rounds) = received_bytes rounds
received_bytes (datagram e bytes from flag ∷ rounds) =
    length (take buffer_size bytes) + received_bytes rounds

length-replicate : (n c : ℕ) → length (replicate n c) ≡ n
length-replicate zero c = refl
length-replicate (suc n) c = omega (arith, length-replicate n c)

length-buffer_with : (bytes : List ℕ) → length (buffer_with bytes) ≡ 1024
length-buffer_with bytes =
    let body = take 1024 bytes in
    let rest : List ℕ = replicate (1024 - length body) 0 in
    omega (
      arith,
      length-append body rest,
      length-take 1024 bytes,
      length-replicate (1024 - length body) 0,
    )

length-reply :
    (e : Env) (peer : Peer) (pkt : NtpPacket) (s : IdoState) → length (reply e peer pkt s).sent ≤ 1
length-reply e peer pkt s = elim (Bool-cases peer.sock_valid) [
  | inr closed ↦ rw closed (omega arith)
  | inl open_one ↦ elim (Bool-cases (e.sendto peer.sock_fd (response_to e pkt) peer.client_addr)) [
    | inr lost ↦ rw (open_one, lost) (omega arith)
    | inl sent ↦ rw (open_one, sent) (omega arith)
  ]
]

served-size : (buffer : List ℕ) (size : ℕ) → is_served buffer size ≡ true → 80 ≤ size
served-size buffer size h = go size (well_formed buffer && (mode_of (get_or buffer 0 0) == 3)) h
  where
    go : (n : ℕ) (b : Bool) → (not (ltb n 80) && b) ≡ true → 80 ≤ n
    go n b e = ground arith

-- One request is answered once at most, and only if it is as large as the answer.
handle-bound :
    (e : Env) (s : IdoState) (peers : Peers) (buffer : List ℕ) (size i : ℕ)
    → i ≤ 7
    → size ≤ length buffer
    → 85 ≤ length buffer
    → usable (peers i).sock_mutex ≡ true
    → (h : Handled) × (handle_peer_request e s peers buffer size (pos i) ≡ some h)
      × (length h.sent * 80 ≤ size)
handle-bound e s peers buffer size i small fits mac live =
    let answer = reply e (peers i) (decoded buffer size zero_packet) s in
    let eq = handle_peer_request_lem e s peers buffer size i small fits mac live in
    elim (Bool-cases (is_served buffer size)) [
      | inl served ↦
          let one = length-reply e (peers i) (decoded buffer size zero_packet) s in
          let large = served-size buffer size served in
          (
            answer,
            eq ∙ ap (λ b. some (if b then answer else refuse s)) served,
            omega (arith, one, large),
          )
      | inr refused ↦
          (refuse s, eq ∙ ap (λ b. some (if b then answer else refuse s)) refused, omega arith)
    ]

set_peer-mutex :
    (peers : Peers) (i : ℕ) (peer : Peer)
    → usable peer.sock_mutex ≡ true
    → usable (set_peer peers i peer i).sock_mutex ≡ true
set_peer-mutex peers i peer live = let here : (i == i) ≡ true = ground arith in rw here live

finishes :
    (n i : ℕ) (peers : Peers) (s : IdoState)
    → (r : Served) × (finished i peers s ≡ some r) × (length r.sent * 80 ≤ n)
finishes n i peers s = (
  record {
    peers = set_peer peers i (record (peers i) { sock_valid = false; running = false });
    ido = s;
    sent = [];
  },
  refl,
  omega arith,
)

-- A result, with answers of no more than so many bytes.
abbrev Gives : ℕ → Option Served → Type 0
Gives n o = (r : Served) × (o ≡ some r) × (length r.sent * 80 ≤ n)

Gives-if :
    {n : ℕ} (b : Bool) {x y : Option Served}
    → Gives n x
    → Gives n y
    → Gives n (if not b then x else y)
Gives-if true h k = k
Gives-if false h k = h

-- A thread with a valid index and a mutex that was not destroyed, whatever it receives, from whomever, and whenever
-- it is told to stop: it does nothing undefined, and its answers have together no more bytes than it received.
pub peer_loop-bound :
    (rounds : List Round) (i : ℕ) (peers : Peers) (s : IdoState)
    → i ≤ 7
    → usable (peers i).sock_mutex ≡ true
    → (r : Served) × (peer_loop rounds i peers s ≡ some r)
      × (length r.sent * 80 ≤ received_bytes rounds)
unfolding peer_loop
peer_loop-bound [] i peers s small live =
    (record { peers = peers; ido = s; sent = [] }, refl, omega arith)
peer_loop-bound (failed ∷ rounds) i peers s small live = finishes (received_bytes rounds) i peers s
peer_loop-bound (no_data flag ∷ rounds) i peers s small live =
    Gives-if (peers i).running (finishes (received_bytes rounds) i peers s) (
      peer_loop-bound rounds i (with_flag peers i flag) s small
        (set_peer-mutex peers i (record (peers i) { running = flag }) live))
peer_loop-bound (datagram e bytes from flag ∷ rounds) i peers s small live =
    let peers₁ = with_sender peers i from in
    let live₁ : usable (peers₁ i).sock_mutex ≡ true =
      set_peer-mutex peers i
        (record (peers i) {
          client_addr = if (peers i).client_addr_len == 0 then (peers i).client_addr else from;
          client_addr_len = 16;
        })
        live in
    let body = length (take 1024 bytes) in
    let full = length-buffer_with bytes in
    let taken = length-take 1024 bytes in
    let (h, eq, size) =
      handle-bound e s peers₁ (buffer_with bytes) body i small (omega (arith, full, taken))
        (omega (arith, full)) live₁ in
    let (r, eq', rest) =
      peer_loop-bound rounds i (with_flag peers₁ i flag) h.ido small
        (set_peer-mutex peers₁ i (record (peers₁ i) { running = flag }) live₁) in
    Gives-if (peers i).running (finishes (body + received_bytes rounds) i peers s) (
      record r { sent = h.sent ++ r.sent },
      rw (eq, eq') refl,
      omega (arith, length-append h.sent r.sent, size, rest),
    )
