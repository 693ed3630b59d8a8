-- ===== src/Threads/Peer/Lifetime/Laws.antt =====
-- What the start of a thread leaves to its end.
use dragon_ntpd.Base.{
  ℕ, zero, suc, ◌+◌, ◌≤◌, ◌<◌, ◌≡◌, refl, inl, inr, true, false, List, Option, none, some, leb,
  ◌==◌, replicate, Status, ok, arith, Bool-cases, Option-cases, subst, sym, error, ◌∙◌,
}
use dragon_ntpd.Base.Int.{pos}
use dragon_ntpd.Threads.{System, detached, absent, destroyed, join}
use dragon_ntpd.Threads.Peer.{Peer, Peers, set_peer, zero_peer, g_peer_ctx, valid_index}
use dragon_ntpd.Threads.Peer.Lifetime.{
  Request, peer_thread_init, start_peer_thread, start_checked, start_initialised, stop_from,
  stop_peer_thread, cleanup_from, cleanup_peer_thread,
}

-- A running thread that cannot be joined makes the loop that reaches it undefined.
stop_from-detached :
    (n j i : ℕ) (peers : Peers)
    → j ≤ i
    → i < j + n
    → (peers i).running ≡ true
    → (peers i).thread ≡ detached
    → stop_from n j peers ≡ none
unfolding stop_from
stop_from-detached zero j i peers h₁ h₂ on thread = absurd (omega arith)
stop_from-detached (suc n) j i peers h₁ h₂ on thread = elim (Bool-cases (j == i)) [
  | inl here ↦ let e : j ≡ i = ground arith in rw (e, on, thread) refl
  | inr further ↦
      let h₃ : j + 1 ≤ i = ground arith in
      let h₄ : i < j + 1 + n = omega arith in
      elim (Bool-cases (peers j).running) [
        | inr off ↦ rw off (stop_from-detached n (j + 1) i peers h₃ h₄ on thread)
        | inl running ↦ elim (Option-cases (join (peers j).thread)) [
          | inl failed ↦ rw (running, failed) refl
          | inr (after, e) ↦
              let away : (i == j) ≡ false = ground arith in
              rw (running, e)
                (stop_from-detached n (j + 1) i
                  (set_peer peers j (record (peers j) { running = false; thread = after })) h₃ h₄
                  (rw away on) (rw away thread))
        ]
      ]
]

-- An error, or a thread that runs and is detached.
abbrev Live : ℕ → Peers × Status → Type 0
Live i (peers, error) = Unit {0}
Live i (peers, ok) = ((peers i).running ≡ true) × ((peers i).thread ≡ detached)

initialised-Live :
    (sys : System) (r : Request) (i : ℕ) (result : Peers × Status)
    → Live i (start_initialised sys r i result)
initialised-Live sys r i (peers, error) = tt
initialised-Live sys r i (peers, ok) = elim (Bool-cases sys.create) [
  | inr failed ↦ rw failed tt
  | inl created ↦ elim (Bool-cases sys.detach) [
    | inr failed ↦ rw (created, failed) tt
    | inl done ↦
        let here : (i == i) ≡ true = ground arith in rw (created, done) (rw here refl, rw here refl)
  ]
]

checked-Live :
    (sys : System) (r : Request) (peers : Peers) (fd : Option ℕ) (ip port : Option (List ℕ)) (i : ℕ)
    → Live i (start_checked sys r peers fd ip port (valid_index (pos i)))
checked-Live sys r peers none ip port i = tt
checked-Live sys r peers (some fd) none port i = tt
checked-Live sys r peers (some fd) (some ip) none i = tt
checked-Live sys r peers (some fd) (some ip) (some port) i = elim (Bool-cases (leb 8 i)) [
  | inl large ↦ rw large tt
  | inr small ↦
      rw small
        (initialised-Live sys r i (peer_thread_init sys (some fd) ip port r.peer_state peers i))
]

start-Live :
    (sys : System) (r : Request) (peers : Peers) (i : ℕ)
    → r.idx ≡ pos i
    → Live i (start_peer_thread sys r peers)
unfolding start_peer_thread
start-Live sys r peers i at =
    subst (λ idx. Live i (start_checked sys r peers r.sock_fd r.ip r.port (valid_index idx)))
      (sym at) (checked-Live sys r peers r.sock_fd r.ip r.port i)

-- Whenever `start_peer_thread` returns 0 for an index below the number of peers, whatever the other threads are, to stop the
-- threads is undefined as long as that one runs: a thread is joined that was detached.
pub start_peer_thread-stop_peer_thread :
    (sys : System) (r : Request) (peers peers' : Peers) (i count : ℕ)
    → r.idx ≡ pos i
    → i < count
    → start_peer_thread sys r peers ≡ (peers', ok)
    → stop_peer_thread count peers' ≡ none
unfolding stop_peer_thread
start_peer_thread-stop_peer_thread sys r peers peers' i count at below e =
    let (on, thread) = subst (Live i) e (start-Live sys r peers i at) in
    stop_from-detached count 0 i peers' (omega arith) (omega arith) on thread

-- From an entry on, the table is as the program starts.
abbrev Untouched : ℕ → Peers → Type 0
Untouched i peers = (j : ℕ) → i ≤ j → peers j ≡ zero_peer false absent

-- One entry that was cleaned up.
abbrev cleaned : Peer
cleaned = record (zero_peer false absent) { sock_fd = none; sock_mutex = destroyed }

cleanup_from-Untouched :
    (n i : ℕ) (peers : Peers)
    → Untouched i peers
    → (peers' : Peers) × (cleanup_from n i peers ≡ some (peers', replicate n 0))
      × ((j : ℕ) → j < i → peers' j ≡ peers j)
unfolding cleanup_from
cleanup_from-Untouched zero i peers h = (peers, refl, λ j below. refl)
cleanup_from-Untouched (suc n) i peers h =
    let (peers', e, same) =
      cleanup_from-Untouched n (i + 1) (set_peer peers i cleaned)
        (λ j above. untouched j (omega arith) (omega arith)) in
    (
      peers',
      rw (h i (omega arith)) (rw (h i (omega arith)) (rw e refl)),
      λ j below. same j (omega arith) ∙ before j below,
    )
  where
    untouched : (j : ℕ) → i ≤ j → i < j → set_peer peers i cleaned j ≡ zero_peer false absent
    untouched j above other = let away : (j == i) ≡ false = ground arith in rw away (h j above)

    before : (j : ℕ) → j < i → set_peer peers i cleaned j ≡ peers j
    before j below = let away : (j == i) ≡ false = ground arith in rw away refl

-- Where no thread was started, for one peer or more: to clean up closes the descriptor 0, which is standard input,
-- once for each of the peers, and to clean up again, as `main` and `atexit` do, is undefined.
pub cleanup_peer_thread-stdin :
    (n : ℕ)
    → (peers : Peers) × (cleanup_peer_thread (suc n) g_peer_ctx ≡ some (peers, replicate (suc n) 0))
      × (cleanup_peer_thread (suc n) peers ≡ none)
unfolding cleanup_peer_thread cleanup_from
cleanup_peer_thread-stdin n =
    let (peers, e, same) =
      cleanup_from-Untouched n 1 (set_peer g_peer_ctx 0 cleaned) (λ j above. later j above) in
    (peers, rw e refl, rw (same 0 (omega arith)) refl)
  where
    later : (j : ℕ) → 1 ≤ j → set_peer g_peer_ctx 0 cleaned j ≡ zero_peer false absent
    later j above = let away : (j == 0) ≡ false = ground arith in rw away refl
