-- ===== src/Server/Lifetime.antt =====
-- socket.c: `handle_client_request` hands its `PeerRequestData` to a detached thread and frees it.
-- The C library decides whether memory is given and a thread is started. What the two threads do with
-- the memory of the `PeerRequestData` is a sequence of reads and frees; a read or a free of freed
-- memory is undefined.
use dragon_ntpd.Base.{
  ℕ, zero, suc, ◌+◌, ◌≡◌, refl, not, ◌≤◌, Bool, true, false, List, [], ◌∷◌, ◌++◌, Option, none,
  some, ltb, if◌then◌else◌, length, take, replicate, arith,
}
use dragon_ntpd.Server.{PeerRequestData, Reply, dropped}

pub data Action : Type 0 where
  use_it free_it : Action

-- Which of the three calls succeed.
pub record System : Type 0 where
  pub malloc_data : Bool
  pub malloc_buffer : Bool
  pub pthread_create : Bool

-- What the call leaves behind: what it does with the memory after the thread is started, and the
-- argument of the thread, where there is one.
pub record Started : Type 0 where
  pub caller : List Action
  pub thread : Option PeerRequestData

abbrev pub not_started : Started
not_started = record { caller = []; thread = none }

-- Null is the empty text; `snprintf` keeps 15 bytes of either text.
abbrev pub text_of : Option (List ℕ) → List ℕ
text_of none = []
text_of (some text) = take 15 text

-- `none` where `memcpy` reads outside the buffer.
unfoldable pub handle_client_request :
    System → List ℕ → ℕ → Option (List ℕ) → Option (List ℕ) → Option Started
handle_client_request system buffer size ip port =
    if not system.malloc_data
    then some not_started
    else if not system.malloc_buffer
    then some not_started
    else if ltb (length buffer) size
    then none
    else if not system.pthread_create
    then some not_started
    else some (record {
      caller = free_it ∷ [];
      thread = some (record {
        buffer = some (take size buffer);
        size = size;
        ip = text_of ip;
        port = text_of port;
      });
    })

-- What the thread does with it: reads, and at the end `free` where the reply says so.
abbrev pub thread_actions : ℕ → Reply → List Action
thread_actions reads reply = replicate reads use_it ++ (if reply.freed then free_it ∷ [] else [])

-- The two threads' actions in one order.
pub data Interleaved : List Action → List Action → List Action → Type 0 where
  stop : Interleaved [] [] []
  first :
      {a : Action} {xs ys zs : List Action}
      → Interleaved xs ys zs
      → Interleaved (a ∷ xs) ys (a ∷ zs)
  second :
      {a : Action} {xs ys zs : List Action}
      → Interleaved xs ys zs
      → Interleaved xs (a ∷ ys) (a ∷ zs)

-- Whether the memory is live at the end, or none where what happens is undefined.
unfoldable pub run : Bool → List Action → Option Bool
run live [] = some live
run true (use_it ∷ rest) = run true rest
run true (free_it ∷ rest) = run false rest
run false (a ∷ rest) = none

abbrev frees_of : Action → ℕ
frees_of use_it = 0
frees_of free_it = 1

frees : List Action → ℕ
frees [] = 0
frees (a ∷ rest) = frees_of a + frees rest

frees-Interleaved : {xs ys zs : List Action} → Interleaved xs ys zs → frees zs ≡ frees xs + frees ys
unfolding frees
frees-Interleaved stop = omega arith
frees-Interleaved (first i) = omega (arith, frees-Interleaved i)
frees-Interleaved (second i) = omega (arith, frees-Interleaved i)

run-twice : (rest : List Action) → 2 ≤ frees rest → run true rest ≡ none
unfolding run frees
run-twice [] h = absurd (omega arith)
run-twice (use_it ∷ rest) h = run-twice rest (omega arith)
run-twice (free_it ∷ []) h = absurd (omega arith)
run-twice (free_it ∷ a ∷ rest) h = refl

frees-thread_actions : (reads : ℕ) → frees (thread_actions reads dropped) ≡ 1
unfolding frees
frees-thread_actions zero = omega arith
frees-thread_actions (suc n) = omega (arith, frees-thread_actions n)

caller_frees :
    (system : System) (buffer : List ℕ) (size : ℕ) (ip port : Option (List ℕ)) (started : Started)
    (request : PeerRequestData)
    → handle_client_request system buffer size ip port ≡ some started
    → started.thread ≡ some request
    → started.caller ≡ free_it ∷ []
unfolding handle_client_request
caller_frees system buffer size ip port started request e t = ground arith

-- Whenever `handle_client_request` starts a thread, and the thread comes to an end that frees the
-- request, as it does for a dropped and for an answered one, the memory of the `PeerRequestData` is
-- used or freed after it was freed: in whatever order the actions of the two threads happen, and
-- however often the thread reads.
pub handle_client_request-use_after_free :
    (system : System) (buffer : List ℕ) (size : ℕ) (ip port : Option (List ℕ)) (reply : Reply)
    (reads : ℕ) (order : List Action) (started : Started) (request : PeerRequestData)
    → handle_client_request system buffer size ip port ≡ some started
    → started.thread ≡ some request
    → reply.freed ≡ true
    → Interleaved started.caller (thread_actions reads reply) order
    → run true order ≡ none
unfolding frees
handle_client_request-use_after_free system buffer size ip port reply reads order started request e
      t freed i =
    let one : frees started.caller ≡ 1 =
      rw (caller_frees system buffer size ip port started request e t) (omega arith) in
    let two : frees (thread_actions reads reply) ≡ 1 = rw freed (frees-thread_actions reads) in
    run-twice order (omega (arith, frees-Interleaved i))
