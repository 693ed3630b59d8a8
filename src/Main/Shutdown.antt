-- ===== src/Main/Shutdown.antt =====
-- main.c: `cleanup_resources`, which `atexit` calls too, and `apply_user_privileges`.
use dragon_ntpd.Base.{
  ℕ, List, [], Option, none, some, length, Status, zero, suc, ◌+◌, ◌≡◌, refl, true, false, ◌==◌,
  sym, subst, arith, ◌>>=◌, ap, ◌∙◌, inl, inr, Bool, not, ◌⊎◌, if◌then◌else◌,
}
use dragon_ntpd.Base.Lock.{Locked, Run, done, blocked}
use dragon_ntpd.Ido.{IdoState, ido_state_cleanup}
use dragon_ntpd.Leap.{LeapSecondState, leap_second_cleanup}
use dragon_ntpd.Mode.{ModeState, mode_handler_cleanup, default_config}
use dragon_ntpd.Mode.Locks.{cleanup-blocked}
use dragon_ntpd.Threads.{Object, zeroed, ready, destroyed, usable, destroy, detached, join}
use dragon_ntpd.Threads.Clock.{
  ClockThread, stop_clock_thread, cleanup_clock_thread, clock_thread_notify,
}
use dragon_ntpd.Threads.Peer.{Peer, Peers, set_peer}
use dragon_ntpd.Threads.Peer.Lifetime.{
  stop_peer_thread, cleanup_peer_thread, stop_from, cleanup_from, after_closed,
}
use dragon_ntpd.Main.{Config}

-- The globals that are cleaned up.
pub record Program : Type 0 where
  pub clock_thread : ClockThread
  pub peers : Peers
  pub ido : IdoState
  pub leap : Locked LeapSecondState
  pub mode : Locked ModeState
  pub config : Config

-- The end: a state and the descriptors that were closed, a wait for ever, or what is undefined.
pub data Ended : Type 0 where
  returned : Program → List ℕ → Ended
  waiting : Ended
  undefined : Ended

-- Each part goes on with the next.
abbrev pub free_servers : Program → List ℕ → Ended
free_servers p closed = returned (record p { config = record p.config { servers = [] } }) closed

abbrev pub cleanup_mode : Program → List ℕ → Run ModeState (Unit {0}) → Ended
cleanup_mode p closed (done u l) = free_servers (record p { mode = l }) closed
cleanup_mode p closed blocked = waiting

abbrev pub cleanup_leap : Program → List ℕ → Run LeapSecondState Status → Ended
cleanup_leap p closed (done status l) =
    cleanup_mode (record p { leap = l }) closed (mode_handler_cleanup p.mode)
cleanup_leap p closed blocked = waiting

abbrev pub cleanup_ido : Program → List ℕ → Ended
cleanup_ido p closed =
    cleanup_leap (record p { ido = ido_state_cleanup p.ido }) closed (leap_second_cleanup p.leap)

abbrev pub cleaned_peers : Program → Option (Peers × List ℕ) → Ended
cleaned_peers p none = undefined
cleaned_peers p (some (peers, closed)) = cleanup_ido (record p { peers = peers }) closed

abbrev pub cleanup_peers : Program → Option Peers → Ended
cleanup_peers p none = undefined
cleanup_peers p (some peers) =
    cleaned_peers (record p { peers = peers })
      (cleanup_peer_thread (length p.config.peer_pool) peers)

abbrev pub cleanup_clock : Program → Option ClockThread → Ended
cleanup_clock p none = undefined
cleanup_clock p (some c) =
    cleanup_peers (record p { clock_thread = c })
      (stop_peer_thread (length p.config.peer_pool) p.peers)

abbrev pub stop_clock : Program → Option ClockThread → Ended
stop_clock p none = undefined
stop_clock p (some c) = cleanup_clock (record p { clock_thread = c }) (cleanup_clock_thread c)

-- Behind the closing of the listener. What it does to files, behind the rest, is left out.
unfoldable pub cleanup_resources : Program → Ended
cleanup_resources p = stop_clock p (stop_clock_thread p.clock_thread)

abbrev pub NotReturned : Ended → Type 0
NotReturned (returned p closed) = ⊥
NotReturned waiting = Unit {0}
NotReturned undefined = Unit {0}

mode-NotReturned :
    (p : Program) (closed : List ℕ) (l : Locked ModeState)
    → NotReturned (cleanup_mode p closed (mode_handler_cleanup l))
mode-NotReturned p closed l = rw (cleanup-blocked l default_config).0 tt

leap-NotReturned :
    (p : Program) (closed : List ℕ) (r : Run LeapSecondState Status)
    → NotReturned (cleanup_leap p closed r)
leap-NotReturned p closed (done status l) = mode-NotReturned (record p { leap = l }) closed p.mode
leap-NotReturned p closed blocked = tt

cleaned_peers-NotReturned :
    (p : Program) (o : Option (Peers × List ℕ)) → NotReturned (cleaned_peers p o)
cleaned_peers-NotReturned p none = tt
cleaned_peers-NotReturned p (some (peers, closed)) =
    leap-NotReturned (record p { peers = peers; ido = ido_state_cleanup p.ido }) closed
      (leap_second_cleanup p.leap)

peers-NotReturned : (p : Program) (o : Option Peers) → NotReturned (cleanup_peers p o)
peers-NotReturned p none = tt
peers-NotReturned p (some peers) =
    cleaned_peers-NotReturned (record p { peers = peers })
      (cleanup_peer_thread (length p.config.peer_pool) peers)

clock-NotReturned : (p : Program) (o : Option ClockThread) → NotReturned (cleanup_clock p o)
clock-NotReturned p none = tt
clock-NotReturned p (some c) =
    peers-NotReturned (record p { clock_thread = c })
      (stop_peer_thread (length p.config.peer_pool) p.peers)

stopped-NotReturned : (p : Program) (o : Option ClockThread) → NotReturned (stop_clock p o)
stopped-NotReturned p none = tt
stopped-NotReturned p (some c) =
    clock-NotReturned (record p { clock_thread = c }) (cleanup_clock_thread c)

cleanup_resources-NotReturned : (p : Program) → NotReturned (cleanup_resources p)
unfolding cleanup_resources
cleanup_resources-NotReturned p = stopped-NotReturned p (stop_clock_thread p.clock_thread)

-- No thread was started, or each has ended, and no mutex of a thread was destroyed.
pub record IsQuiet (p : Program) : Type 0 where
  pub clock_ended : p.clock_thread.running ≡ false
  pub mutex_live : usable p.clock_thread.clock_mutex ≡ true
  pub cond_live : usable p.clock_thread.clock_cond ≡ true
  pub peers_ended : (i : ℕ) → (p.peers i).running ≡ false
  pub mutexes_live : (i : ℕ) → usable (p.peers i).sock_mutex ≡ true

destroy-some : (o : Object) → usable o ≡ true → destroy o ≡ some destroyed
destroy-some zeroed h = refl
destroy-some ready h = refl
destroy-some destroyed h = absurd cc

stop_from-some :
    (n i : ℕ) (peers : Peers)
    → ((j : ℕ) → (peers j).running ≡ false)
    → stop_from n i peers ≡ some peers
unfolding stop_from
stop_from-some zero i peers h = refl
stop_from-some (suc n) i peers h = rw (h i) (stop_from-some n (i + 1) peers h)

-- The entries from one on have ended.
abbrev EndedFrom : ℕ → Peers → Type 0
EndedFrom i peers =
    (k : ℕ) → ((peers (i + k)).running ≡ false) × (usable (peers (i + k)).sock_mutex ≡ true)

after_set :
    (peers : Peers) (i : ℕ) (peer : Peer)
    → EndedFrom i peers
    → EndedFrom (i + 1) (set_peer peers i peer)
after_set peers i peer h k =
    let other : (i + 1 + k == i) ≡ false = ground arith in
    let place : i + 1 + k ≡ i + suc k = omega arith in
    rw other (
      subst (λ j. ((peers j).running ≡ false) × (usable (peers j).sock_mutex ≡ true)) (sym place)
        (h (suc k)))

abbrev IsSome : Option (Peers × List ℕ) → Type 0
IsSome none = ⊥
IsSome (some r) = Unit {0}

step-IsSome :
    (b : Bool) (o : Option Object) (x : Option (Peers × List ℕ))
    (f : Object → Option (Peers × List ℕ))
    → b ≡ false
    → o ≡ some destroyed
    → IsSome (f destroyed)
    → IsSome (if b then x else elim o [ none ↦ none | some m ↦ f m ])
step-IsSome b o x f e e' h =
    subst (λ b. IsSome (if b then x else elim o [ none ↦ none | some m ↦ f m ])) (sym e)
      (subst (λ o. IsSome (elim o [ none ↦ none | some m ↦ f m ])) (sym e') h)

after_closed-IsSome :
    (fd : Option ℕ) (o : Option (Peers × List ℕ)) → IsSome o → IsSome (after_closed fd o)
after_closed-IsSome fd none h = h
after_closed-IsSome fd (some r) h = tt

cleanup_from-IsSome :
    (n i : ℕ) (peers : Peers) → EndedFrom i peers → IsSome (cleanup_from n i peers)
unfolding cleanup_from
cleanup_from-IsSome zero i peers h = tt
cleanup_from-IsSome (suc n) i peers h =
    let zeroth : i + 0 ≡ i = omega arith in
    let (ended, live) =
      subst (λ j. ((peers j).running ≡ false) × (usable (peers j).sock_mutex ≡ true)) zeroth
        (h 0) in
    let cleaned = record (peers i) { sock_fd = none; sock_mutex = destroyed } in
    step-IsSome (peers i).running (destroy (peers i).sock_mutex) (cleanup_from n (i + 1) peers)
      (λ mutex. after_closed (peers i).sock_fd (
        cleanup_from n (i + 1)
          (set_peer peers i (record (peers i) { sock_fd = none; sock_mutex = mutex }))))
      ended (destroy-some (peers i).sock_mutex live)
      (after_closed-IsSome (peers i).sock_fd (cleanup_from n (i + 1) (set_peer peers i cleaned))
        (cleanup_from-IsSome n (i + 1) (set_peer peers i cleaned) (after_set peers i cleaned h)))

leap-waiting :
    (p : Program) (closed : List ℕ) (r : Run LeapSecondState Status)
    → cleanup_leap p closed r ≡ waiting
leap-waiting p closed (done status l) = rw (cleanup-blocked p.mode default_config).0 refl
leap-waiting p closed blocked = refl

cleaned-waiting :
    (p : Program) (o : Option (Peers × List ℕ)) → IsSome o → cleaned_peers p o ≡ waiting
cleaned-waiting p none h = absurd h
cleaned-waiting p (some (peers, closed)) h =
    leap-waiting (record p { peers = peers; ido = ido_state_cleanup p.ido }) closed
      (leap_second_cleanup p.leap)

not_so : {A : Type 0} (b : Bool) (x y : A) → b ≡ false → (if not b then x else y) ≡ x
not_so true x y e = absurd cc
not_so false x y e = refl

so : {A : Type 0} (b : Bool) (x y : A) → b ≡ true → (if not b then x else y) ≡ y
so true x y e = refl
so false x y e = absurd cc

stopped_already : (c : ClockThread) → c.running ≡ false → stop_clock_thread c ≡ some c
unfolding stop_clock_thread
stopped_already c e = not_so c.running _ _ e

cleaned_clock :
    (c : ClockThread)
    → usable c.clock_mutex ≡ true
    → usable c.clock_cond ≡ true
    → cleanup_clock_thread c ≡ some (record c { clock_mutex = destroyed; clock_cond = destroyed })
unfolding cleanup_clock_thread
cleaned_clock c m k = rw (destroy-some c.clock_mutex m, ◌>>=◌, destroy-some c.clock_cond k) refl

stopped_peers :
    (n : ℕ) (peers : Peers)
    → ((j : ℕ) → (peers j).running ≡ false)
    → stop_peer_thread n peers ≡ some peers
unfolding stop_peer_thread
stopped_peers n peers h = stop_from-some n 0 peers h

cleaned_peers-IsSome :
    (n : ℕ) (peers : Peers) → EndedFrom 0 peers → IsSome (cleanup_peer_thread n peers)
unfolding cleanup_peer_thread
cleaned_peers-IsSome n peers h = cleanup_from-IsSome n 0 peers h

plus_zero : (k : ℕ) → 0 + k ≡ k
plus_zero k = omega arith

quiet-waiting : (p : Program) → IsQuiet p → cleanup_resources p ≡ waiting
unfolding cleanup_resources
quiet-waiting p h =
    let n = length p.config.peer_pool in
    let c = record p.clock_thread { clock_mutex = destroyed; clock_cond = destroyed } in
    let from_zero : EndedFrom 0 p.peers = λ k.
      subst (λ j. ((p.peers j).running ≡ false) × (usable (p.peers j).sock_mutex ≡ true))
        (sym (plus_zero k)) (h.peers_ended k, h.mutexes_live k) in
    subst (λ o. stop_clock p o ≡ waiting) (sym (stopped_already p.clock_thread h.clock_ended))
      (subst (λ o. cleanup_clock p o ≡ waiting)
        (sym (cleaned_clock p.clock_thread h.mutex_live h.cond_live))
        (subst (λ o. cleanup_peers (record p { clock_thread = c }) o ≡ waiting)
          (sym (stopped_peers n p.peers h.peers_ended))
          (cleaned-waiting (record p { clock_thread = c }) (cleanup_peer_thread n p.peers)
            (cleaned_peers-IsSome n p.peers from_zero))))

either : (e : Ended) → NotReturned e → (e ≡ waiting) ⊎ (e ≡ undefined)
either (returned p closed) h = absurd h
either waiting h = inl refl
either undefined h = inr refl

bind-none :
    {A B C : Type 0} (m : Option A) (o : Option B) (f : B → Option C)
    → o ≡ none
    → (m >>= λ _. o >>= f) ≡ none
bind-none none o f e = refl
bind-none (some a) o f e = rw (e, ◌>>=◌) refl

joins_detached :
    (c : ClockThread) → c.running ≡ true → c.thread_id ≡ detached → stop_clock_thread c ≡ none
unfolding stop_clock_thread
joins_detached c runs e =
    so c.running _ _ runs ∙ bind-none (clock_thread_notify c) (join c.thread_id) _ (ap join e)

running-undefined :
    (p : Program)
    → p.clock_thread.running ≡ true
    → p.clock_thread.thread_id ≡ detached
    → cleanup_resources p ≡ undefined
unfolding cleanup_resources
running-undefined p runs e =
    subst (λ o. stop_clock p o ≡ undefined) (sym (joins_detached p.clock_thread runs e)) refl

-- `cleanup_resources` never comes to its end. Where no thread runs and no mutex of one was destroyed, as when
-- the program ends before it starts any, it waits for ever for a mutex that it holds itself; where the clock
-- thread runs, which was detached, it does what is undefined; and from every other state it does one
-- or the other.
pub cleanup_resources_lem :
    (p q r : Program)
    → IsQuiet p
    → q.clock_thread.running ≡ true
    → q.clock_thread.thread_id ≡ detached
    → (cleanup_resources p ≡ waiting)
      × (cleanup_resources q ≡ undefined)
      × ((cleanup_resources r ≡ waiting) ⊎ (cleanup_resources r ≡ undefined))
cleanup_resources_lem p q r quiet runs e = (
  quiet-waiting p quiet,
  running-undefined q runs e,
  either (cleanup_resources r) (cleanup_resources-NotReturned r),
)
