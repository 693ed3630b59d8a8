-- ===== src/Threads.antt =====
-- threads.c: the threads of the daemon and the objects of the POSIX thread library that they share.
-- A mutex or a condition is an object whose bytes are zero, as a static initialiser makes them, or one
-- that was initialised, or one that was destroyed. Using a destroyed object, and joining a thread that is
-- not joinable, is undefined: the result is `none`.
pub mod Clock
pub mod Peer
use dragon_ntpd.Base.{Bool, true, false, Option, none, some}

pub data Object : Type 0 where
  zeroed ready destroyed : Object

abbrev pub usable : Object → Bool
usable zeroed = true
usable ready = true
usable destroyed = false

-- `pthread_mutex_destroy` and `pthread_cond_destroy`
abbrev pub destroy : Object → Option Object
destroy zeroed = some destroyed
destroy ready = some destroyed
destroy destroyed = none

-- The thread that a handle names.
pub data Thread : Type 0 where
  absent joinable detached joined : Thread

-- `pthread_join`
abbrev pub join : Thread → Option Thread
join absent = none
join joinable = some joined
join detached = none
join joined = none

-- Which calls of the library succeed.
pub record System : Type 0 where
  pub mutex_init : Bool
  pub cond_init : Bool
  pub create : Bool
  pub detach : Bool
