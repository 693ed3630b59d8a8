-- ===== src/Base/Lock.antt =====
-- Code of one thread that takes and releases a mutex. The mutexes of the program are initialised with
-- PTHREAD_MUTEX_INITIALIZER and are not recursive: a thread that locks one that it holds waits for
-- itself for ever, which is `blocked`.
use mathlib.Core.Bool.{Bool, true, false}
use dragon_ntpd.Base.Tests.{if◌then◌else◌}

-- What a mutex protects, and whether this thread holds it.
pub record Locked (S : Type 0) : Type 0 where
  pub held : Bool
  pub value : S

pub data Run (S A : Type 0) : Type 0 where
  done : A → Locked S → Run S A
  blocked : Run S A

abbrev pub M : Type 0 → Type 0 → Type 0
M S A = Locked S → Run S A

infixl 5 ◌>>=◌ ◌>>◌
abbrev pub ◌>>=◌ : {S A B : Type 0} → M S A → (A → M S B) → M S B
◌>>=◌ m f l = elim (m l) [ done a l' ↦ f a l' | blocked ↦ blocked ]

abbrev pub ◌>>◌ : {S A B : Type 0} → M S A → M S B → M S B
m >> k = m >>= λ _. k

abbrev pub pure : {S A : Type 0} → A → M S A
pure a l = done a l

abbrev pub lock : {S : Type 0} → M S (Unit {0})
lock l = if l.held then blocked else done tt (record l { held = true })

abbrev pub unlock : {S : Type 0} → M S (Unit {0})
unlock l = done tt (record l { held = false })

abbrev pub get : {S : Type 0} → M S S
get l = done l.value l

abbrev pub modify : {S : Type 0} → (S → S) → M S (Unit {0})
modify f l = done tt (record l { value = f l.value })

-- The state with the mutex free, between two calls.
abbrev pub free : {S : Type 0} → S → Locked S
free s = record { held = false; value = s }
