-- ===== src/Base/Bind.antt =====
-- Chains of reads: `none` is a read outside an object, which C leaves undefined.
use mathlib.Core.Option.{Option, none, some}

infixl 5 ◌>>=◌
abbrev pub ◌>>=◌ {ℓ κ} : {A : Type ℓ} {B : Type κ} → Option A → (A → Option B) → Option B
none >>= f = none
some a >>= f = f a

-- The C results `0` and `-1`.
pub data Status : Type 0 where
  ok error : Status
