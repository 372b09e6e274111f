-- ===== src/Base/Options.antt =====
-- Chains of computations that may have no value, for do blocks.
use mathlib.Core.Option.{Option, none, some}

infixl 5 ◌>>=◌
abbrev pub ◌>>=◌ : {A B : Type 0} → Option A → (A → Option B) → Option B
none >>= f = none
some a >>= f = f a
