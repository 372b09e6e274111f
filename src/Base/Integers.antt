-- ===== src/Base/Integers.antt =====
-- Integers over the native numbers.
use Prim.Native.Nat.{ℕ, suc, ◌+◌, ◌-◌, ◌≤◌}
use mathlib.Core.Path.{◌≡◌}
use mathlib.Core.Bool.{Bool}
use native.Mathlib.Omega.{arith}
use syncthing_mem.Base.Tests.{ltb, ◌==◌, if◌then◌else◌}

pub data ℤ : Type 0 where
  pos : ℕ → ℤ
  negsuc : ℕ → ℤ

abbrev pub sub_ℕ : ℕ → ℕ → ℤ
sub_ℕ m n = if ltb m n then negsuc (n - m - 1) else pos (m - n)

abbrev pub pos_part : ℤ → ℕ
pos_part (pos n) = n
pos_part (negsuc n) = 0

abbrev pub neg_part : ℤ → ℕ
neg_part (pos n) = 0
neg_part (negsuc n) = suc n

infixl 65 ◌+ℤ◌
infix 50 ◌≤ℤ◌ ◌==ℤ◌
unfoldable pub ◌+ℤ◌ : ℤ → ℤ → ℤ
a +ℤ b = sub_ℕ (pos_part a + pos_part b) (neg_part a + neg_part b)

abbrev pub ◌≤ℤ◌ : ℤ → ℤ → Type 0
a ≤ℤ b = pos_part a + neg_part b ≤ pos_part b + neg_part a

abbrev pub ◌==ℤ◌ : ℤ → ℤ → Bool
a ==ℤ b = pos_part a + neg_part b == pos_part b + neg_part a

-- The sum by the parts of its terms: what the tactics need with the operation shut.
pub +ℤ_parts :
    (a b : ℤ)
    → pos_part (a +ℤ b) + neg_part a + neg_part b ≡ neg_part (a +ℤ b) + pos_part a + pos_part b
unfolding ◌+ℤ◌
+ℤ_parts a b = ground arith

pub ruleset int_laws = (arith, +ℤ_parts)
