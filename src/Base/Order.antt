-- ===== src/Base/Order.antt =====
-- The order of the native numbers is well founded; squares and powers of two.
use mathlib.Core.WellFounded.{Acc, WellFounded}
use native.Mathlib.Nat.{pow-suc}
use Prim.Native.Nat.{ℕ, zero, suc, ◌+◌, ◌-◌, ◌*◌, ◌^◌, ◌≤◌, ◌<◌}
use mathlib.Core.Path.{◌≡◌, refl, subst}
use native.Mathlib.Decide.{dec_le}
use native.Mathlib.Omega.{arith}

Acc-below : (k n : ℕ) → n < k → Acc ◌<◌ n
Acc-below zero n h = elim h [ ]
Acc-below (suc k) n h = Acc.intro n (λ m hm. Acc-below k m (omega arith))

unfoldable pub lt_wf : WellFounded ◌<◌
unfolding Acc-below
lt_wf = record { apply = λ n. Acc-below (suc n) n (omega arith) }

pub pow_pos : (k : ℕ) → 0 < 2 ^ k
pow_pos zero = omega arith
pow_pos (suc k) = rw pow-suc (omega (arith, pow_pos k))

pub pow_mono : (j k : ℕ) → j ≤ k → 2 ^ j ≤ 2 ^ k
pow_mono zero k h = pow_pos k
pow_mono (suc j) zero h = absurd (omega arith)
pow_mono (suc j) (suc k) h =
    rw (pow-suc 2 j, pow-suc 2 k) (omega (arith, pow_mono j k (omega arith)))

pub pow_double : (k : ℕ) → 2 ^ (k + k) ≡ 2 ^ k * 2 ^ k
pow_double zero = refl
pow_double (suc k) =
    let e : suc k + suc k ≡ suc (suc (k + k)) = omega arith in
    rw (e, pow-suc 2 (suc (k + k)), pow-suc 2 (k + k), pow_double k, pow-suc 2 k) (omega arith)

pub square_mono : (a b : ℕ) → a ≤ b → a * a ≤ b * b
square_mono a b h = grind arith

means_apart : (a d : ℕ) → 4 * (a * (a + d)) ≤ (a + (a + d)) * (a + (a + d))
means_apart a d = omega arith

-- The product of two numbers is at most the square of their mean.
pub four_mul-le-square : (a b : ℕ) → 4 * (a * b) ≤ (a + b) * (a + b)
four_mul-le-square a b = elim (dec_le a b) [
  | yes h ↦
      let e : a + (b - a) ≡ b = omega arith in
      subst (λ c. 4 * (a * c) ≤ (a + c) * (a + c)) e (means_apart a (b - a))
  | no h ↦
      let e : b + (a - b) ≡ a = omega arith in
      subst (λ c. 4 * (c * b) ≤ (c + b) * (c + b)) e (omega (arith, means_apart b (a - b)))
]
