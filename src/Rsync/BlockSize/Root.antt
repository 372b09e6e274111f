-- ===== src/Rsync/BlockSize/Root.antt =====
-- lib/rsync/operation.go: `isqrt` against the integer root, and the block size.
use mathlib.Core.Logic.{dif_pos, dif_neg}
use mathlib.Core.WellFounded.{Acc}
use native.Mathlib.Bridge.{le_prop}
use native.Mathlib.Nat.{div-add-mod, mod-lt, pow-suc}
use syncthing_mem.Base.{
  ℕ, zero, suc, ◌+◌, ◌*◌, ◌/◌, ◌%◌, ◌^◌, ◌≤◌, ◌<◌, ◌≡◌, ◌==◌, dec_lt, dec_le, arith, Bool-cases,
  inl, inr, ==→eq,
}
use syncthing_mem.Base.Order.{lt_wf, pow_pos, pow_mono, pow_double, square_mono, four_mul-le-square}
use syncthing_mem.Rsync.BlockSize.{
  u64_mod, len_bits, first_guess, newton, isqrt_loop, isqrt, min_block_size, max_block_size,
  optimal_block_size_for_base_length,
}

-- `r` is the root of `n`, rounded down.
abbrev pub IsRoot : ℕ → ℕ → Type 0
IsRoot r n = (r * r ≤ n) × (n < (r + 1) * (r + 1))

div_lower : (n x : ℕ) → x * (n / x) ≤ n
div_lower n x = omega (arith, div-add-mod n x)

div_upper : (n x : ℕ) → 0 < x → n < x * (n / x + 1)
div_upper n x h = omega (arith, div-add-mod n x, mod-lt n h)

-- The mean of `x` and `n / x`, rounded down, is at least the root.
mean_upper : (n x y : ℕ) → 0 < x → x + n / x < 2 * (y + 1) → n < (y + 1) * (y + 1)
mean_upper n x y h le = omega (
  arith,
  four_mul-le-square x (n / x + 1),
  square_mono (x + (n / x + 1)) (2 * (y + 1)) (omega arith),
  div_upper n x h,
)

mul_mono : (x a b : ℕ) → a ≤ b → x * a ≤ x * b
mul_mono x a b h = grind arith

div_small : (n x : ℕ) → 0 < x → n < (x + 1) * (x + 1) → n / x ≤ x + 2
div_small n x h lt = elim (dec_le (n / x) (x + 2)) [
  | yes le ↦ le
  | no gt ↦ absurd (omega (arith, mul_mono x (x + 3) (n / x) (omega arith), div_lower n x))
]

newton_mean : (n x : ℕ) → 0 < x → x ≤ 2 ^ 32 → n < (x + 1) * (x + 1) → newton n x ≡ (x + n / x) / 2
newton_mean n x h hb lt = omega (arith, div_small n x h lt)

newton_upper :
    (n x : ℕ) → 0 < x → x ≤ 2 ^ 32 → n < (x + 1) * (x + 1) → n < (newton n x + 1) * (newton n x + 1)
newton_upper n x h hb lt =
    rw (newton_mean n x h hb lt) (mean_upper n x ((x + n / x) / 2) h (omega arith))

newton_end : (n x : ℕ) → 0 < x → x ≤ 2 ^ 32 → n < (x + 1) * (x + 1) → x ≤ newton n x → x * x ≤ n
newton_end n x h hb lt le =
    omega (arith, mul_mono x x (n / x) (omega (arith, newton_mean n x h hb lt)), div_lower n x)

-- From an upper bound of the root the loop ends at the root.
isqrt_loop-IsRoot :
    (n x : ℕ) (w : Acc ◌<◌ x)
    → 0 < n
    → 0 < x
    → x ≤ 2 ^ 32
    → n < (x + 1) * (x + 1)
    → IsRoot (isqrt_loop n x w) n
unfolding isqrt_loop
isqrt_loop-IsRoot n x (Acc.intro _ smaller) hn hx hb hr = elim (dec_lt (newton n x) x) [
  | yes h ↦
      let up = newton_upper n x hx hb hr in
      let pos : 0 < newton n x = one_of (newton n x) up in
      rw (dif_pos _ le_prop h)
        (isqrt_loop-IsRoot n (newton n x) (smaller (newton n x) h) hn pos (omega arith) up)
  | no h ↦ rw (dif_neg _ h) (newton_end n x hx hb hr (omega arith), hr)
]
  where
    one_of : (y : ℕ) → n < (y + 1) * (y + 1) → 0 < y
    one_of zero h = omega arith
    one_of (suc y) h = omega arith

len_bits_bound : (f n : ℕ) → n < 2 ^ f → (n < 2 ^ len_bits f n) × (len_bits f n ≤ f)
unfolding len_bits
len_bits_bound zero n h = (h, omega arith)
len_bits_bound (suc f) n h = elim (Bool-cases (n == 0)) [
  | inl e ↦ rw e (ground arith, omega arith)
  | inr e ↦
      let half : n / 2 < 2 ^ f = omega (arith, pow-suc 2 f) in
      let (lt, le) = len_bits_bound f (n / 2) half in
      rw e (rw (pow-suc 2 (len_bits f (n / 2))) (omega arith), omega arith)
]

-- The first guess: a power of two that is at least the root.
start_upper : (n l : ℕ) → n < 2 ^ l → n < 2 ^ ((l + 1) / 2) * 2 ^ ((l + 1) / 2)
start_upper n l h =
    rw (← pow_double ((l + 1) / 2))
      (omega (arith, pow_mono l ((l + 1) / 2 + (l + 1) / 2) (omega arith)))

first_guess_upper :
    (n : ℕ)
    → 0 < n
    → n < u64_mod
    → (n < (first_guess n + 1) * (first_guess n + 1))
      × (0 < first_guess n)
      × (first_guess n ≤ 2 ^ 32)
unfolding first_guess
first_guess_upper n pos h = go (len_bits 64 n) (len_bits_bound 64 n h).0 (len_bits_bound 64 n h).1
  where
    go :
        (l : ℕ)
        → n < 2 ^ l
        → l ≤ 64
        → (n < (2 ^ ((l + 1) / 2) % u64_mod + 1) * (2 ^ ((l + 1) / 2) % u64_mod + 1))
          × (0 < 2 ^ ((l + 1) / 2) % u64_mod)
          × (2 ^ ((l + 1) / 2) % u64_mod ≤ 2 ^ 32)
    go l lt le =
        let cap : 2 ^ ((l + 1) / 2) ≤ 2 ^ 32 = pow_mono ((l + 1) / 2) 32 (omega arith) in
        let fits : 2 ^ ((l + 1) / 2) % u64_mod ≡ 2 ^ ((l + 1) / 2) = omega arith in
        rw fits (omega (arith, start_upper n l lt), pow_pos ((l + 1) / 2), cap)

-- `isqrt` returns the square root of every uint64, rounded down; no intermediate value wraps.
pub isqrt-IsRoot : (n : ℕ) → n < u64_mod → IsRoot (isqrt n) n
unfolding isqrt
isqrt-IsRoot n h = elim (Bool-cases (n == 0)) [
  | inl e ↦ rw e (let z = ==→eq n 0 e in omega arith)
  | inr e ↦
      let pos : 0 < n = ground arith in
      let (up, low, cap) = first_guess_upper n pos h in
      rw e (isqrt_loop-IsRoot n (first_guess n) (lt_wf.apply (first_guess n)) pos low cap up)
]

IsRoot-unique : (r s n : ℕ) → IsRoot r n → IsRoot s n → r ≡ s
IsRoot-unique r s n (a, b) (c, d) = elim (dec_lt r s) [
  | yes h ↦ absurd (omega (arith, square_mono (r + 1) s (omega arith)))
  | no h ↦ elim (dec_lt s r) [
    | yes k ↦ absurd (omega (arith, square_mono (s + 1) r (omega arith)))
    | no k ↦ omega arith
  ]
]

-- The block size lies between the two limits, whatever the length of the base.
pub optimal_block_size_bounds :
    (length : ℕ)
    → (min_block_size ≤ optimal_block_size_for_base_length length)
      × (optimal_block_size_for_base_length length ≤ max_block_size)
unfolding optimal_block_size_for_base_length
optimal_block_size_bounds length = (ground arith, ground arith)

-- The block size is the root of 24 times the length of the base, rounded down, wherever that root
-- lies between the two limits.
optimal_block_size_exact :
    (length r : ℕ)
    → IsRoot r (length * 24)
    → min_block_size ≤ r
    → r ≤ max_block_size
    → optimal_block_size_for_base_length length ≡ r
unfolding optimal_block_size_for_base_length
optimal_block_size_exact length r root lo hi =
    let small : length * 24 < 2 ^ 33 =
      omega (arith, root.1, square_mono (r + 1) 65537 (omega arith)) in
    let large : 1024 * 1024 ≤ length * 24 =
      omega (arith, root.0, square_mono 1024 r (omega arith)) in
    let fits : length * 24 % u64_mod ≡ length * 24 = omega arith in
    let found : isqrt (length * 24 % u64_mod) ≡ r =
      rw fits (IsRoot-unique _ r (length * 24) (isqrt-IsRoot (length * 24) (omega arith)) root) in
    rw found (ground arith)
