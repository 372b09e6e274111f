-- ===== src/Rsync/BlockSize.antt =====
-- lib/rsync/operation.go: the block size for a base file, the integer root of 24 times its length
-- between two limits. The arithmetic is uint64.
pub mod Root
use mathlib.Core.Logic.{dite}
use mathlib.Core.WellFounded.{Acc, WellFounded}
use syncthing_mem.Base.{
  ℕ, zero, suc, ◌+◌, ◌-◌, ◌*◌, ◌/◌, ◌%◌, ◌^◌, ◌<◌, ltb, ◌==◌, if◌then◌else◌, dec_lt,
}
use syncthing_mem.Base.Order.{lt_wf}

abbrev pub u64_mod : ℕ
u64_mod = 2 ^ 64

abbrev pub min_block_size : ℕ
min_block_size = 1024

abbrev pub max_block_size : ℕ
max_block_size = 64 * 1024

abbrev pub max_uint64 : ℕ
max_uint64 = u64_mod - 1

-- `bits.Len64` of the standard library, with a round for each bit of a word.
unfoldable pub len_bits : ℕ → ℕ → ℕ
len_bits zero n = 0
len_bits (suc f) n = let rest = suc (len_bits f (n / 2)) in if n == 0 then 0 else rest

-- `y` of the loop in `isqrt`
abbrev pub newton : ℕ → ℕ → ℕ
newton n x = (x + n / x) % u64_mod / 2

-- The loop of `isqrt` goes on as long as `y` is smaller than `x`.
unfoldable pub isqrt_loop : (n x : ℕ) → Acc ◌<◌ x → ℕ
isqrt_loop n x (Acc.intro _ smaller) =
    dite (dec_lt (newton n x) x) (λ h. isqrt_loop n (newton n x) (smaller (newton n x) h)) (λ _. x)

-- Where the loop starts: a power of two.
unfoldable pub first_guess : ℕ → ℕ
unfolding len_bits
first_guess n = 2 ^ ((len_bits 64 n + 1) / 2) % u64_mod

unfoldable pub isqrt : ℕ → ℕ
isqrt n = if n == 0 then 0 else isqrt_loop n (first_guess n) (lt_wf.apply (first_guess n))

unfoldable pub optimal_block_size_for_base_length : ℕ → ℕ
optimal_block_size_for_base_length length =
    if length == 0
    then min_block_size
    else if ltb (max_uint64 / 24) length
    then max_block_size
    else let optimal = isqrt (length * 24 % u64_mod) in
      if ltb optimal min_block_size
      then min_block_size
      else if ltb max_block_size optimal
      then max_block_size
      else optimal
