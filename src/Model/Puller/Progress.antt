-- ===== src/Model/Puller/Progress.antt =====
-- lib/model/sharedpullerstate.go: `Progress` and `blocksToSize`. The products of `blocksToSize` are
-- about the size of the file and fit an int64; what is subtracted is never more than what it is
-- subtracted from.
use native.Mathlib.Nat.{mul-add-mod_self_right, mul-div_cancel, suc-mul, mod_self, mod-eq_of_lt}
use syncthing_mem.Base.{
  ℕ, ℤ, sub_ℕ, suc, ◌+◌, ◌-◌, ◌*◌, ◌/◌, ◌%◌, ◌≤◌, ◌<◌, ◌≡◌, ap, ◌∙◌, length, ◌==◌, if◌then◌else◌,
  arith, inl, inr, Bool-cases, ==→eq,
}
use syncthing_mem.Protocol.FileInfo.{block_size_of}
use syncthing_mem.Model.Puller.{PullerState}

unfoldable pub blocks_to_size : ℕ → ℕ → ℕ → ℕ → ℕ
blocks_to_size blocks blocks_in_file block_size file_size =
    if blocks_in_file == 0
    then 0
    else blocks * block_size - (block_size - file_size % block_size) * blocks / blocks_in_file

-- `CopiedFromOriginShifted` is never set.
pub record PullerProgress : Type 0 where
  pub total : ℕ
  pub reused : ℕ
  pub copied_from_origin : ℕ
  pub copied_from_elsewhere : ℤ
  pub pulled : ℕ
  pub pulling : ℕ
  pub bytes_done : ℕ
  pub bytes_total : ℕ

unfoldable pub progress : PullerState → PullerProgress
progress s =
    let total = s.reused + s.copy_total + s.pull_total in
    let done = total - s.copy_needed - s.pull_needed in
    let file = length s.file.blocks in
    record {
      total = total;
      reused = s.reused;
      copied_from_origin = s.copy_origin;
      copied_from_elsewhere = sub_ℕ s.copy_total (s.copy_needed + s.copy_origin);
      pulled = s.pull_total - s.pull_needed;
      pulling = s.pull_needed;
      bytes_total = blocks_to_size total file (block_size_of s.file) s.file.size;
      bytes_done = blocks_to_size done file (block_size_of s.file) s.file.size;
    }

succ_pos : (n : ℕ) → 0 < suc n
succ_pos n = omega arith

all_blocks :
    (full last block_size x : ℕ)
    → last % block_size ≡ x
    → blocks_to_size (suc full) (suc full) block_size (full * block_size + last)
      ≡ full * block_size + block_size - (block_size - x)
unfolding blocks_to_size
all_blocks full last block_size x is =
    rw
      (
        mul-add-mod_self_right full block_size last,
        is,
        mul-div_cancel (block_size - x) (succ_pos full),
        suc-mul full block_size,
      )
      (ground arith)

-- The size of all blocks of a file is the size of the file if its last block is not full, and a block
-- less than that if it is.
pub blocks_to_size_all :
    (full last block_size : ℕ)
    → 0 < last
    → last ≤ block_size
    → blocks_to_size (suc full) (suc full) block_size (full * block_size + last)
      ≡ (if last == block_size then full * block_size else full * block_size + last)
blocks_to_size_all full last block_size filled fits = elim (Bool-cases (last == block_size)) [
  | inl whole ↦
      rw
        (all_blocks full last block_size 0
          (ap (λ (k : ℕ). k % block_size) (==→eq last block_size whole) ∙ mod_self block_size))
        (ground arith)
  | inr part ↦
      rw (all_blocks full last block_size last (mod-eq_of_lt (ground arith))) (ground arith)
]
