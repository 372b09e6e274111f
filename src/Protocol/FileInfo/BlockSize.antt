-- ===== src/Protocol/FileInfo/BlockSize.antt =====
-- lib/protocol/bep_fileinfo.go, `BlockSize`.
use syncthing_mem.Base.{ℕ, ◌*◌, ◌≤◌, ◌<◌, ◌≡◌, ◌⊎◌, arith}
use syncthing_mem.Protocol.FileInfo.{
  block_size, pick_block_size, block_sizes_from, min_block_size, desired_per_file_blocks,
}

-- The block size lies between 128 KiB and 16 MiB. A file is shorter than 2000 blocks of it, unless it
-- is the largest, and no shorter than 2000 blocks of half that size, unless it is the smallest.
pub block_size_bounds :
    (size : ℕ)
    → (min_block_size ≤ block_size size)
      × (block_size size ≤ 16777216)
      × ((size < desired_per_file_blocks * block_size size) ⊎ (block_size size ≡ 16777216))
      × ((block_size size ≡ min_block_size)
          ⊎ (desired_per_file_blocks * block_size size ≤ size * 2))
unfolding block_size pick_block_size block_sizes_from
block_size_bounds size = ground arith
