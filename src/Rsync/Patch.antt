-- ===== src/Rsync/Patch.antt =====
-- lib/rsync/engine.go: `NewEngine` and `Patch`. The base is a seekable reader over bytes in memory,
-- as in `ApplyDelta`; the output is a buffer, which takes every write.
pub mod Blocks
use syncthing_mem.Base.{
  ℕ, zero, suc, ◌+◌, ◌-◌, ◌*◌, ◌/◌, ◌%◌, Bool, List, [], ◌∷◌, ◌++◌, ◌&&◌, ◌||◌, length, take, drop,
  ltb, leb, ◌==◌, if◌then◌else◌,
}
use syncthing_mem.Rsync.{
  Bytes, Operation, block, literal, Result, ok, err, panic, read_failed, zero_block_size,
  zero_block_count, block_out_of_range, ◌>>=◌, int_max,
}
use syncthing_mem.Rsync.BlockSize.{u64_mod, max_block_size}

-- The size of the buffer of an engine.
unfoldable pub new_engine : ℕ → ℕ
new_engine buffer_size = if ltb buffer_size 1 then max_block_size else buffer_size

-- The number of blocks of the base, in uint64.
unfoldable pub count_blocks : ℕ → ℕ → ℕ
count_blocks base_size block_size =
    if ltb 0 base_size then (base_size + block_size + u64_mod - 1) % u64_mod / block_size else 0

module _ (base : Bytes) (block_size : ℕ) where
  -- The body of the loop over the blocks of an operation: seek, read, write.
  unfoldable pub copy_block : ℕ → Bytes → Result Bytes
  copy_block index out =
      let offset = index * block_size % u64_mod in
      let remaining = (length base + u64_mod - offset) % u64_mod in
      let size = if ltb remaining block_size then remaining else block_size in
      if leb int_max offset
      then err read_failed
      else if ltb (length (drop offset base)) size
      then err read_failed
      else ok (out ++ take size (drop offset base))

  unfoldable pub copy_blocks : ℕ → ℕ → Bytes → Result Bytes
  copy_blocks zero index out = ok out
  copy_blocks (suc left) index out = do
    out' ← copy_block index out
    copy_blocks left (index + 1) out'

  -- One operation, against the number of blocks of the base.
  unfoldable pub apply : ℕ → Operation → Bytes → Result Bytes
  apply block_count (literal bytes) out = ok (out ++ bytes)
  apply block_count (block start count) out =
      if count == 0
      then err zero_block_count
      else if leb block_count start || ltb (block_count - start) count
      then err block_out_of_range
      else copy_blocks count start out

  unfoldable pub apply_all : ℕ → List Operation → Bytes → Result Bytes
  apply_all block_count [] out = ok out
  apply_all block_count (op ∷ ops) out = do
    out' ← apply block_count op out
    apply_all block_count ops out'

-- `Patch`, with the buffer of the engine. `make` of the runtime panics at a length above the largest
-- that it allocates, which is below 2^63 on every platform.
unfoldable pub patch : ℕ → ℕ → Bytes → List Operation → ℕ → Result Bytes
patch max_alloc buffer base ops block_size =
    if block_size == 0
    then err zero_block_size
    else if ltb buffer block_size && ltb max_alloc block_size
    then panic
    else apply_all base block_size (count_blocks (length base) block_size) ops []
