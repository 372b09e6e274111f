-- ===== src/Rsync/Generate.antt =====
-- lib/rsync/engine.go: `GenerateSignature`, `validateSignature`, `blockLength`. The strong hash is
-- the SHA-1 of the standard library, a parameter here.
pub mod Blocks
use syncthing_mem.Base.{
  ℕ, zero, suc, ◌+◌, ◌-◌, List, [], ◌∷◌, ◌++◌, ◌&&◌, length, ltb, ◌==◌, if◌then◌else◌,
}
use syncthing_mem.Rsync.{
  Bytes, BlockHash, Signature, Error, Result, ok, err, zero_block_size, last_block_too_large,
  last_block_empty, read_failed, out_of_fuel, Reader, ReadEnd, full, short, failed, read_full,
}
use syncthing_mem.Rsync.Rolling.{new_rolling_hash, write, sum}
use syncthing_mem.Rsync.BlockSize.{optimal_block_size_for_base_length}

unfoldable pub finish : Signature → Signature
finish sig = if length sig.hashes == 0 then record sig { last_block_size = 0 } else sig

module _ (sha1 : Bytes → Bytes) where
  unfoldable pub hash_block : Bytes → BlockHash
  hash_block block = record {
    weak_hash = sum (write (new_rolling_hash (length block)) block);
    strong_hash = sha1 block;
  }

  -- A round of the loop adds the bytes that were read, if any, as a block.
  unfoldable pub add_block : Bytes → Signature → Signature
  unfolding hash_block
  add_block chunk sig =
      if ltb 0 (length chunk)
      then record sig {
        hashes = sig.hashes ++ hash_block chunk ∷ [];
        last_block_size = length chunk;
      }
      else sig

  unfoldable pub generate_loop : ℕ → Reader → Signature → Result Signature
  generate_loop zero r sig = err out_of_fuel
  generate_loop (suc f) r sig =
      let (chunk, ended, r') = read_full sig.block_size r in
      elim ended [
        | full ↦ generate_loop f r' (add_block chunk sig)
        | short ↦ ok (finish (add_block chunk sig))
        | failed ↦ err read_failed
      ]

  -- Each round but the last reads a whole block, of at least one byte.
  unfoldable pub generate_signature : Reader → ℕ → Result Signature
  unfolding generate_loop
  generate_signature reader file_size = generate_loop (suc (length reader.left)) reader (record {
    block_size = optimal_block_size_for_base_length file_size;
    last_block_size = 0;
    hashes = [];
  })

-- The signature is there (not nil); `none` of the checks failed in `ok`.
unfoldable pub validate_signature : Signature → Result Signature
validate_signature sig =
    if sig.block_size == 0
    then err zero_block_size
    else if ltb sig.block_size sig.last_block_size
    then err last_block_too_large
    else if ltb 0 (length sig.hashes) && sig.last_block_size == 0
    then err last_block_empty
    else ok sig

unfoldable pub block_length : Signature → ℕ → ℕ
block_length sig index =
    if index + 1 == length sig.hashes then sig.last_block_size else sig.block_size
