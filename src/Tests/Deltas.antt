-- ===== src/Tests/Deltas.antt =====
-- lib/rsync at concrete files, with a strong hash that pads to its 20 bytes.
use mathlib.Core.List.{foldl}
use syncthing_mem.Base.{
  ℕ, zero, suc, ◌≤◌, ◌<◌, ◌≡◌, ◌↔◌, refl, inr, List, [], ◌∷◌, ◌++◌, length, false, arith,
}
use syncthing_mem.Rsync.{
  Bytes, Operation, block, literal, Signature, corrupt_delta, ok, panic, int_max,
}
use syncthing_mem.Rsync.Rolling.{new_rolling_hash, write, roll, sum}
use syncthing_mem.Rsync.Rolling.Slide.{sum-rolls}
use syncthing_mem.Rsync.BlockSize.{isqrt}
use syncthing_mem.Rsync.BlockSize.Root.{IsRoot, optimal_block_size_bounds, isqrt-IsRoot}
use syncthing_mem.Rsync.Blocks.{block_at, expand, length-block_at}
use syncthing_mem.Rsync.Generate.{generate_signature, validate_signature}
use syncthing_mem.Rsync.Generate.Blocks.{
  signature_of, Describes, HasAllHashes, generate_signature-Describes, signature_of-Describes,
}
use syncthing_mem.Rsync.Deltify.{deltify}
use syncthing_mem.Rsync.Deltify.Match.{NoCollision}
use syncthing_mem.Rsync.Deltify.Total.{Rebuilds, deltify-Rebuilds}
use syncthing_mem.Rsync.Patch.{new_engine, patch}
use syncthing_mem.Rsync.Patch.Blocks.{patch-expand}
use syncthing_mem.Rsync.Uvarint.{uvarint, read_uvarint, read_uvarint-uvarint}
use syncthing_mem.Rsync.Wire.{encode_delta, decode_delta, apply_delta, strong_size}
use syncthing_mem.Rsync.Wire.RoundTrip.{decode-encode_delta}
use syncthing_mem.Rsync.Wire.Transfer.{transfer, transfer-target}
use syncthing_mem.Rsync.Wire.Hostile.{HasHugeBlockSize, apply_delta-panic, deltify_huge_block_size}

-- The first `n` bytes, with zeros behind where there are fewer.
abbrev pad : ℕ → Bytes → Bytes
pad zero d = []
pad (suc n) [] = 0 ∷ pad n []
pad (suc n) (x ∷ d) = x ∷ pad n d

length-pad : (n : ℕ) (d : Bytes) → length (pad n d) ≡ n
length-pad zero d = refl
length-pad (suc n) [] = rw (length-pad n [])
length-pad (suc n) (x ∷ d) = rw (length-pad n d)

pad_injective :
    (n : ℕ) (a b : Bytes) → length a ≡ length b → length b ≤ n → pad n a ≡ pad n b → a ≡ b
pad_injective n [] [] e h p = refl
pad_injective n [] (y ∷ b) e h p = absurd (omega arith)
pad_injective n (x ∷ a) [] e h p = absurd (omega arith)
pad_injective zero (x ∷ a) (y ∷ b) e h p = absurd (omega arith)
pad_injective (suc n) (x ∷ a) (y ∷ b) e h p =
    let first : x ≡ y = cc in
    let rest : pad n a ≡ pad n b = cc in cc (pad_injective n a b (omega arith) (omega arith) rest)

abbrev digest : Bytes → Bytes
digest = pad strong_size

length-digest : (d : Bytes) → length (digest d) ≡ strong_size
length-digest = length-pad strong_size

-- The largest slice that a 64-bit platform allocates.
abbrev max_alloc : ℕ
max_alloc = 281474976710656

abbrev base : Bytes
base = 1 ∷ 2 ∷ 3 ∷ []

abbrev target : Bytes
target = 9 ∷ 1 ∷ 2 ∷ 3 ∷ []

digest-NoCollision : (size : ℕ) → NoCollision digest base size
digest-NoCollision size i bytes inside len e =
    pad_injective 20 bytes (block_at base size i) len (omega (arith, length-block_at base size i)) e

transfer-target_example : transfer max_alloc digest base target ≡ ok target
transfer-target_example =
    transfer-target max_alloc digest base target length-digest (digest-NoCollision _) (omega arith)
      (omega arith)

small : (signature_of digest base).block_size < int_max
unfolding signature_of
small = omega (arith, (optimal_block_size_bounds (length base)).1)

deltify-Rebuilds_example :
    Rebuilds base
      (signature_of digest base).block_size
      target
      (deltify digest (record { left = target; fails = false }) (signature_of digest base))
deltify-Rebuilds_example =
    deltify-Rebuilds digest (signature_of digest base) base target
      (signature_of-Describes digest base) (digest-NoCollision _) small

generate_signature-Describes_example :
    (sig : Signature) × (generate_signature digest
        (record { left = base; fails = false })
        (length base)
      ≡ ok sig)
    × Describes digest sig base
    × HasAllHashes digest sig base
generate_signature-Describes_example = generate_signature-Describes digest base

-- Two blocks, a literal, and the first block again.
abbrev ops : List Operation
ops = block 0 2 ∷ literal (7 ∷ []) ∷ block 0 1 ∷ []

patch-expand_example : patch max_alloc (new_engine 0) base ops 2 ≡ ok (expand base 2 ops)
patch-expand_example =
    patch-expand max_alloc (new_engine 0) base ops 2
      (record { positive = omega arith; small = omega arith; file = omega arith })
      (inr (omega arith))
      (omega arith, omega arith, (omega arith, omega arith, (omega arith, omega arith, tt)))

expand_run : expand base 2 ops ≡ 1 ∷ 2 ∷ 3 ∷ 7 ∷ 1 ∷ 2 ∷ []
expand_run = refl

sum-rolls_example :
    sum (foldl roll (write (new_rolling_hash 3) base) (8 ∷ 9 ∷ []))
    ≡ sum (write (new_rolling_hash 3) (3 ∷ 8 ∷ 9 ∷ []))
sum-rolls_example = sum-rolls base (8 ∷ 9 ∷ []) (omega arith)

abbrev one_block : Signature
one_block = record {
  block_size = 2;
  last_block_size = 1;
  hashes =
      record { weak_hash = 5; strong_hash = digest (1 ∷ 2 ∷ []) }
      ∷ record { weak_hash = 6; strong_hash = digest (3 ∷ []) }
      ∷ [];
}

decode-encode_delta_example : decode_delta (encode_delta 2 ops) ≡ ok (2, ops)
decode-encode_delta_example =
    decode-encode_delta 2 ops (omega arith) (omega arith)
      (omega arith, omega arith, (omega arith, (omega arith, omega arith, tt)))

read_uvarint-uvarint_example : read_uvarint corrupt_delta (uvarint 300 ++ 7 ∷ []) ≡ ok (300, 7 ∷ [])
read_uvarint-uvarint_example = read_uvarint-uvarint 300 corrupt_delta (7 ∷ []) (omega arith)

isqrt-IsRoot_example : IsRoot (isqrt 1000000) 1000000
isqrt-IsRoot_example = isqrt-IsRoot 1000000 (omega arith)

-- A delta of 13 bytes for a block size of 2^63, with no operation.
abbrev hostile : Bytes
hostile = encode_delta 9223372036854775808 []

apply_delta-panic_example :
    (apply_delta max_alloc base hostile ≡ panic) ↔ HasHugeBlockSize max_alloc hostile
apply_delta-panic_example = apply_delta-panic max_alloc base hostile

hostile-HasHugeBlockSize : HasHugeBlockSize max_alloc hostile
hostile-HasHugeBlockSize = (
  9223372036854775808,
  [],
  decode-encode_delta _ [] (omega arith) (omega arith) tt,
  omega arith,
  omega arith,
)

hostile_panics : apply_delta max_alloc base hostile ≡ panic
hostile_panics = apply_delta-panic_example.1 hostile-HasHugeBlockSize

abbrev huge : Signature
huge = record {
  block_size = 9223372036854775808;
  last_block_size = 1;
  hashes = record { weak_hash = 5; strong_hash = digest [] } ∷ [];
}

huge_valid : validate_signature huge ≡ ok huge
unfolding validate_signature
huge_valid = ground arith

deltify_huge_block_size_example :
    deltify digest (record { left = target; fails = false }) huge ≡ ok []
deltify_huge_block_size_example =
    deltify_huge_block_size digest huge target huge_valid (omega arith) (omega arith)
