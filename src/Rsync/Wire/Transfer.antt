-- ===== src/Rsync/Wire/Transfer.antt =====
-- lib/rsync/wire.go: the three calls of a transfer, end to end.
use syncthing_mem.Base.{
  ℕ, zero, suc, ◌+◌, ◌*◌, ◌≤◌, ◌<◌, ◌≡◌, refl, ap, ◌∙◌, List, [], ◌∷◌, map, length, arith,
  get_elem?_of_lt, inl,
}
use syncthing_mem.Rsync.{Bytes, Operation, block, literal, Signature, Result, ok, int_max, ◌>>=◌}
use syncthing_mem.Rsync.Rolling.Slide.{sum-write-lt}
use syncthing_mem.Rsync.BlockSize.{u64_mod, max_block_size, optimal_block_size_for_base_length}
use syncthing_mem.Rsync.BlockSize.Root.{optimal_block_size_bounds}
use syncthing_mem.Rsync.Blocks.{Fits, length-ops-le}
use syncthing_mem.Rsync.Generate.{hash_block}
use syncthing_mem.Rsync.Generate.Blocks.{
  signature_of, Describes, generate-signature_of, signature_of-Describes,
}
use syncthing_mem.Rsync.Deltify.Match.{NoCollision}
use syncthing_mem.Rsync.Deltify.Total.{deltify-Rebuilds}
use syncthing_mem.Rsync.Patch.{new_engine}
use syncthing_mem.Rsync.Patch.Blocks.{patch-expand}
use syncthing_mem.Rsync.Wire.{strong_size, signature_bytes, delta_bytes, apply_delta}
use syncthing_mem.Rsync.Wire.RoundTrip.{
  HashesFit, SignatureFits, OperationsFit, decode-encode_signature, decode-encode_delta,
}

HashesFit-map :
    (sha1 : Bytes → Bytes) (chunks : List Bytes)
    → ((bytes : Bytes) → length (sha1 bytes) ≡ strong_size)
    → HashesFit (map (hash_block sha1) chunks)
unfolding hash_block
HashesFit-map sha1 [] h = tt
HashesFit-map sha1 (c ∷ chunks) h = (sum-write-lt _ c, h c, HashesFit-map sha1 chunks h)

-- There are no more blocks than bytes.
count_hashes-le :
    (sha1 : Bytes → Bytes) (sig : Signature) (base : Bytes)
    → Describes sha1 sig base
    → length sig.hashes ≤ length base
count_hashes-le sha1 sig base d = go (length sig.hashes) refl
  where
    go : (n : ℕ) → n ≡ length sig.hashes → n ≤ length base
    go zero e = omega arith
    go (suc i) e =
        let (h, found) = get_elem?_of_lt sig.hashes i (omega arith) in
        let inside = (d.served i h found).0 in grind (arith, inside, d.positive)

block_size_small :
    (sha1 : Bytes → Bytes) (base : Bytes) → (signature_of sha1 base).block_size ≤ max_block_size
unfolding signature_of
block_size_small sha1 base = (optimal_block_size_bounds (length base)).1

signature_of-SignatureFits :
    (sha1 : Bytes → Bytes) (base : Bytes)
    → ((bytes : Bytes) → length (sha1 bytes) ≡ strong_size)
    → length base < int_max
    → SignatureFits (signature_of sha1 base)
signature_of-SignatureFits sha1 base h small =
    let d = signature_of-Describes sha1 base in
    let size = block_size_small sha1 base in
    record {
      size = omega arith;
      last = omega (arith, d.bounded);
      count = omega (arith, count_hashes-le sha1 (signature_of sha1 base) base d);
      entries = unfold signature_of in (HashesFit-map sha1 _ h);
    }

le-mul : (n k : ℕ) → 0 < k → n ≤ n * k
le-mul n k h = grind arith

OperationsFit-Fits :
    (base : Bytes) (size : ℕ) (ops : List Operation)
    → 0 < size
    → size < int_max
    → length base < int_max
    → Fits base size ops
    → OperationsFit ops
OperationsFit-Fits base size [] pos hs hb f = tt
OperationsFit-Fits base size (literal bytes ∷ ops) pos hs hb (a, b, f) =
    (b, OperationsFit-Fits base size ops pos hs hb f)
OperationsFit-Fits base size (block start count ∷ ops) pos hs hb (a, b, f) =
    let low : start + count < u64_mod = omega (arith, le-mul (start + count) size pos) in
    (omega arith, omega arith, OperationsFit-Fits base size ops pos hs hb f)

block_size_in_buffer :
    (sha1 : Bytes → Bytes) (base : Bytes) → (signature_of sha1 base).block_size ≤ new_engine 0
unfolding signature_of new_engine
block_size_in_buffer sha1 base = omega (arith, (optimal_block_size_bounds (length base)).1)

-- A transfer as the comment in wire.go describes it: the requester sends the signature of its old
-- block, the responder answers with a delta to the new block, and the requester applies it.
abbrev pub transfer : ℕ → (Bytes → Bytes) → Bytes → Bytes → Result Bytes
transfer max_alloc sha1 base target = do
  sig ← signature_bytes sha1 base
  delta ← delta_bytes sha1 target sig
  apply_delta max_alloc base delta

-- A transfer rebuilds every target from every base: all three calls return, and the last one
-- returns the target. The strong hash has 20 bytes and does not collide on the blocks of the base,
-- and the lengths of base and target are `int`s. Whatever the runtime can allocate, the blocks fit in
-- the engine's buffer.
pub transfer-target :
    (max_alloc : ℕ) (sha1 : Bytes → Bytes) (base target : Bytes)
    → ((bytes : Bytes) → length (sha1 bytes) ≡ strong_size)
    → NoCollision sha1 base (optimal_block_size_for_base_length (length base))
    → length base < int_max
    → length target < int_max
    → transfer max_alloc sha1 base target ≡ ok target
unfolding signature_bytes delta_bytes apply_delta
transfer-target max_alloc sha1 base target h n hb ht =
    let d = signature_of-Describes sha1 base in
    let small = block_size_small sha1 base in
    let sig = signature_of sha1 base in
    let r = deltify-Rebuilds sha1 sig base target d (unfold signature_of in n) (omega arith) in
    let ops = OperationsFit-Fits base sig.block_size r.ops d.positive (omega arith) hb r.fits in
    let many : length r.ops ≤ length target =
      rw r.exact at (length-ops-le base sig.block_size r.ops d.positive r.fits) in
    rw
      (
        generate-signature_of sha1 base,
        decode-encode_signature sig (signature_of-SignatureFits sha1 base h hb),
        r.returned,
        decode-encode_delta sig.block_size r.ops (omega arith) (omega arith) ops,
      )
      (patch-expand max_alloc (new_engine 0) base r.ops sig.block_size
          (record { positive = d.positive; small = omega arith; file = hb })
          (inl (block_size_in_buffer sha1 base)) r.fits
        ∙ ap ok r.exact)
