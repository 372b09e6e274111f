-- ===== src/Rsync/Patch/Blocks.antt =====
-- lib/rsync/engine.go, `Patch` against what the operations stand for.
use native.Mathlib.Nat.{le-div_iff_mul-le}
use syncthing_mem.Base.{
  ℕ, zero, suc, ◌+◌, ◌-◌, ◌*◌, ◌%◌, ◌≤◌, ◌<◌, ◌≡◌, refl, sym, ap, ◌∙◌, false, List, [], ◌∷◌, ◌++◌,
  append-nil, append_assoc, length, drop, leb, ltb, ◌==◌, arith, Bool-cases, inl, inr, ltb→lt,
  ltb→ge, length-drop, take_of_length-le, ◌⊎◌, ◌&&◌,
}
use syncthing_mem.Rsync.{Bytes, Operation, block, literal, ok, int_max}
use syncthing_mem.Rsync.BlockSize.{u64_mod}
use syncthing_mem.Rsync.Blocks.{block_at, blocks_at, expand, Fits}
use syncthing_mem.Rsync.Patch.{count_blocks, copy_block, copy_blocks, apply, apply_all, patch}

-- The sizes at which no arithmetic of `Patch` wraps around: those of files and of blocks in memory.
pub record InRange (base : Bytes) (size : ℕ) : Type 0 where
  pub positive : 0 < size
  pub small : size < int_max
  pub file : length base < int_max

zero_of_mul-lt : (n size : ℕ) → n * size < size → n ≡ 0
zero_of_mul-lt zero size h = refl
zero_of_mul-lt (suc n) size h = absurd (omega arith)

module _ (base : Bytes) (size : ℕ) (r : InRange base size) where
  copy_block_lem :
      (i : ℕ) (out : Bytes)
      → i * size < length base
      → copy_block base size i out ≡ ok (out ++ block_at base size i)
  unfolding copy_block
  copy_block_lem i out lt =
      let offset : i * size % u64_mod ≡ i * size = omega (arith, r.file) in
      let remaining : (length base + u64_mod - i * size) % u64_mod ≡ length base - i * size =
        omega (arith, r.file) in
      let seek : leb int_max (i * size) ≡ false = ground (arith, r.file) in
      let rest = drop (i * size) base in
      let len : length rest ≡ length base - i * size = length-drop (i * size) base in
      rw (offset, remaining, seek)
        (elim (Bool-cases (ltb (length base - i * size) size)) [
          | inl last ↦
              let enough : ltb (length rest) (length base - i * size) ≡ false =
                ground (arith, len) in
              rw (last, enough)
                (ap {A = Bytes} (λ b. ok (out ++ b))
                  (take_of_length-le (length base - i * size) rest (omega (arith, len))
                    ∙ sym (take_of_length-le size rest (omega (arith, len, ltb→lt _ _ last)))))
          | inr whole ↦
              let enough : ltb (length rest) size ≡ false = ground (arith, len) in
              rw (whole, enough)
        ])

  copy_blocks_lem :
      (n i : ℕ) (out : Bytes)
      → (i + n) * size < length base + size
      → copy_blocks base size n i out ≡ ok (out ++ blocks_at base size i n)
  unfolding copy_blocks
  copy_blocks_lem zero i out h = ap ok (sym (append-nil out))
  copy_blocks_lem (suc n) i out h = rw (copy_block_lem i out (grind (arith, h))) (
      copy_blocks_lem n (i + 1) (out ++ block_at base size i)
        (let e : i + 1 + n ≡ i + suc n = omega arith in rw e h)
      ∙ ap ok (append_assoc out (block_at base size i) _))

  -- A run of blocks inside the base passes the bounds check against the number of blocks.
  run_in_range :
      (start count : ℕ)
      → (start + count) * size < length base + size
      → start + count ≤ count_blocks (length base) size
  unfolding count_blocks
  run_in_range start count h = elim (Bool-cases (ltb 0 (length base))) [
    | inl some_bytes ↦
        let fits : (length base + size + u64_mod - 1) % u64_mod ≡ length base + size - 1 =
          omega (arith, r.small, r.file, r.positive) in
        rw (some_bytes, fits) ((le-div_iff_mul-le r.positive).1 (omega arith))
    | inr no_bytes ↦
        rw no_bytes
          (omega (arith, zero_of_mul-lt (start + count) size (omega (arith, ltb→ge _ _ no_bytes))))
  ]

  apply_all_lem :
      (ops : List Operation) (out : Bytes)
      → Fits base size ops
      → apply_all base size (count_blocks (length base) size) ops out
        ≡ ok (out ++ expand base size ops)
  unfolding apply_all apply
  apply_all_lem [] out f = ap ok (sym (append-nil out))
  apply_all_lem (literal bytes ∷ ops) out (a, b, f) =
      apply_all_lem ops (out ++ bytes) f ∙ ap ok (append_assoc out bytes _)
  apply_all_lem (block start count ∷ ops) out (a, b, f) =
      let blocks = count_blocks (length base) size in
      let inside = run_in_range start count b in
      let some_blocks : (count == 0) ≡ false = ground arith in
      let from : leb blocks start ≡ false = ground arith in
      let to : ltb (blocks - start) count ≡ false = ground arith in
      rw (some_blocks, from, to, copy_blocks_lem count start out b)
        (apply_all_lem ops (out ++ blocks_at base size start count) f
          ∙ ap ok (append_assoc out (blocks_at base size start count) _))

-- `Patch` writes the bytes that the operations stand for, for operations that the base can serve, a
-- block size and a base that are `int`s, and a block that the engine's buffer holds or that the
-- runtime can allocate.
pub patch-expand :
    (max_alloc buffer : ℕ) (base : Bytes) (ops : List Operation) (size : ℕ)
    → InRange base size
    → (size ≤ buffer) ⊎ (size ≤ max_alloc)
    → Fits base size ops
    → patch max_alloc buffer base ops size ≡ ok (expand base size ops)
unfolding patch
patch-expand max_alloc buffer base ops size r room f =
    let nonzero : (size == 0) ≡ false = ground (arith, r.positive) in
    let fits : (ltb buffer size && ltb max_alloc size) ≡ false = ground arith in
    rw (nonzero, fits) (ground (arith, apply_all_lem base size r ops [] f))
