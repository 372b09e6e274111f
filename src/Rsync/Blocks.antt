-- ===== src/Rsync/Blocks.antt =====
-- lib/rsync: the blocks of a base file and what a stream of operations stands for, independent of
-- how the engine computes them.
use native.Mathlib.Nat.{add-zero}
use syncthing_mem.Base.{
  ℕ, zero, suc, ◌+◌, ◌-◌, ◌*◌, ◌≤◌, ◌<◌, ◌≡◌, refl, sym, List, [], ◌∷◌, ◌++◌, append-nil,
  append_assoc, length, take, drop, min, arith, length-append, length-take, length-drop,
}
use syncthing_mem.Rsync.{Bytes, Operation, block, literal}

-- Block `i` of a base that is cut into blocks of `size` bytes.
abbrev pub block_at : Bytes → ℕ → ℕ → Bytes
block_at base size i = take size (drop (i * size) base)

abbrev pub blocks_at : Bytes → ℕ → ℕ → ℕ → Bytes
blocks_at base size i zero = []
blocks_at base size i (suc n) = block_at base size i ++ blocks_at base size (i + 1) n

-- The bytes that a stream of operations stands for.
abbrev pub expand : Bytes → ℕ → List Operation → Bytes
expand base size [] = []
expand base size (literal bytes ∷ ops) = bytes ++ expand base size ops
expand base size (block start count ∷ ops) = blocks_at base size start count ++ expand base size ops

-- Operations that the base can serve: runs of blocks inside it, and literals that are neither
-- empty nor above the limit of one operation.
abbrev pub Fits : Bytes → ℕ → List Operation → Type 0
Fits base size [] = Unit
Fits base size (literal bytes ∷ ops) =
    (0 < length bytes) × (length bytes ≤ 1024 * 1024) × Fits base size ops
Fits base size (block start count ∷ ops) =
    (0 < count) × ((start + count) * size < length base + size) × Fits base size ops

module _ (base : Bytes) (size : ℕ) where
  pub expand-append :
      (xs ys : List Operation)
      → expand base size (xs ++ ys) ≡ expand base size xs ++ expand base size ys
  expand-append [] ys = refl
  expand-append (literal d ∷ xs) ys = rw (expand-append xs ys) (sym (append_assoc d _ _))
  expand-append (block s c ∷ xs) ys =
      rw (expand-append xs ys) (sym (append_assoc (blocks_at base size s c) _ _))

  pub Fits-append :
      (xs ys : List Operation) → Fits base size xs → Fits base size ys → Fits base size (xs ++ ys)
  Fits-append [] ys h g = g
  Fits-append (literal d ∷ xs) ys (a, b, h) g = (a, b, Fits-append xs ys h g)
  Fits-append (block s c ∷ xs) ys (a, b, h) g = (a, b, Fits-append xs ys h g)

  pub blocks_at-suc :
      (i n : ℕ)
      → blocks_at base size i (suc n) ≡ blocks_at base size i n ++ block_at base size (i + n)
  blocks_at-suc i zero = rw (add-zero i) (append-nil _)
  blocks_at-suc i (suc n) =
      let e : i + 1 + n ≡ i + suc n = omega arith in
      rw (blocks_at-suc (i + 1) n, e) (sym (append_assoc (block_at base size i) _ _))

  pub length-block_at : (i : ℕ) → length (block_at base size i) ≡ min size (length base - i * size)
  length-block_at i =
      omega (arith, length-take {0} size (drop (i * size) base), length-drop {0} (i * size) base)

  -- A block that starts inside the base is not empty.
  pub block_at_pos : (i : ℕ) → 0 < size → i * size < length base → 0 < length (block_at base size i)
  block_at_pos i h lt = omega (arith, length-block_at i)

  pub blocks_at_pos :
      (i n : ℕ) → 0 < size → 0 < n → i * size < length base → 0 < length (blocks_at base size i n)
  blocks_at_pos i zero h pos lt = absurd (omega arith)
  blocks_at_pos i (suc n) h pos lt = omega (
    arith,
    length-append {0} (block_at base size i) (blocks_at base size (i + 1) n),
    block_at_pos i h lt,
  )

  -- There are no more operations than bytes.
  pub length-ops-le :
      (ops : List Operation)
      → 0 < size
      → Fits base size ops
      → length ops ≤ length (expand base size ops)
  length-ops-le [] h f = omega arith
  length-ops-le (literal d ∷ ops) h (a, b, f) =
      omega (arith, length-append {0} d (expand base size ops), length-ops-le ops h f)
  length-ops-le (block s c ∷ ops) h (a, b, f) = omega (
    arith,
    length-append {0} (blocks_at base size s c) (expand base size ops),
    blocks_at_pos s c h a (grind arith),
    length-ops-le ops h f,
  )
