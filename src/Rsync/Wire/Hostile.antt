-- ===== src/Rsync/Wire/Hostile.antt =====
-- lib/rsync/wire.go on input that no `DeltaBytes` and no `SignatureBytes` made.
use syncthing_mem.Base.{
  ℕ, zero, suc, ◌+◌, ◌-◌, ◌*◌, ◌%◌, ◌≤◌, ◌<◌, ◌≡◌, ◌↔◌, refl, Bool, true, false, ◌||◌, ◌&&◌, List,
  [], ◌∷◌, ◌++◌, length, take, drop, arith, ltb, leb, ◌==◌, if◌then◌else◌, Bool-cases, inl, inr,
}
use syncthing_mem.Rsync.{
  Bytes, Operation, block, literal, Signature, Error, Result, ok, err, panic, int_max, read_failed,
  zero_block_count, block_out_of_range, ◌>>=◌,
}
use syncthing_mem.Rsync.BlockSize.{u64_mod, max_block_size}
use syncthing_mem.Rsync.Generate.{validate_signature}
use syncthing_mem.Rsync.Deltify.{
  deltify_checked, deltify, close, flush_block, flush_pending, scan, with_ints, int_of,
}
use syncthing_mem.Rsync.Window.{new_window, ensure, ensure_loop}
use syncthing_mem.Rsync.Patch.{
  new_engine, count_blocks, copy_block, copy_blocks, apply, apply_all, patch,
}
use syncthing_mem.Rsync.Uvarint.{read_uvarint_from, read_uvarint}
use syncthing_mem.Rsync.Wire.{
  read_byte, read_bytes, decode_block, decode_literal, decode_operation, decode_operations,
  decode_delta_body, decode_delta, apply_delta,
}

-- A run that ends in a value or an error.
data Calm {A : Type 0} : Result A → Type 0 where
  returned : (a : A) → Calm (ok a)
  refused : (e : Error) → Calm (err e)

not_Calm_panic : {A : Type 0} {m : Result A} → m ≡ panic → Calm m → ⊥
not_Calm_panic e (returned a) = cc
not_Calm_panic e (refused f) = cc

bind-Calm :
    {A B : Type 0} (m : Result A) (f : A → Result B)
    → Calm m
    → ((a : A) → Calm (f a))
    → Calm (m >>= f)
bind-Calm m f (returned a) g = g a
bind-Calm m f (refused e) g = refused e

if-Calm : {A : Type 0} (b : Bool) (x y : Result A) → Calm x → Calm y → Calm (if b then x else y)
if-Calm true x y h g = h
if-Calm false x y h g = g

read_uvarint_from-Calm :
    (f x scale : ℕ) (e : Error) (bytes : Bytes) → Calm (read_uvarint_from f x scale e bytes)
unfolding read_uvarint_from
read_uvarint_from-Calm zero x scale e bytes = refused e
read_uvarint_from-Calm (suc f) x scale e [] = refused e
read_uvarint_from-Calm (suc f) x scale e (b ∷ bytes) =
    if-Calm (ltb b 128) _ _ (if-Calm (f == 0 && ltb 1 b) _ _ (refused e) (returned _))
      (read_uvarint_from-Calm f (x + b % 128 * scale) (scale * 128) e bytes)

read_uvarint-Calm : (e : Error) (bytes : Bytes) → Calm (read_uvarint e bytes)
unfolding read_uvarint
read_uvarint-Calm e bytes = read_uvarint_from-Calm 10 0 1 e bytes

read_byte-Calm : (e : Error) (bytes : Bytes) → Calm (read_byte e bytes)
unfolding read_byte
read_byte-Calm e [] = refused e
read_byte-Calm e (b ∷ bytes) = returned _

decode_operation-Calm : (bytes : Bytes) → Calm (decode_operation bytes)
unfolding decode_operation decode_block decode_literal read_bytes
decode_operation-Calm bytes = bind-Calm _ _ (read_byte-Calm _ bytes) λ (t, rest).
    if-Calm (t == 0) _ _
      (bind-Calm _ _ (read_uvarint-Calm _ rest)
        λ (start, after). bind-Calm _ _ (read_uvarint-Calm _ after) λ _. returned _)
      (if-Calm (t == 1) _ _
        (bind-Calm _ _ (read_uvarint-Calm _ rest) λ (size, after).
          if-Calm _ _ _ (refused _)
            (bind-Calm _ _ (if-Calm _ _ _ (refused _) (returned _)) λ _. returned _))
        (refused _))

decode_operations-Calm : (n : ℕ) (bytes : Bytes) → Calm (decode_operations n bytes)
unfolding decode_operations
decode_operations-Calm zero bytes = returned _
decode_operations-Calm (suc n) bytes =
    bind-Calm _ _ (decode_operation-Calm bytes)
      λ (op, rest). bind-Calm _ _ (decode_operations-Calm n rest) λ _. returned _

decode_delta-Calm : (bytes : Bytes) → Calm (decode_delta bytes)
unfolding decode_delta decode_delta_body
decode_delta-Calm bytes = bind-Calm _ _ (read_byte-Calm _ bytes) λ (version, body).
    if-Calm _ _ _
      (bind-Calm _ _ (read_uvarint-Calm _ body) λ (size, after).
        bind-Calm _ _ (read_uvarint-Calm _ after) λ (n, rest).
          if-Calm _ _ _ (refused _) (bind-Calm _ _ (decode_operations-Calm n rest) λ _. returned _))
      (refused _)

module _ (base : Bytes) (size : ℕ) where
  copy_block-Calm : (i : ℕ) (out : Bytes) → Calm (copy_block base size i out)
  unfolding copy_block
  copy_block-Calm i out =
      let offset = i * size % u64_mod in
      let behind = drop offset base in
      let remaining = (length base + u64_mod - offset) % u64_mod in
      let wanted = if ltb remaining size then remaining else size in
      if-Calm (leb int_max offset) (err read_failed) _ (refused read_failed) (
        if-Calm (ltb (length behind) wanted) (err read_failed) (ok (out ++ take wanted behind))
          (refused read_failed) (returned (out ++ take wanted behind)))

  copy_blocks-Calm : (n i : ℕ) (out : Bytes) → Calm (copy_blocks base size n i out)
  unfolding copy_blocks
  copy_blocks-Calm zero i out = returned out
  copy_blocks-Calm (suc n) i out =
      bind-Calm _ _ (copy_block-Calm i out) λ out'. copy_blocks-Calm n (i + 1) out'

  apply-Calm : (blocks : ℕ) (op : Operation) (out : Bytes) → Calm (apply base size blocks op out)
  unfolding apply
  apply-Calm blocks (literal bytes) out = returned _
  apply-Calm blocks (block start count) out =
      if-Calm (count == 0) (err zero_block_count) _ (refused zero_block_count) (
        if-Calm (leb blocks start || ltb (blocks - start) count) (err block_out_of_range) _
          (refused block_out_of_range) (copy_blocks-Calm count start out))

  apply_all-Calm :
      (blocks : ℕ) (ops : List Operation) (out : Bytes) → Calm (apply_all base size blocks ops out)
  unfolding apply_all
  apply_all-Calm blocks [] out = returned out
  apply_all-Calm blocks (op ∷ ops) out =
      bind-Calm _ _ (apply-Calm blocks op out) λ out'. apply_all-Calm blocks ops out'

patch-panic :
    (max_alloc : ℕ) (base : Bytes) (ops : List Operation) (size : ℕ)
    → (patch max_alloc (new_engine 0) base ops size ≡ panic)
      ↔ ((max_block_size < size) × (max_alloc < size))
unfolding patch new_engine
patch-panic max_alloc base ops size =
    let calm = not_Calm_panic {m = apply_all base size (count_blocks (length base) size) ops []} in
    let never = apply_all-Calm base size (count_blocks (length base) size) ops [] in
    (
      λ e. elim (Bool-cases (ltb max_block_size size && ltb max_alloc size)) [
        | inl big ↦ ground arith
        | inr fits ↦ absurd (calm (ground arith) never)
      ],
      λ big. ground arith,
    )

-- The delta that makes `ApplyDelta` panic.
abbrev pub HasHugeBlockSize : ℕ → Bytes → Type 0
HasHugeBlockSize max_alloc bytes =
    (size : ℕ) × (ops : List Operation) × (decode_delta bytes ≡ ok (size, ops))
    × (max_block_size < size)
    × (max_alloc < size)

pub apply_delta-panic :
    (max_alloc : ℕ) (base bytes : Bytes)
    → (apply_delta max_alloc base bytes ≡ panic) ↔ HasHugeBlockSize max_alloc bytes
unfolding apply_delta
apply_delta-panic max_alloc base bytes = (there (decode_delta bytes) refl, back)
  where
    there :
        (r : Result (ℕ × List Operation))
        → decode_delta bytes ≡ r
        → (r >>= λ d. patch max_alloc (new_engine 0) base d.1 d.0) ≡ panic
        → HasHugeBlockSize max_alloc bytes
    there (ok (size, ops)) e h =
        let (over, above) = (patch-panic max_alloc base ops size).0 h in (size, ops, e, over, above)
    there (err f) e h = cc
    there panic e h = absurd (not_Calm_panic e (decode_delta-Calm bytes))

    back :
        HasHugeBlockSize max_alloc bytes
        → (decode_delta bytes >>= λ d. patch max_alloc (new_engine 0) base d.1 d.0) ≡ panic
    back (size, ops, e, over, above) = rw e ((patch-panic max_alloc base ops size).1 (over, above))

-- `Deltify` drops the target: from a signature with hashes that passes its check and a block size
-- of 2^63 or more it returns no operation, whatever the target holds.
pub deltify_huge_block_size :
    (sha1 : Bytes → Bytes) (sig : Signature) (target : Bytes)
    → validate_signature sig ≡ ok sig
    → 0 < length sig.hashes
    → int_max ≤ sig.block_size
    → deltify sha1 (record { left = target; fails = false }) sig ≡ ok []
unfolding deltify deltify_checked close flush_block flush_pending scan with_ints int_of new_window
    ensure ensure_loop
deltify_huge_block_size sha1 sig target valid some_hash big =
    let there : (length sig.hashes == 0) ≡ false = ground arith in
    let huge : leb int_max sig.block_size ≡ true = ground arith in
    let rounds : length target * 2 + 2 ≡ suc (length target * 2 + 1) = omega arith in
    rw (valid, there, huge, rounds)
