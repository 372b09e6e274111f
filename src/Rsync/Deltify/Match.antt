-- ===== src/Rsync/Deltify/Match.antt =====
-- lib/rsync/engine.go, `matchBlock` against the blocks of the base.
use syncthing_mem.Base.{
  ℕ, ◌*◌, ◌<◌, ◌≡◌, refl, sym, ◌∙◌, true, some, List, [], ◌∷◌, length, get_elem?, arith, inl, inr,
  Option-cases,
}
use syncthing_mem.Rsync.{Bytes, BlockHash, Signature}
use syncthing_mem.Rsync.Blocks.{block_at}
use syncthing_mem.Rsync.Generate.{block_length}
use syncthing_mem.Rsync.Generate.Blocks.{Describes}
use syncthing_mem.Rsync.Deltify.{
  bytes_eq, strong_hash_at, has_hash, first_match, match_block_with_weak, match_block,
}

-- No bytes of the length of a block have the strong hash of that block, but the block itself.
abbrev pub NoCollision : (Bytes → Bytes) → Bytes → ℕ → Type 0
NoCollision sha1 base size =
    (i : ℕ) (bytes : Bytes)
    → i * size < length base
    → length bytes ≡ length (block_at base size i)
    → sha1 bytes ≡ sha1 (block_at base size i)
    → bytes ≡ block_at base size i

bytes_eq_sound : (a b : Bytes) → bytes_eq a b ≡ true → a ≡ b
unfolding bytes_eq
bytes_eq_sound [] [] h = refl
bytes_eq_sound [] (y ∷ ys) h = cc
bytes_eq_sound (x ∷ xs) [] h = cc
bytes_eq_sound (x ∷ xs) (y ∷ ys) h = ground (arith, bytes_eq_sound xs ys)

has_hash_sound :
    (sig : Signature) (i : ℕ) (strong : Bytes)
    → has_hash (strong_hash_at sig i) strong ≡ true
    → (h : BlockHash) × (get_elem? sig.hashes i ≡ some h) × (h.strong_hash ≡ strong)
unfolding has_hash strong_hash_at
has_hash_sound sig i strong e = elim (Option-cases (get_elem? sig.hashes i)) [
  | inl miss ↦ absurd (ground arith)
  | inr (h, hit) ↦
      (h, hit, bytes_eq_sound h.strong_hash strong (rw (hit, strong_hash_at, has_hash) at e))
]

first_match_sound :
    (sig : Signature) (len : ℕ) (strong : Bytes) (candidates : List ℕ) (i : ℕ)
    → first_match sig len strong candidates ≡ some i
    → (block_length sig i ≡ len) × (has_hash (strong_hash_at sig i) strong ≡ true)
unfolding first_match
first_match_sound sig len strong [] i e = cc
first_match_sound sig len strong (j ∷ candidates) i e =
    ground (arith, first_match_sound sig len strong candidates i)

module _ (sha1 : Bytes → Bytes) (sig : Signature) (base : Bytes) (d : Describes sha1 sig base)
    (n : NoCollision sha1 base sig.block_size) (weak_map : ℕ → List ℕ) where
  pub match_block_with_weak_sound :
      (bytes : Bytes) (weak i : ℕ)
      → match_block_with_weak sha1 bytes weak weak_map sig ≡ some i
      → (bytes ≡ block_at base sig.block_size i) × (i * sig.block_size < length base)
  unfolding match_block_with_weak
  match_block_with_weak_sound bytes weak i e =
      let (len, hashed) = first_match_sound sig (length bytes) (sha1 bytes) (weak_map weak) i e in
      let (h, found, strong) = has_hash_sound sig i (sha1 bytes) hashed in
      let (inside, hash, size) = d.served i h found in
      (n i bytes inside (sym len ∙ size) (sym strong ∙ hash), inside)

  pub match_block_sound :
      (bytes : Bytes) (i : ℕ)
      → match_block sha1 bytes weak_map sig ≡ some i
      → (bytes ≡ block_at base sig.block_size i) × (i * sig.block_size < length base)
  unfolding match_block
  match_block_sound bytes i e = match_block_with_weak_sound bytes _ i e
