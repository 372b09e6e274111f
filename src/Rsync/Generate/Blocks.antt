-- ===== src/Rsync/Generate/Blocks.antt =====
-- lib/rsync/engine.go, `GenerateSignature` against the blocks of the base.
use native.Mathlib.Nat.{zero-mul}
use syncthing_mem.Base.{
  ℕ, zero, suc, ◌+◌, ◌*◌, ◌≤◌, ◌<◌, ◌≡◌, refl, sym, ap, ◌∙◌, some, List, [], ◌∷◌, ◌++◌, map,
  append-nil, append_assoc, length, take, drop, get_elem?, ◌==◌, if◌then◌else◌, false, dec_le,
  arith, lt_of_get_elem?, get_elem?_of_lt, get_elem?-map, length-map, ==→eq, ◌⊎◌, length-take,
  length-drop, take_of_length-le, drop_of_length-le, lt→ltb, Bool-cases, inl, inr, drop-drop,
}
use syncthing_mem.Rsync.{Bytes, BlockHash, Signature, ok}
use syncthing_mem.Rsync.BlockSize.{optimal_block_size_for_base_length}
use syncthing_mem.Rsync.BlockSize.Root.{optimal_block_size_bounds}
use syncthing_mem.Rsync.Read.{read_full_whole, read_full_short}
use syncthing_mem.Rsync.Blocks.{block_at, length-block_at}
use syncthing_mem.Rsync.Rolling.{new_rolling_hash, write, sum}
use syncthing_mem.Rsync.Generate.{
  hash_block, add_block, finish, generate_loop, generate_signature, block_length,
}

-- The base cut into blocks, the last of which may be short.
pub chunks : ℕ → ℕ → Bytes → List Bytes
chunks zero size l = []
chunks (suc f) size [] = []
chunks (suc f) size (x ∷ l) = take size (x ∷ l) ∷ chunks f size (drop size (x ∷ l))

chunks-nil : (f size : ℕ) → chunks f size [] ≡ []
unfolding chunks
chunks-nil zero size = refl
chunks-nil (suc f) size = refl

-- The length of the last chunk, or `d`.
pub last_length : ℕ → List Bytes → ℕ
last_length d [] = d
last_length d (c ∷ cs) = last_length (length c) cs

get_elem?-chunks :
    (f size : ℕ) (l : Bytes) (i : ℕ) {c : Bytes}
    → get_elem? (chunks f size l) i ≡ some c
    → (c ≡ block_at l size i) × (i * size < length l)
unfolding chunks
get_elem?-chunks zero size l i h = cc
get_elem?-chunks (suc f) size [] i h = cc
get_elem?-chunks (suc f) size (x ∷ l) zero {c} h =
    let e : take size (x ∷ l) ≡ c = cc in (rw zero-mul (sym e), omega arith)
get_elem?-chunks (suc f) size (x ∷ l) (suc i) h =
    let (e, lt) = get_elem?-chunks f size (drop size (x ∷ l)) i h in
    let at : size + i * size ≡ suc i * size = omega arith in
    (
      e ∙ ap (take size) (drop-drop size (i * size) (x ∷ l) ∙ ap (λ k. drop k (x ∷ l)) at),
      omega (arith, length-drop {0} size (x ∷ l)),
    )

last_length-get_elem? :
    (cs : List Bytes) (d i : ℕ) {c : Bytes}
    → get_elem? cs i ≡ some c
    → i + 1 ≡ length cs
    → last_length d cs ≡ length c
unfolding last_length
last_length-get_elem? [] d i h e = cc
last_length-get_elem? (x ∷ []) d zero h e = ap {A = Bytes} length (ground arith)
last_length-get_elem? (x ∷ []) d (suc i) h e = absurd (omega arith)
last_length-get_elem? (x ∷ y ∷ cs) d zero h e = absurd (omega arith)
last_length-get_elem? (x ∷ y ∷ cs) d (suc i) h e =
    last_length-get_elem? (y ∷ cs) (length x) i h (omega arith)

module _ (sha1 : Bytes → Bytes) where
  add_block_pos :
      (c : Bytes) (sig : Signature)
      → 0 < length c
      → add_block sha1 c sig
        ≡ record sig { last_block_size = length c; hashes = sig.hashes ++ hash_block sha1 c ∷ [] }
  unfolding add_block
  add_block_pos c sig h = rw (lt→ltb 0 (length c) h)

  -- The loop appends the hashes of the chunks of what is left.
  generate_loop-chunks :
      (f : ℕ) (l : Bytes) (sig : Signature)
      → 0 < sig.block_size
      → length l < f
      → generate_loop sha1 f (record { left = l; fails = false }) sig
        ≡ ok (
            finish (record sig {
              last_block_size = last_length sig.last_block_size (chunks f sig.block_size l);
              hashes = sig.hashes ++ map (hash_block sha1) (chunks f sig.block_size l);
            }))
  unfolding generate_loop chunks last_length
  generate_loop-chunks zero l sig h g = absurd (omega arith)
  generate_loop-chunks (suc f) [] sig h g =
      let e = read_full_short sig.block_size [] h in
      rw (e, generate_loop, e) (unfold add_block in rw append-nil)
  generate_loop-chunks (suc f) (x ∷ l) sig h g = elim (dec_le sig.block_size (length (x ∷ l))) [
    | yes whole ↦
        let c = take sig.block_size (x ∷ l) in
        let pos : 0 < length c = omega (arith, length-take {0} sig.block_size (x ∷ l)) in
        let e = read_full_whole sig.block_size (x ∷ l) false whole in
        rw (e, generate_loop, e, add_block_pos c sig pos)
          (generate_loop-chunks f (drop sig.block_size (x ∷ l)) _ h
              (omega (arith, length-drop {0} sig.block_size (x ∷ l)))
            ∙ rw append_assoc)
    | no part ↦
        let e = read_full_short sig.block_size (x ∷ l) (omega arith) in
        let less : length (x ∷ l) ≤ sig.block_size = omega arith in
        rw (e, generate_loop, e, add_block_pos (x ∷ l) sig (omega arith))
          (rw (
            take_of_length-le sig.block_size (x ∷ l) less,
            drop_of_length-le sig.block_size (x ∷ l) less,
            chunks-nil,
          ))
  ]

abbrev pub base_chunks : Bytes → List Bytes
base_chunks base =
    chunks (suc (length base)) (optimal_block_size_for_base_length (length base)) base

-- The signature of a base, from its chunks.
unfoldable pub signature_of : (Bytes → Bytes) → Bytes → Signature
signature_of sha1 base = record {
  block_size = optimal_block_size_for_base_length (length base);
  last_block_size = last_length 0 (base_chunks base);
  hashes = map (hash_block sha1) (base_chunks base);
}

-- A signature whose hash `i` is that of block `i`, with the length that the engine takes it to have.
pub record Describes (sha1 : Bytes → Bytes) (sig : Signature) (base : Bytes) : Type 0 where
  pub positive : 0 < sig.block_size
  pub bounded : sig.last_block_size ≤ sig.block_size
  pub filled : 0 < length sig.hashes → 0 < sig.last_block_size
  pub served :
      (i : ℕ) (h : BlockHash)
      → get_elem? sig.hashes i ≡ some h
      → (i * sig.block_size < length base)
        × (h.strong_hash ≡ sha1 (block_at base sig.block_size i))
        × (block_length sig i ≡ length (block_at base sig.block_size i))

block_size_pos : (n : ℕ) → 0 < optimal_block_size_for_base_length n
block_size_pos n = omega (arith, (optimal_block_size_bounds n).0)

finish_last :
    (sha1 : Bytes → Bytes) (size : ℕ) (cs : List Bytes)
    → ◌≡◌ {A = Signature}
        (finish (record {
          block_size = size;
          last_block_size = last_length 0 cs;
          hashes = map (hash_block sha1) cs;
        }))
        (record {
          block_size = size;
          last_block_size = last_length 0 cs;
          hashes = map (hash_block sha1) cs;
        })
unfolding finish last_length
finish_last sha1 size [] = refl
finish_last sha1 size (c ∷ cs) = ground arith

pub generate-signature_of :
    (sha1 : Bytes → Bytes) (base : Bytes)
    → generate_signature sha1 (record { left = base; fails = false }) (length base)
      ≡ ok (signature_of sha1 base)
unfolding generate_signature signature_of
generate-signature_of sha1 base =
    generate_loop-chunks sha1 (suc (length base)) base _ (block_size_pos (length base))
      (omega arith)
    ∙ ap ok (finish_last sha1 _ (base_chunks base))

last_length-le :
    (f size : ℕ) (l : Bytes) (d : ℕ) → d ≤ size → last_length d (chunks f size l) ≤ size
unfolding chunks last_length
last_length-le zero size l d h = h
last_length-le (suc f) size [] d h = h
last_length-le (suc f) size (x ∷ l) d h =
    last_length-le f size (drop size (x ∷ l)) (length (take size (x ∷ l)))
      (omega (arith, length-take {0} size (x ∷ l)))

last_length-pos :
    (f size : ℕ) (l : Bytes) (d : ℕ)
    → 0 < size
    → (0 < d) ⊎ (0 < length (chunks f size l))
    → 0 < last_length d (chunks f size l)
unfolding chunks last_length
last_length-pos zero size l d h (inl p) = p
last_length-pos zero size l d h (inr p) = absurd (omega arith)
last_length-pos (suc f) size [] d h (inl p) = p
last_length-pos (suc f) size [] d h (inr p) = absurd (omega arith)
last_length-pos (suc f) size (x ∷ l) d h _ =
    last_length-pos f size (drop size (x ∷ l)) (length (take size (x ∷ l))) h
      (inl (omega (arith, length-take {0} size (x ∷ l))))

-- The length that the engine takes chunk `i` to have is the length of block `i`.
chunk-block_length :
    (f size : ℕ) (base : Bytes) (i : ℕ) (c : Bytes)
    → get_elem? (chunks f size base) i ≡ some c
    → (if i + 1 == length (chunks f size base) then last_length 0 (chunks f size base) else size)
      ≡ length (block_at base size i)
chunk-block_length f size base i c e =
    let cs = chunks f size base in
    let same = (get_elem?-chunks f size base i e).0 in
    elim (Bool-cases (i + 1 == length cs)) [
      | inl last ↦ rw last (last_length-get_elem? cs 0 i e (==→eq _ _ last) ∙ ap length same)
      | inr more ↦
          let (d, next) = get_elem?_of_lt cs (i + 1) (ground (arith, lt_of_get_elem? cs i e)) in
          rw more (
            omega
              (arith, (get_elem?-chunks f size base (i + 1) next).1, length-block_at base size i))
    ]

-- `GenerateSignature` describes its base.
pub signature_of-Describes :
    (sha1 : Bytes → Bytes) (base : Bytes) → Describes sha1 (signature_of sha1 base) base
unfolding signature_of hash_block
signature_of-Describes sha1 base = record {
  positive = block_size_pos (length base);
  bounded = last_length-le _ _ base 0 (omega arith);
  filled = λ h.
      last_length-pos _ _ base 0 (block_size_pos (length base))
        (inr (rw (length-map (hash_block sha1) (base_chunks base)) at h));
  served = λ i h e.
      let (c, found, same) = get_elem?-map (hash_block sha1) (base_chunks base) i e in
      let (cut, inside) = get_elem?-chunks _ _ base i found in
      (
        inside,
        rw (same, cut),
        unfold block_length in
            rw (length-map (hash_block sha1) (base_chunks base))
              (chunk-block_length _ _ base i c found),
      );
}

map-get_elem? :
    {A B : Type 0} (f : A → B) (l : List A) (i : ℕ) {a : A}
    → get_elem? l i ≡ some a
    → get_elem? (map f l) i ≡ some (f a)
map-get_elem? f [] i e = cc
map-get_elem? f (x ∷ l) zero e = let same : x ≡ _ = cc e in ap (λ y. some (f y)) same
map-get_elem? f (x ∷ l) (suc i) e = map-get_elem? f l i e

chunks-get_elem? :
    (f size : ℕ) (l : Bytes) (i : ℕ)
    → 0 < size
    → length l < f
    → i * size < length l
    → get_elem? (chunks f size l) i ≡ some (block_at l size i)
unfolding chunks
chunks-get_elem? zero size l i pos h lt = absurd (omega arith)
chunks-get_elem? (suc f) size [] i pos h lt = absurd (omega arith)
chunks-get_elem? (suc f) size (x ∷ l) zero pos h lt = rw zero-mul
chunks-get_elem? (suc f) size (x ∷ l) (suc i) pos h lt =
    let at : size + i * size ≡ suc i * size = omega arith in
    chunks-get_elem? f size (drop size (x ∷ l)) i pos (omega (arith, length-drop {0} size (x ∷ l)))
      (omega (arith, length-drop {0} size (x ∷ l)))
    ∙ ap {A = Bytes} (λ d. some (take size d))
        (drop-drop size (i * size) (x ∷ l) ∙ ap (λ k. drop k (x ∷ l)) at)

-- Every block of the base has its two hashes in the signature, at its index.
abbrev pub HasAllHashes : (Bytes → Bytes) → Signature → Bytes → Type 0
HasAllHashes sha1 sig base =
    (i : ℕ)
    → i * sig.block_size < length base
    → get_elem? sig.hashes i
      ≡ some (record {
        weak_hash = sum (
            write (new_rolling_hash (length (block_at base sig.block_size i)))
              (block_at base sig.block_size i));
        strong_hash = sha1 (block_at base sig.block_size i);
      })

signature_of-HasAllHashes :
    (sha1 : Bytes → Bytes) (base : Bytes) → HasAllHashes sha1 (signature_of sha1 base) base
unfolding signature_of hash_block
signature_of-HasAllHashes sha1 base i inside =
    map-get_elem? (hash_block sha1) (base_chunks base) i
      (chunks-get_elem? _ _ base i (block_size_pos (length base)) (omega arith) inside)

-- From a reader that does not fail `GenerateSignature` returns a signature that holds, at the index
-- of each block of the base, its rolling checksum and its strong hash, and no other hash, and that
-- gives each block its length.
pub generate_signature-Describes :
    (sha1 : Bytes → Bytes) (base : Bytes)
    → (sig : Signature) × (generate_signature sha1
          (record { left = base; fails = false })
          (length base)
        ≡ ok sig)
      × Describes sha1 sig base
      × HasAllHashes sha1 sig base
generate_signature-Describes sha1 base = (
  signature_of sha1 base,
  generate-signature_of sha1 base,
  signature_of-Describes sha1 base,
  signature_of-HasAllHashes sha1 base,
)
