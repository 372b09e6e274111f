-- ===== src/Model/Reorder.antt =====
-- lib/model/blockpullreorderer.go: in what order the blocks of a file are pulled. A block is only
-- moved, so its type is a parameter; so is the shuffle, which the code takes as a field.
use syncthing_mem.Base.{
  ℕ, zero, suc, ◌+◌, ◌-◌, ◌/◌, List, [], ◌∷◌, ◌++◌, map, length, take, drop, get_or, ltb, ◌==◌,
  if◌then◌else◌,
}
pub mod Blocks

module _ {A : Type 0} where
  -- The loop of `chunk`: slices of `size` blocks, the last of which may be short.
  abbrev pub cut : ℕ → ℕ → List A → List (List A)
  cut zero size blocks = []
  cut (suc f) size [] = []
  cut (suc f) size (x ∷ blocks) = take size (x ∷ blocks) ∷ cut f size (drop size (x ∷ blocks))

  unfoldable pub chunk : List A → ℕ → List (List A)
  chunk blocks part_count =
      if part_count == 0
      then blocks ∷ []
      else cut (length blocks) ((length blocks + part_count - 1) / part_count) blocks

  abbrev pub concat : List (List A) → List A
  concat [] = []
  concat (c ∷ chunks) = c ++ concat chunks

  -- The indexes of the chunks from `i` on, without our own.
  abbrev pub other_indexes : ℕ → ℕ → List (List A) → List ℕ
  other_indexes i my_index [] = []
  other_indexes i my_index (c ∷ chunks) =
      if i == my_index
      then other_indexes (i + 1) my_index chunks
      else i ∷ other_indexes (i + 1) my_index chunks

  abbrev pub own_chunk : ℕ → List (List A) → List A
  own_chunk my_index chunks = if ltb my_index (length chunks) then get_or chunks my_index [] else []

  abbrev pub at_indexes : List (List A) → List ℕ → List (List A)
  at_indexes chunks = map (λ i. get_or chunks i [])

  -- `Reorder` of the standard order, for the device at `my_index` of `count`.
  unfoldable pub reorder : ℕ → ℕ → (List ℕ → List ℕ) → List A → List A
  reorder my_index count shuffle blocks =
      let chunks = chunk blocks count in
      if length blocks == 0
      then blocks
      else own_chunk my_index chunks
        ++ concat (at_indexes chunks (shuffle (other_indexes 0 my_index chunks)))
