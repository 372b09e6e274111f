-- ===== src/Model/Reorder/Blocks.antt =====
-- lib/model/blockpullreorderer.go: the parts of `chunk`, and the blocks under `Reorder`.
use mathlib.Core.Logic.{∥∥₁_elim}
use mathlib.Core.List.{Perm, Permᴰ, Perm-prop, perm_middle}
use mathlib.Core.List.Perm
use native.Mathlib.Nat.{div-add-mod, mod-lt, zero-add}
use syncthing_mem.Base.{
  ℕ, zero, suc, ◌+◌, ◌-◌, ◌*◌, ◌/◌, ◌≤◌, ◌<◌, ◌≡◌, refl, ap, sym, ◌∙◌, inl, inr, List, [], ◌∷◌,
  ◌++◌, length, drop, get_or, ltb, true, false, ◌==◌, if◌then◌else◌, arith, append-nil,
  append_assoc, Bool-cases, take-append-drop, length-drop, length-append, ==→eq,
}
use syncthing_mem.Model.Reorder.{cut, chunk, concat, other_indexes, own_chunk, at_indexes, reorder}

-- The size of the parts covers the blocks.
enough : (count parts : ℕ) → 0 < parts → count ≤ parts * ((count + parts - 1) / parts)
enough count parts pos =
    omega (arith, div-add-mod (count + parts - 1) parts, mod-lt (count + parts - 1) pos)

module _ {A : Type 0} where
  concat-cut :
      (f size : ℕ) (blocks : List A)
      → 0 < size
      → length blocks ≤ f
      → concat (cut f size blocks) ≡ blocks
  concat-cut zero size [] pos h = refl
  concat-cut zero size (x ∷ blocks) pos h = absurd (omega arith)
  concat-cut (suc f) size [] pos h = refl
  concat-cut (suc f) size (x ∷ blocks) pos h =
      rw
        (concat-cut f size (drop size (x ∷ blocks)) pos
          (omega (arith, length-drop size (x ∷ blocks))))
        (take-append-drop size (x ∷ blocks))

  concat-cut_nil :
      (blocks : List A) → length blocks ≡ 0 → concat (cut (length blocks) 0 blocks) ≡ blocks
  concat-cut_nil [] h = refl
  concat-cut_nil (x ∷ blocks) h = absurd (omega arith)

  length-cut :
      (f size k : ℕ) (blocks : List A) → length blocks ≤ k * size → length (cut f size blocks) ≤ k
  length-cut zero size k blocks h = omega arith
  length-cut (suc f) size k [] h = omega arith
  length-cut (suc f) size zero (x ∷ blocks) h = absurd (omega arith)
  length-cut (suc f) size (suc k) (x ∷ blocks) h = omega (
    arith,
    length-cut f size k (drop size (x ∷ blocks)) (grind (arith, length-drop size (x ∷ blocks))),
  )

  -- `chunk` cuts the blocks into as many parts as there are devices, or fewer; together they are
  -- the blocks, in order.
  pub chunk_lem :
      (blocks : List A) (part_count : ℕ)
      → 0 < part_count
      → (concat (chunk blocks part_count) ≡ blocks)
        × (length (chunk blocks part_count) ≤ part_count)
  unfolding chunk
  chunk_lem blocks part_count pos =
      let some_parts : (part_count == 0) ≡ false = ground arith in
      let size = (length blocks + part_count - 1) / part_count in
      let all = enough (length blocks) part_count pos in
      rw some_parts (cut_whole size all, length-cut (length blocks) size part_count blocks all)
    where
      cut_whole :
          (size : ℕ)
          → length blocks ≤ part_count * size
          → concat (cut (length blocks) size blocks) ≡ blocks
      cut_whole zero h = concat-cut_nil blocks (omega arith)
      cut_whole (suc size) h =
          concat-cut (length blocks) (suc size) blocks (omega arith) (omega arith)

  append_comm : (xs ys : List A) → Perm (xs ++ ys) (ys ++ xs)
  append_comm [] ys = rw append-nil (Perm.refl ys)
  append_comm (x ∷ xs) ys =
      Perm.trans (Perm.cons x (append_comm xs ys)) (Perm.symm (perm_middle ys xs))

  move_front : (xs ys zs : List A) → Perm (xs ++ (ys ++ zs)) (ys ++ (xs ++ zs))
  move_front xs ys zs =
      rw (← append_assoc xs ys zs, ← append_assoc ys xs zs)
        (Perm.append_right zs (append_comm xs ys))

  concat-Permᴰ : {cs ds : List (List A)} → Permᴰ cs ds → Perm (concat cs) (concat ds)
  concat-Permᴰ Permᴰ.nil = Perm.nil
  concat-Permᴰ (Permᴰ.cons {b = b} e π) = rw e (Perm.append_left b (concat-Permᴰ π))
  concat-Permᴰ (Permᴰ.swap {a' = a'} {b' = b'} {l = l} e₁ e₂) =
      rw (e₁, e₂) (move_front b' a' (concat l))
  concat-Permᴰ (Permᴰ.trans π₁ π₂) = Perm.trans (concat-Permᴰ π₁) (concat-Permᴰ π₂)

  concat-Perm : {cs ds : List (List A)} → Perm cs ds → Perm (concat cs) (concat ds)
  concat-Perm p = ∥∥₁_elim p Perm-prop concat-Permᴰ

  -- Our own chunk, where those from `i` on are left.
  own_from : ℕ → ℕ → List (List A) → List A
  own_from i my_index [] = []
  own_from i my_index (c ∷ chunks) = if i == my_index then c else own_from (i + 1) my_index chunks

  own_from_past :
      (i my_index : ℕ) (chunks : List (List A)) → my_index < i → own_from i my_index chunks ≡ []
  unfolding own_from
  own_from_past i my_index [] h = refl
  own_from_past i my_index (c ∷ chunks) h =
      let other : (i == my_index) ≡ false = ground arith in
      rw other (own_from_past (i + 1) my_index chunks (omega arith))

  own_chunk_lem :
      (i my_index : ℕ) (chunks : List (List A))
      → own_from i (i + my_index) chunks ≡ own_chunk my_index chunks
  unfolding own_from
  own_chunk_lem i my_index [] = let past : ltb my_index 0 ≡ false = ground arith in rw past
  own_chunk_lem i zero (c ∷ chunks) =
      let same : (i == i + 0) ≡ true = ground arith in
      let inside : ltb 0 (suc (length chunks)) ≡ true = ground arith in rw (same, inside)
  own_chunk_lem i (suc k) (c ∷ chunks) =
      let other : (i == i + suc k) ≡ false = ground arith in
      let next : i + suc k ≡ i + 1 + k = omega arith in
      let less : ltb (suc k) (suc (length chunks)) ≡ ltb k (length chunks) = ground arith in
      rw (other, less)
        (ap (λ (m : ℕ). own_from (i + 1) m chunks) next ∙ own_chunk_lem (i + 1) k chunks)

  get_or-middle :
      (before chunks : List (List A)) (c : List A)
      → get_or (before ++ c ∷ chunks) (length before) [] ≡ c
  get_or-middle [] chunks c = refl
  get_or-middle (b ∷ before) chunks c = get_or-middle before chunks c

  others-Perm :
      (before chunks : List (List A)) (my_index i : ℕ)
      → i ≡ length before
      → Perm
          (own_from i my_index chunks
            ++ concat (at_indexes (before ++ chunks) (other_indexes i my_index chunks)))
          (concat chunks)
  unfolding own_from
  others-Perm before [] my_index i e = Perm.nil
  others-Perm before (c ∷ chunks) my_index i e =
      let at : get_or (before ++ c ∷ chunks) i [] ≡ c = rw e (get_or-middle before chunks c) in
      let rest = rw (append_assoc before (c ∷ []) chunks) at (
        others-Perm (before ++ c ∷ []) chunks my_index (i + 1)
          (omega (arith, length-append before (c ∷ [])))) in
      elim (Bool-cases (i == my_index)) [
        | inl own ↦
            let past = own_from_past (i + 1) my_index chunks (omega (arith, ==→eq _ _ own)) in
            rw own (Perm.append_left c (rw past at rest))
        | inr other ↦
            rw (other, at)
              (Perm.trans
                (move_front (own_from (i + 1) my_index chunks) c (
                  concat
                    (at_indexes (before ++ c ∷ chunks) (other_indexes (i + 1) my_index chunks))))
                (Perm.append_left c rest))
      ]

  -- For every shuffle that permutes what it is given, `Reorder` returns a permutation of the blocks,
  -- whatever the device's index and the number of devices are.
  pub reorder-Perm :
      (my_index count : ℕ) (shuffle : List ℕ → List ℕ) (blocks : List A)
      → ((indexes : List ℕ) → Perm (shuffle indexes) indexes)
      → 0 < count
      → Perm (reorder my_index count shuffle blocks) blocks
  unfolding reorder
  reorder-Perm my_index count shuffle blocks permutes pos = elim (Bool-cases (length blocks == 0)) [
    | inl empty ↦ rw empty (Perm.refl blocks)
    | inr some_blocks ↦
        let chunks = chunk blocks count in
        let own : own_from 0 my_index chunks ≡ own_chunk my_index chunks =
          ap (λ (m : ℕ). own_from 0 m chunks) (sym (zero-add my_index))
          ∙ own_chunk_lem 0 my_index chunks in
        let all = rw own at (others-Perm [] chunks my_index 0 refl) in
        let shuffled =
          concat-Perm (
            Perm.map (λ (i : ℕ). get_or chunks i [])
              (permutes (other_indexes 0 my_index chunks))) in
        rw some_blocks (
          rw (chunk_lem blocks count pos).0 at
            (Perm.trans (Perm.append_left (own_chunk my_index chunks) shuffled) all))
  ]
