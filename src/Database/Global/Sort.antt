-- ===== src/Database/Global/Sort.antt =====
-- internal/db/sqlite/folderdb_update.go: the sort, and the row that comes before all others.
use mathlib.Core.List.{reverse, reverse-append}
use syncthing_mem.Base.{
  ℕ, ◌≡◌, refl, ap, ◌∙◌, inl, inr, Bool, false, Option, none, some, List, [], ◌∷◌, ◌++◌,
  if◌then◌else◌, Bool-cases, Text, look,
}
use syncthing_mem.Protocol.Vector.{Ordering, compare, greater}
use syncthing_mem.Database.Rows.{
  Row, Sign, before, after, flip, row_invalid, compare_with_ancestor, compare_by_order,
  AncestorEntry,
}
use syncthing_mem.Database.Rows.Order.{compare_with_ancestor-flip}
use syncthing_mem.Database.Global.{
  is_before, insert_back, sort_onto, sort_func, index_func, global_index, Choice, choose, Tables,
  rows_of, sorted_rows, choice_in, choice_of,
}

abbrev pub All : {A : Type 0} → (A → Type 0) → List A → Type 0
All P [] = Unit
All P (x ∷ xs) = P x × All P xs

module _ {A : Type 0} (order : A → A → Sign) (w : A) where
  -- `w` comes before an element, from both sides.
  abbrev pub Beats : A → Type 0
  Beats x = (order w x ≡ before) × (order x w ≡ after)

  -- A reversed sorted part whose front is `w`.
  abbrev Leads : List A → Type 0
  Leads l = (zs : List A) × (l ≡ zs ++ w ∷ [])

  insert_winner : (l : List A) → All Beats l → insert_back order w l ≡ l ++ w ∷ []
  unfolding insert_back
  insert_winner [] h = refl
  insert_winner (y ∷ ys) ((wins, loses), h) = rw (wins, insert_winner ys h)

  insert_loser : (x : A) (zs : List A) → Beats x → Leads (insert_back order x (zs ++ w ∷ []))
  unfolding insert_back
  insert_loser x [] (wins, loses) = (x ∷ [], rw loses)
  insert_loser x (z ∷ zs) b =
      let (ys, e) = insert_loser x zs b in
      elim (Bool-cases (is_before (order x z))) [
        | inl far ↦ (z ∷ ys, rw (far, e))
        | inr here ↦ (x ∷ z ∷ zs, rw here)
      ]

  insert-All : (x : A) (l : List A) → Beats x → All Beats l → All Beats (insert_back order x l)
  unfolding insert_back
  insert-All x [] b h = (b, tt)
  insert-All x (y ∷ ys) b (c, h) = elim (Bool-cases (is_before (order x y))) [
    | inl far ↦ rw far (c, insert-All x ys b h)
    | inr here ↦ rw here (b, (c, h))
  ]

  sort_led :
      (zs xs : List A) → All Beats xs → (r : List A) × (sort_onto order (zs ++ w ∷ []) xs ≡ w ∷ r)
  unfolding sort_onto
  sort_led zs [] h = (reverse zs, reverse-append zs (w ∷ []))
  sort_led zs (x ∷ xs) (b, h) =
      let (ys, e) = insert_loser x zs b in let (r, f) = sort_led ys xs h in (r, rw e f)

  sort_winner :
      (sorted xs ys : List A)
      → All Beats sorted
      → All Beats xs
      → All Beats ys
      → (r : List A) × (sort_onto order sorted (xs ++ w ∷ ys) ≡ w ∷ r)
  unfolding sort_onto
  sort_winner sorted [] ys hs hx hy =
      let (r, e) = sort_led sorted ys hy in (r, rw (insert_winner sorted hs, sort_onto) e)
  sort_winner sorted (x ∷ xs) ys hs (b, hx) hy =
      sort_winner (insert_back order x sorted) xs ys (insert-All x sorted b hs) hx hy

-- A newer version beats an older one.
newer-Beats :
    (w x : Row) (a : Option AncestorEntry) (use_lww : Bool)
    → compare w.version x.version ≡ greater
    → Beats (λ e o. compare_with_ancestor e o a use_lww) w x
unfolding compare_with_ancestor compare_by_order
newer-Beats w x a use_lww newer = (wins, compare_with_ancestor-flip w x a use_lww ∙ ap flip wins)
  where
    wins : compare_with_ancestor w x a use_lww ≡ before
    wins = ap (λ (r : Ordering). compare_by_order r w x a use_lww) newer

abbrev pub IsNewerThan : Row → Row → Type 0
IsNewerThan w x = compare w.version x.version ≡ greater

All-Beats :
    (w : Row) (a : Option AncestorEntry) (use_lww : Bool) (xs : List Row)
    → All (IsNewerThan w) xs
    → All (Beats (λ e o. compare_with_ancestor e o a use_lww) w) xs
All-Beats w a use_lww [] h = tt
All-Beats w a use_lww (x ∷ xs) (n, h) = (newer-Beats w x a use_lww n, All-Beats w a use_lww xs h)

sorted_rows-newest :
    (use_lww : Bool) (file : Text) (t : Tables) (w : Row) (xs ys : List Row)
    → rows_of file t.files ≡ xs ++ w ∷ ys
    → All (IsNewerThan w) xs
    → All (IsNewerThan w) ys
    → (r : List Row) × (sorted_rows use_lww file t ≡ w ∷ r)
unfolding sorted_rows sort_func
sorted_rows-newest use_lww file t w xs ys e hx hy =
    let a = if use_lww then look file t.ancestors else none in
    let (r, first) =
      sort_winner (λ e o. compare_with_ancestor e o a use_lww) w [] xs ys tt
        (All-Beats w a use_lww xs hx) (All-Beats w a use_lww ys hy) in
    (r, rw e first)

choice_in-valid :
    (local_device : ℕ) (w : Row) (r : List Row)
    → row_invalid w ≡ false
    → choice_in local_device (w ∷ r) ≡ some (choose local_device (w ∷ r) w)
unfolding choice_in global_index index_func
choice_in-valid local_device w r valid = rw (valid, choice_in, global_index, index_func)

-- If one valid row of a file has a newer version than every other, in whatever order the table lists
-- them, then that row is the global one, with and without ancestors.
pub newest-choice_of :
    (local_device : ℕ) (use_lww : Bool) (file : Text) (t : Tables) (w : Row) (xs ys : List Row)
    → rows_of file t.files ≡ xs ++ w ∷ ys
    → All (IsNewerThan w) xs
    → All (IsNewerThan w) ys
    → row_invalid w ≡ false
    → (c : Choice) × (choice_of local_device use_lww file t ≡ some c) × (c.global ≡ w)
unfolding choice_of choose
newest-choice_of local_device use_lww file t w xs ys e hx hy valid =
    let (r, first) = sorted_rows-newest use_lww file t w xs ys e hx hy in
    (
      choose local_device (w ∷ r) w,
      ap (choice_in local_device) first ∙ choice_in-valid local_device w r valid,
      refl,
    )
