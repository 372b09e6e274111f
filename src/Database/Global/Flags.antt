-- ===== src/Database/Global/Flags.antt =====
-- internal/db/sqlite/folderdb_update.go, `recalcGlobalForFile`: what the table says afterwards.
use syncthing_mem.Base.{
  ℕ, ◌≡◌, ◌↔◌, refl, inl, inr, Bool, true, false, not, ◌&&◌, ◌||◌, some, List, [], ◌∷◌, map,
  get_elem?, ◌==◌, if◌then◌else◌, arith, Bool-cases, Text, text_eq,
}
use syncthing_mem.Protocol.Flags.{clear_flags}
use syncthing_mem.Database.Rows.{Row, row_invalid}
use syncthing_mem.Database.Global.{
  Choice, Tables, global_flags, mark_global, clear_other, choice_of, apply_choice,
  recalc_global_for_file, global_and_needed, global_index, choice_in, sorted_rows,
}
use syncthing_mem.Database.Global.Local.{DeviceHas, choice-has_local}
use syncthing_mem.Database.Global.Sort.{All}

-- What the calculation writes to one row of the table: the row of the file that is the global one
-- has the global flag, and is needed unless the local device has it or it is invalid; another row of
-- the file has neither flag; a row of another file is left alone.
pub record IsMarked (file : Text) (c : Choice) (r r' : Row) : Type 0 where
  pub chosen :
      text_eq r.name file ≡ true
      → (r.sequence == c.global.sequence) ≡ true
      → (r'.local_flags.global ≡ true)
        × (r'.local_flags.needed ≡ not (c.has_local || row_invalid c.global))
  pub others :
      text_eq r.name file ≡ true
      → (r.sequence == c.global.sequence) ≡ false
      → (r'.local_flags.global ≡ false) × (r'.local_flags.needed ≡ false)
  pub elsewhere : text_eq r.name file ≡ false → r' ≡ r

abbrev pub Rewritten : Text → Choice → List Row → List Row → Type 0
Rewritten file c [] [] = Unit
Rewritten file c [] (y ∷ ys) = ⊥
Rewritten file c (x ∷ xs) [] = ⊥
Rewritten file c (x ∷ xs) (y ∷ ys) = IsMarked file c x y × Rewritten file c xs ys

-- A sequence number belongs to one row, so to one device and one file.
abbrev pub OwnSequence : Text → Row → Row → Type 0
OwnSequence file g r =
    (r.sequence == g.sequence) ≡ true → (r.device_idx ≡ g.device_idx) × (text_eq r.name file ≡ true)

module _ (file : Text) (c : Choice) (r : Row) where
  mark_chosen :
      r.device_idx ≡ c.global.device_idx
      → (r.sequence == c.global.sequence) ≡ true
      → clear_other file c (mark_global c r) ≡ record r { local_flags = global_flags c }
  unfolding clear_other mark_global
  mark_chosen d h = ground arith

  mark_other :
      (r.sequence == c.global.sequence) ≡ false
      → clear_other file c (mark_global c r) ≡ (
          if text_eq r.name file && (r.local_flags.needed || r.local_flags.global)
          then record r { local_flags = clear_flags r.local_flags global_and_needed }
          else r)
  unfolding clear_other mark_global
  mark_other h = ground arith

  row-IsMarked :
      OwnSequence file c.global r → IsMarked file c r (clear_other file c (mark_global c r))
  unfolding clear_flags global_flags
  row-IsMarked own = elim (Bool-cases (r.sequence == c.global.sequence)) [
    | inl chosen ↦
        let (device, name) = own chosen in
        rw (mark_chosen device chosen) (record {
          chosen = λ _ _. (refl, refl);
          others = λ _ no_other. cc;
          elsewhere = λ no_name. cc;
        })
    | inr other ↦ rw (mark_other other) (record {
      chosen = λ _ no_chosen. cc;
      others = λ name _. ground arith;
      elsewhere = λ no_name. ground arith;
    })
  ]

Rewritten-map :
    (file : Text) (c : Choice) (rows : List Row)
    → All (OwnSequence file c.global) rows
    → Rewritten file c rows (map (λ r. clear_other file c (mark_global c r)) rows)
Rewritten-map file c [] h = tt
Rewritten-map file c (r ∷ rows) (own, h) = (row-IsMarked file c r own, Rewritten-map file c rows h)

-- After the calculation for a file, in a table where the global row's sequence number belongs to no
-- other row, the global row of the file alone has the global flag, and it alone can be needed: it is
-- unless it is invalid or the local device has it, which means that the local row stands at its place
-- or before it in the order of the rows or is of the same version, or that there is no local row of a
-- file whose global row is that of a deleted one. The rows of other files are left alone.
pub recalc_global-Rewritten :
    (local_device : ℕ) (use_lww : Bool) (file : Text) (t : Tables) (c : Choice)
    → choice_of local_device use_lww file t ≡ some c
    → All (OwnSequence file c.global) t.files
    → Rewritten file c t.files (recalc_global_for_file local_device use_lww file t).files
      × ((c.has_local ≡ true) ↔ DeviceHas local_device (sorted_rows use_lww file t) c.global)
unfolding recalc_global_for_file apply_choice choice_of choice_in
recalc_global-Rewritten local_device use_lww file t c e own =
    let es = sorted_rows use_lww file t in
    (
      rw (e, recalc_global_for_file) (Rewritten-map file c t.files own),
      choice-has_local local_device es (get_elem? es (global_index es)) c e,
    )
