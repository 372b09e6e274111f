-- ===== src/Database/Global.antt =====
-- internal/db/sqlite/folderdb_update.go, `recalcGlobalForFile`: which row of a file is the global one,
-- and what the table of files says of it. The table and that of the ancestors are lists of rows; the
-- statements on them are those of the code. `slices.SortFunc` is an insertion sort from the back for
-- up to 12 elements, one for each device that has the file, and is modelled as that.
use syncthing_mem.Base.{
  ℕ, suc, Bool, true, false, not, ◌&&◌, ◌||◌, Option, none, some, List, [], ◌∷◌, map, get_elem?,
  leb, ◌==◌, if◌then◌else◌, Text, text_eq, look, put, delete,
}
use mathlib.Core.List.{reverse}
use syncthing_mem.Protocol.Vector.{is_equal}
use syncthing_mem.Protocol.Flags.{FlagLocal, clear_flags, no_flags}
use syncthing_mem.Database.Rows.{
  Row, AncestorEntry, Sign, before, tie, after, row_invalid, compare_with_ancestor,
}
pub mod Sort
pub mod Flags
pub mod Local

abbrev pub is_before : Sign → Bool
is_before before = true
is_before tie = false
is_before after = false

module _ {A : Type 0} where
  -- The element moves towards the front, past those that it comes before. The sorted part is
  -- reversed.
  unfoldable pub insert_back : (A → A → Sign) → A → List A → List A
  insert_back cmp x [] = x ∷ []
  insert_back cmp x (y ∷ ys) =
      let rest = insert_back cmp x ys in if is_before (cmp x y) then y ∷ rest else x ∷ y ∷ ys

  unfoldable pub sort_onto : (A → A → Sign) → List A → List A → List A
  sort_onto cmp sorted [] = reverse sorted
  sort_onto cmp sorted (x ∷ xs) = sort_onto cmp (insert_back cmp x sorted) xs

  unfoldable pub sort_func : (A → A → Sign) → List A → List A
  sort_func cmp xs = sort_onto cmp [] xs

  -- `slices.IndexFunc`, with none for -1, and `slices.ContainsFunc`.
  unfoldable pub index_func : (A → Bool) → List A → Option ℕ
  index_func p [] = none
  index_func p (x ∷ xs) =
      let rest = index_func p xs in
      if p x then some 0 else elim rest [ none ↦ none | some i ↦ some (suc i) ]

  unfoldable pub contains_func : (A → Bool) → List A → Bool
  contains_func p [] = false
  contains_func p (x ∷ xs) = let rest = contains_func p xs in if p x then true else rest

-- The index of the global row among the sorted ones.
unfoldable pub global_index : List Row → ℕ
global_index es = elim (index_func (λ e. not (row_invalid e)) es) [ none ↦ 0 | some i ↦ i ]

-- What the calculation finds: the global row, and who has its version.
pub record Choice : Type 0 where
  pub global : Row
  pub has_local : Bool
  pub local_has_global : Bool
  pub remote_has_global : Bool
  pub local_missing : Bool

-- The local row against the global one, by the index of the local row.
unfoldable pub local_row : List Row → Option ℕ → Option Row
local_row es none = none
local_row es (some i) = get_elem? es i

abbrev pub same_version : Row → Option Row → Bool
same_version global none = false
same_version global (some e) = is_equal e.version global.version

abbrev pub at_most : Option ℕ → ℕ → Bool
at_most none n = false
at_most (some i) n = leb i n

abbrev pub is_none : Option ℕ → Bool
is_none none = true
is_none (some i) = false

unfoldable pub choose : ℕ → List Row → Row → Choice
choose local_device es global =
    let local_idx = index_func (λ (e : Row). e.device_idx == local_device) es in
    let local_same = same_version global (local_row es local_idx) in
    record {
      global = global;
      has_local =
          at_most local_idx (global_index es)
          || local_same
          || (is_none local_idx && global.deleted);
      local_has_global = local_same;
      remote_has_global =
          contains_func
            (λ (e : Row). not (e.device_idx == local_device) && is_equal e.version global.version)
            es;
      local_missing = is_none local_idx;
    }

-- The flags of the global row.
unfoldable pub global_flags : Choice → FlagLocal
global_flags c = record (c.global.local_flags) {
  global = true;
  needed = not (c.has_local || row_invalid c.global);
}

-- The first `UPDATE`.
unfoldable pub mark_global : Choice → Row → Row
mark_global c r =
    if r.device_idx == c.global.device_idx && r.sequence == c.global.sequence
    then record r { local_flags = global_flags c }
    else r

abbrev pub global_and_needed : FlagLocal
global_and_needed = record no_flags { global = true; needed = true }

-- The second `UPDATE`: all other rows of the file that have one of the two flags.
unfoldable pub clear_other : Text → Choice → Row → Row
clear_other file c r =
    if text_eq r.name file
      && not (r.sequence == c.global.sequence)
      && (r.local_flags.needed || r.local_flags.global)
    then record r { local_flags = clear_flags r.local_flags global_and_needed }
    else r

pub record Tables : Type 0 where
  pub files : List Row
  pub ancestors : List (Text × AncestorEntry)

unfoldable pub put_ancestor : Row → List (Text × AncestorEntry) → List (Text × AncestorEntry)
put_ancestor r = put r.name (record {
  name = r.name;
  modified = r.modified;
  size = r.size;
  blocklist_hash = r.blocklist_hash;
  deleted = r.deleted;
})

unfoldable pub update_ancestors :
    Bool → Choice → List (Text × AncestorEntry) → List (Text × AncestorEntry)
update_ancestors use_lww c ancestors =
    if not use_lww
    then ancestors
    else if c.local_has_global && c.remote_has_global
    then put_ancestor c.global ancestors
    else if c.global.deleted && c.local_missing && c.remote_has_global
    then delete c.global.name ancestors
    else ancestors

-- The `SELECT` of the rows of one file.
unfoldable pub rows_of : Text → List Row → List Row
rows_of file [] = []
rows_of file (r ∷ rows) =
    let rest = rows_of file rows in if text_eq r.name file then r ∷ rest else rest

unfoldable pub sorted_rows : Bool → Text → Tables → List Row
sorted_rows use_lww file t =
    let ancestor = if use_lww then look file t.ancestors else none in
    sort_func (λ a b. compare_with_ancestor a b ancestor use_lww) (rows_of file t.files)

-- The global row, if the file has any.
unfoldable pub choice_in : ℕ → List Row → Option Choice
choice_in local_device es = elim (get_elem? es (global_index es)) [
  | none ↦ none
  | some global ↦ some (choose local_device es global)
]

unfoldable pub choice_of : ℕ → Bool → Text → Tables → Option Choice
choice_of local_device use_lww file t = choice_in local_device (sorted_rows use_lww file t)

unfoldable pub apply_choice : Bool → Text → Tables → Option Choice → Tables
apply_choice use_lww file t none = t
apply_choice use_lww file t (some c) = record {
  files = map (λ r. clear_other file c (mark_global c r)) t.files;
  ancestors = update_ancestors use_lww c t.ancestors;
}

unfoldable pub recalc_global_for_file : ℕ → Bool → Text → Tables → Tables
recalc_global_for_file local_device use_lww file t =
    apply_choice use_lww file t (choice_of local_device use_lww file t)
