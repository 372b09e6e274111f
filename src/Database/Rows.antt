-- ===== src/Database/Rows.antt =====
-- internal/db/sqlite/folderdb_update.go and folderdb_ancestor.go: a row of the table of files, and
-- the order in which the rows of one file are tried. Of an int64 (`modified`, `size`, indexes) only
-- order and equality count: it stands as the natural number 2^63 above it.
use syncthing_mem.Base.{
  ℕ, Bool, true, false, not, ◌&&◌, Option, none, some, ltb, ◌==◌, if◌then◌else◌, Text, text_eq,
}
use syncthing_mem.Protocol.Vector.{
  Vector, compare, Ordering, equal, greater, lesser, concurrent_greater, concurrent_lesser,
}
use syncthing_mem.Protocol.Flags.{FlagLocal, flags_invalid}
pub mod Order

-- fileRow
pub record Row : Type 0 where
  pub name : Text
  pub version : Vector
  pub device_idx : ℕ
  pub sequence : ℕ
  pub modified : ℕ
  pub size : ℕ
  pub blocklist_hash : Text
  pub local_flags : FlagLocal
  pub deleted : Bool

-- db.AncestorEntry
pub record AncestorEntry : Type 0 where
  pub name : Text
  pub modified : ℕ
  pub size : ℕ
  pub blocklist_hash : Text
  pub deleted : Bool

-- The results of a comparison function: -1, 0 and 1.
pub data Sign : Type 0 where
  before tie after : Sign

-- `cmp.Compare`
unfoldable pub cmp : ℕ → ℕ → Sign
cmp a b = if ltb a b then before else if a == b then tie else after

abbrev pub flip : Sign → Sign
flip before = after
flip tie = tie
flip after = before

abbrev pub bool_eq : Bool → Bool → Bool
bool_eq true b = b
bool_eq false b = not b

unfoldable pub row_invalid : Row → Bool
row_invalid e = flags_invalid e.local_flags

unfoldable pub row_matches_ancestor : Row → Option AncestorEntry → Bool
row_matches_ancestor row none = false
row_matches_ancestor row (some a) =
    if row.deleted && a.deleted
    then true
    else if not (bool_eq row.deleted a.deleted)
    then false
    else row.modified == a.modified
      && row.size == a.size
      && text_eq row.blocklist_hash a.blocklist_hash

unfoldable pub rows_equal_by_ancestor_metadata : Row → Row → Bool
rows_equal_by_ancestor_metadata a b =
    if a.deleted && b.deleted
    then true
    else if not (bool_eq a.deleted b.deleted)
    then false
    else a.modified == b.modified && a.size == b.size && text_eq a.blocklist_hash b.blocklist_hash

-- What is left to compare where the first comparison is a tie.
abbrev pub or_else : Sign → Sign → Sign
or_else before s = before
or_else tie s = s
or_else after s = after

unfoldable pub compare_lww_ancestor : Row → Row → Option AncestorEntry → Sign
compare_lww_ancestor e other ancestor =
    let e_matches = row_matches_ancestor e ancestor in
    let other_matches = row_matches_ancestor other ancestor in
    if e_matches && not other_matches
    then after
    else if not e_matches && other_matches
    then before
    else if rows_equal_by_ancestor_metadata e other
    then cmp e.device_idx other.device_idx
    else if e.deleted && not other.deleted
    then after
    else if not e.deleted && other.deleted
    then before
    else or_else (flip (cmp e.modified other.modified)) (cmp e.device_idx other.device_idx)

-- Only one of the two is invalid: that one loses.
unfoldable pub by_validity : Row → Row → Sign
by_validity e other =
    if bool_eq (row_invalid e) (row_invalid other)
    then tie
    else if row_invalid e
    then after
    else before

-- The case of a conflict, for the better or the worse of two concurrent versions.
unfoldable pub compare_conflict : Bool → Row → Row → Option AncestorEntry → Bool → Sign
compare_conflict better e other ancestor use_lww = or_else (by_validity e other) (
    or_else (if use_lww then compare_lww_ancestor e other ancestor else tie)
      (or_else (flip (cmp e.modified other.modified)) (if better then before else after)))

-- The `switch` on how the versions compare.
unfoldable pub compare_by_order : Ordering → Row → Row → Option AncestorEntry → Bool → Sign
compare_by_order equal e other ancestor use_lww =
    or_else (by_validity e other) (cmp e.device_idx other.device_idx)
compare_by_order greater e other ancestor use_lww = before
compare_by_order lesser e other ancestor use_lww = after
compare_by_order concurrent_greater e other ancestor use_lww =
    compare_conflict true e other ancestor use_lww
compare_by_order concurrent_lesser e other ancestor use_lww =
    compare_conflict false e other ancestor use_lww

unfoldable pub compare_with_ancestor : Row → Row → Option AncestorEntry → Bool → Sign
compare_with_ancestor e other ancestor use_lww =
    compare_by_order (compare e.version other.version) e other ancestor use_lww

unfoldable pub compare_rows : Row → Row → Sign
compare_rows e other = compare_with_ancestor e other none false
