-- ===== src/Database/Rows/Order.antt =====
-- internal/db/sqlite/folderdb_update.go: the order of the rows of a file.
use syncthing_mem.Base.{
  ℕ, ◌<◌, ◌≡◌, refl, ap, ◌∙◌, ◌⊎◌, inl, inr, Bool, true, false, not, Option, arith, text_eq_comm,
}
use syncthing_mem.Protocol.Vector.{
  compare, Ordering, equal, greater, lesser, concurrent_greater, concurrent_lesser,
}
use syncthing_mem.Protocol.Vector.Compare.{converse, compare-converse}
use syncthing_mem.Database.Rows.{
  Row, AncestorEntry, Sign, before, tie, after, cmp, flip, row_invalid,
  rows_equal_by_ancestor_metadata, or_else, compare_lww_ancestor, by_validity, compare_conflict,
  compare_by_order, compare_with_ancestor, compare_rows,
}

cmp-flip : (a b : ℕ) → cmp b a ≡ flip (cmp a b)
unfolding cmp
cmp-flip a b = ground arith

flip-flip : (s : Sign) → flip (flip s) ≡ s
flip-flip before = refl
flip-flip tie = refl
flip-flip after = refl

or_else-flip : (s t : Sign) → or_else (flip s) (flip t) ≡ flip (or_else s t)
or_else-flip before t = refl
or_else-flip tie t = refl
or_else-flip after t = refl

metadata_comm :
    (a b : Row) → rows_equal_by_ancestor_metadata a b ≡ rows_equal_by_ancestor_metadata b a
unfolding rows_equal_by_ancestor_metadata
metadata_comm a b = ground (arith, text_eq_comm a.blocklist_hash b.blocklist_hash)

by_validity-flip : (e o : Row) → by_validity o e ≡ flip (by_validity e o)
unfolding by_validity
by_validity-flip e o = ground arith

lww-flip :
    (e o : Row) (a : Option AncestorEntry)
    → compare_lww_ancestor o e a ≡ flip (compare_lww_ancestor e o a)
unfolding compare_lww_ancestor
lww-flip e o a =
    ground
      (arith, cmp-flip e.device_idx o.device_idx, cmp-flip e.modified o.modified, metadata_comm e o)

conflict-flip :
    (better use_lww : Bool) (e o : Row) (a : Option AncestorEntry)
    → compare_conflict (not better) o e a use_lww ≡ flip (compare_conflict better e o a use_lww)
unfolding compare_conflict
conflict-flip better use_lww e o a =
    ground (arith, by_validity-flip e o, lww-flip e o a, cmp-flip e.modified o.modified)

equal-flip :
    (e o : Row)
    → or_else (by_validity o e) (cmp o.device_idx e.device_idx)
      ≡ flip (or_else (by_validity e o) (cmp e.device_idx o.device_idx))
equal-flip e o = ground (arith, by_validity-flip e o, cmp-flip e.device_idx o.device_idx)

order-flip :
    (r : Ordering) (e o : Row) (a : Option AncestorEntry) (use_lww : Bool)
    → compare_by_order (converse r) o e a use_lww ≡ flip (compare_by_order r e o a use_lww)
unfolding compare_by_order
order-flip equal e o a use_lww = equal-flip e o
order-flip greater e o a use_lww = refl
order-flip lesser e o a use_lww = refl
order-flip concurrent_greater e o a use_lww = conflict-flip true use_lww e o a
order-flip concurrent_lesser e o a use_lww = conflict-flip false use_lww e o a

-- The comparison of two rows with its arguments swapped gives the opposite result, in both modes
-- and for every ancestor.
pub compare_with_ancestor-flip :
    (e o : Row) (a : Option AncestorEntry) (use_lww : Bool)
    → compare_with_ancestor o e a use_lww ≡ flip (compare_with_ancestor e o a use_lww)
unfolding compare_with_ancestor
compare_with_ancestor-flip e o a use_lww =
    ap (λ (r : Ordering). compare_by_order r o e a use_lww) (compare-converse e.version o.version)
    ∙ order-flip (compare e.version o.version) e o a use_lww

abbrev pub IsConcurrent : Ordering → Type 0
IsConcurrent o = (o ≡ concurrent_greater) ⊎ (o ≡ concurrent_lesser)

-- Of two valid rows in conflict the one that was modified later comes first.
later-compare_rows :
    (x y : Row)
    → row_invalid x ≡ false
    → row_invalid y ≡ false
    → IsConcurrent (compare x.version y.version)
    → y.modified < x.modified
    → compare_rows x y ≡ before
unfolding compare_rows compare_with_ancestor compare_by_order compare_conflict by_validity cmp
later-compare_rows x y vx vy (inl better) later = rw better (ground arith)
later-compare_rows x y vx vy (inr worse) later = rw worse (ground arith)

newer-compare_rows : (x y : Row) → compare x.version y.version ≡ greater → compare_rows x y ≡ before
unfolding compare_rows compare_with_ancestor compare_by_order
newer-compare_rows x y newer = rw newer

-- Three valid rows, the first with a newer version than the second, the third in conflict with both
-- and modified after the first and before the second, each come before the next in a circle.
pub compare_rows_circle :
    (e o c : Row)
    → row_invalid e ≡ false
    → row_invalid o ≡ false
    → row_invalid c ≡ false
    → compare e.version o.version ≡ greater
    → IsConcurrent (compare o.version c.version)
    → IsConcurrent (compare c.version e.version)
    → e.modified < c.modified
    → c.modified < o.modified
    → (compare_rows e o ≡ before) × (compare_rows o c ≡ before) × (compare_rows c e ≡ before)
compare_rows_circle e o c ve vo vc newer oc ce later earlier = (
  newer-compare_rows e o newer,
  later-compare_rows o c vo vc oc earlier,
  later-compare_rows c e vc ve ce later,
)
