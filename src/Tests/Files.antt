-- ===== src/Tests/Files.antt =====
-- lib/protocol/bep_fileinfo.go and internal/db/sqlite at concrete files and rows.
use syncthing_mem.Base.{
  ℕ, ◌≡◌, ◌↔◌, ◌*◌, ◌<◌, ◌≤◌, refl, inl, inr, ◌⊎◌, true, false, not, none, some, [], ◌∷◌, Text,
  arith,
}
use syncthing_mem.Protocol.Vector.{
  Vector, judge, note_greater, note_lesser, compare_loop, compare, is_equal, is_concurrent,
}
use syncthing_mem.Protocol.Flags.{no_flags, flags_invalid, clear_flags}
use syncthing_mem.Database.Rows.{
  Row, before, cmp, row_invalid, row_matches_ancestor, rows_equal_by_ancestor_metadata,
  compare_lww_ancestor, by_validity, compare_conflict, compare_by_order, compare_with_ancestor,
  compare_rows,
}
use syncthing_mem.Database.Rows.Order.{compare_rows_circle}
use syncthing_mem.Database.Global.{
  insert_back, sort_onto, sort_func, index_func, contains_func, global_index, Choice, local_row,
  choose, global_flags, mark_global, clear_other, Tables, put_ancestor, update_ancestors, rows_of,
  sorted_rows, choice_in, choice_of, apply_choice, recalc_global_for_file,
}
use syncthing_mem.Database.Global.Sort.{newest-choice_of}
use syncthing_mem.Database.Global.Flags.{Rewritten, recalc_global-Rewritten}
use syncthing_mem.Protocol.FileInfo.{
  FileInfo, file, wins_conflict, is_invalid, block_size, min_block_size, desired_per_file_blocks,
  mod_time_equal,
}
use syncthing_mem.Protocol.FileInfo.Conflict.{wins_conflict-not}
use syncthing_mem.Protocol.FileInfo.BlockSize.{block_size_bounds}
use syncthing_mem.Database.Global.Local.{DeviceHas}
use syncthing_mem.Protocol.FileInfo.Equivalence.{mod_time_equal_far}

abbrev first_version : Vector
first_version = record { id = 1; value = 1 } ∷ []

abbrev second_version : Vector
second_version = record { id = 1; value = 2 } ∷ []

abbrev other_version : Vector
other_version = record { id = 2; value = 1 } ∷ []

abbrev pub notes : Text
notes = 110 ∷ []

abbrev old_row : Row
old_row = record {
  name = notes;
  version = first_version;
  device_idx = 1;
  sequence = 4;
  modified = 30;
  size = 5;
  blocklist_hash = 1 ∷ [];
  local_flags = record no_flags { global = true };
  deleted = false;
}

abbrev new_row : Row
new_row = record old_row {
  version = second_version;
  device_idx = 2;
  sequence = 9;
  modified = 10;
  blocklist_hash = 2 ∷ [];
  local_flags = no_flags;
}

abbrev third_row : Row
third_row = record old_row {
  version = other_version;
  device_idx = 3;
  sequence = 6;
  modified = 20;
  blocklist_hash = 3 ∷ [];
  local_flags = no_flags;
}

abbrev table : Tables
table = record { files = old_row ∷ new_row ∷ []; ancestors = [] }

code : Unit {0}
unfolding judge note_greater note_lesser compare_loop compare is_equal is_concurrent flags_invalid
    clear_flags cmp row_invalid row_matches_ancestor rows_equal_by_ancestor_metadata
    compare_lww_ancestor by_validity compare_conflict compare_by_order compare_with_ancestor
    compare_rows insert_back sort_onto sort_func index_func contains_func global_index local_row
    choose global_flags mark_global clear_other put_ancestor update_ancestors rows_of sorted_rows
    choice_in choice_of apply_choice recalc_global_for_file wins_conflict is_invalid mod_time_equal
code = tt

abbrev marked_new : Row
marked_new = record new_row { local_flags = record no_flags { global = true; needed = true } }

table_runs :
    (recalc_global_for_file 1 false notes table).files
    ≡ record old_row { local_flags = no_flags } ∷ marked_new ∷ []
unfolding code
table_runs = refl

compare_rows_circle_example :
    (compare_rows new_row old_row ≡ before)
    × (compare_rows old_row third_row ≡ before)
    × (compare_rows third_row new_row ≡ before)
unfolding code
compare_rows_circle_example =
    compare_rows_circle new_row old_row third_row refl refl refl refl (inl refl) (inr refl)
      (omega arith) (omega arith)

newest-choice_of_example :
    (c : Choice) × (choice_of 1 false notes table ≡ some c) × (c.global ≡ new_row)
unfolding code
newest-choice_of_example =
    newest-choice_of 1 false notes table new_row (old_row ∷ []) [] refl (refl, tt) tt refl

abbrev new_choice : Choice
new_choice = record {
  global = new_row;
  has_local = false;
  local_has_global = false;
  remote_has_global = true;
  local_missing = false;
}

recalc_global-Rewritten_example :
    Rewritten notes new_choice table.files (recalc_global_for_file 1 false notes table).files
    × ((new_choice.has_local ≡ true)
        ↔ DeviceHas 1 (sorted_rows false notes table) new_choice.global)
unfolding code
recalc_global-Rewritten_example =
    recalc_global-Rewritten 1 false notes table new_choice refl (λ h. cc, (λ _. (refl, refl), tt))

abbrev pub info : FileInfo
info = record {
  name = notes;
  size = 5;
  mod_time = 30;
  modified_by = 1;
  version = first_version;
  sequence = 4;
  blocks = [];
  symlink_target = [];
  blocks_hash = [];
  previous_blocks_hash = [];
  encrypted = [];
  platform = record {
    unix = none;
    windows = none;
    linux = none;
    darwin = none;
    free_bsd = none;
    net_bsd = none;
  };
  file_type = file;
  permissions = 420;
  raw_block_size = 0;
  local_flags = no_flags;
  encryption_trailer_size = 0;
  deleted = false;
  no_permissions = false;
  truncated = false;
}

wins_conflict-not_example :
    wins_conflict (record info { version = other_version }) info
    ≡ not (wins_conflict info (record info { version = other_version }))
unfolding code
wins_conflict-not_example = wins_conflict-not info (record info { version = other_version }) refl

block_size_bounds_example :
    (min_block_size ≤ block_size 300000000)
    × (block_size 300000000 ≤ 16777216)
    × ((300000000 < desired_per_file_blocks * block_size 300000000)
        ⊎ (block_size 300000000 ≡ 16777216))
    × ((block_size 300000000 ≡ min_block_size)
        ⊎ (desired_per_file_blocks * block_size 300000000 ≤ 300000000 * 2))
block_size_bounds_example = block_size_bounds 300000000

abbrev stamp : ℕ
stamp = 30

mod_time_equal_far_example : mod_time_equal 0 9300000000000000000 1 ≡ true
mod_time_equal_far_example = mod_time_equal_far 0 9300000000000000000 1 (omega arith)
