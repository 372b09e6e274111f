-- ===== src/Tests/Progress.antt =====
-- lib/model/devicedownloadstate.go at a concrete device.
use syncthing_mem.Base.{◌≡◌, refl, true, false, [], ◌∷◌, Text}
use syncthing_mem.Protocol.Vector.{
  Vector, judge, note_greater, note_lesser, compare_loop, compare, is_equal,
}
use syncthing_mem.Model.Downloads.{
  ProgressUpdate, append, contains, has_block, has, appended, forgotten, update_by, update_one,
  update_folder, file_bytes, bytes_downloaded,
}
use syncthing_mem.Model.Downloads.Has.{expected, has-update_one}

abbrev version_one : Vector
version_one = record { id = 1; value = 1 } ∷ []

abbrev version_two : Vector
version_two = record { id = 1; value = 2 } ∷ []

abbrev file : Text
file = 97 ∷ []

abbrev first : ProgressUpdate
first = record {
  update_type = append;
  name = file;
  version = version_one;
  block_indexes = 0 ∷ 2 ∷ [];
  block_size = 0;
}

abbrev second : ProgressUpdate
second = record {
  update_type = append;
  name = file;
  version = version_two;
  block_indexes = 1 ∷ [];
  block_size = 0;
}

code : Unit {0}
unfolding judge note_greater note_lesser compare_loop compare is_equal contains has_block has
    appended forgotten update_by update_one update_folder file_bytes bytes_downloaded
code = tt

progress_runs :
    (has file version_one 2 (update_folder (first ∷ []) []) ≡ true)
    × (has file version_one 2 (update_folder (first ∷ second ∷ []) []) ≡ false)
    × (bytes_downloaded (update_folder (first ∷ []) []) ≡ 262144)
unfolding code
progress_runs = (refl, refl, refl)

has-update_one_example :
    has file version_two 1 (update_one second (update_folder (first ∷ []) []))
    ≡ expected append (contains (1 ∷ []) 1) (has file version_two 1 (update_folder (first ∷ []) []))
has-update_one_example = has-update_one second 1 (update_folder (first ∷ []) [])
