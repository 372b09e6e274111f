-- ===== src/Tests/Pullers.antt =====
-- lib/model/sharedpullerstate.go at a concrete file.
use syncthing_mem.Base.{
  ◌+◌, ◌*◌, ◌≡◌, refl, ◌⊎◌, ◌↔◌, ◌==◌, if◌then◌else◌, true, false, none, some, [], ◌∷◌, arith,
}
use syncthing_mem.Protocol.FileInfo.{FileInfo, BlockInfo, block_size_of, is_symlink}
use syncthing_mem.Model.Puller.{
  opening, other, FileSystem, PullerState, PullerConfig, new_shared_puller_state, blocks_map,
  add_writer, open_temp, truncate_temp, temp_file_in_writable_dir, fail, fail_with, temp_file,
  temp_file_after, temp_added, copy_done, copied_from_origin, pull_started, pull_done,
  finalize_encrypted, finalize_by, close_writer, close_added, close_ready, final_close, is_some,
}
use syncthing_mem.Model.Puller.Close.{final_close_iff}
use syncthing_mem.Model.Puller.Steps.{
  World, here, step, copied, requested, start, IsSound, Steps-IsSound,
}
use syncthing_mem.Model.Puller.Progress.{blocks_to_size, progress, blocks_to_size_all}
use syncthing_mem.Tests.Files.{info}

abbrev pub block_one : BlockInfo
block_one = record { hash = 1 ∷ []; offset = 0; size = 131072 }

abbrev pub block_two : BlockInfo
block_two = record { hash = 2 ∷ []; offset = 131072; size = 131072 }

abbrev two_blocks : FileInfo
two_blocks = record info { size = 262144; blocks = block_one ∷ block_two ∷ [] }

abbrev config : PullerConfig
config = record {
  file = two_blocks;
  folder = 102 ∷ [];
  temp_name = 116 ∷ [];
  ignore_perms = false;
  has_cur_file = false;
  cur_file = info;
  sparse = true;
  fsync = false;
}

abbrev disk : FileSystem
disk = record {
  writable_dir = none;
  chmod = λ _. none;
  open_file = λ _ _. none;
  truncate = λ _. none;
  wire_name = λ n. n;
  trailer_size = λ _. 0;
  write_trailer = λ _. none;
  close = none;
}

abbrev full_disk : FileSystem
full_disk = record disk { open_file = λ _ _. some (120 ∷ []) }

code : Unit {0}
unfolding blocks_map new_shared_puller_state add_writer open_temp truncate_temp
    temp_file_in_writable_dir fail fail_with temp_file temp_file_after temp_added copy_done
    copied_from_origin pull_started pull_done finalize_encrypted finalize_by close_writer
    close_added close_ready final_close is_symlink block_size_of blocks_to_size progress
code = tt

abbrev pub new_state : PullerState
new_state = new_shared_puller_state 5 config (block_one ∷ block_two ∷ []) []

abbrev finished : PullerState
finished = pull_done 7 block_two (copy_done 6 block_one (pull_started 5 new_state))

-- A file of two full blocks counts for one of them; and a state whose temporary file cannot be opened
-- is in error, with or without a call of `finalClose`.
puller_runs :
    ((final_close disk finished).0 ≡ (true, none))
    × (finished.available ≡ 0 ∷ 1 ∷ [])
    × ((progress finished).bytes_total ≡ 131072)
    × ((final_close full_disk (temp_file full_disk new_state).1).0
        ≡ (false, some (opening (120 ∷ []))))
unfolding code
puller_runs = (refl, refl, refl, refl)

final_close_iff_example :
    ((final_close full_disk (fail (some (other [])) new_state)).0.0 ≡ true) ↔ (
      ((fail (some (other [])) new_state).closed ≡ false)
      × (((fail (some (other [])) new_state).pull_needed
              + (fail (some (other [])) new_state).copy_needed
            ≡ 0)
          ⊎ (is_some (fail (some (other [])) new_state).err ≡ true))
      × (((fail (some (other [])) new_state).writer ≡ true)
          ⊎ (add_writer full_disk (fail (some (other [])) new_state) ≡ none)))
final_close_iff_example = final_close_iff full_disk (fail (some (other [])) new_state)

abbrev begun : World
begun = start 5 config (block_one ∷ block_two ∷ []) []

abbrev half : World
half = record begun { state = copy_done 6 block_one new_state; todo = block_two ∷ [] }

abbrev handed : World
handed = record half { state = pull_started 7 half.state; todo = []; pulling = block_two ∷ [] }

Steps-IsSound_example : IsSound (block_one ∷ block_two ∷ []) [] handed
Steps-IsSound_example =
    Steps-IsSound 5 config (block_one ∷ block_two ∷ []) [] handed
      (step (step here (copied 6 block_one (block_two ∷ []) refl)) (requested 7 block_two [] refl))

blocks_to_size_all_example :
    blocks_to_size 2 2 131072 (1 * 131072 + 131072)
    ≡ (if 131072 == 131072 then 1 * 131072 else 1 * 131072 + 131072)
blocks_to_size_all_example = blocks_to_size_all 1 131072 131072 (omega arith) (omega arith)
