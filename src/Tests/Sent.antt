-- ===== src/Tests/Sent.antt =====
-- lib/model/sentdownloadstate.go at a concrete puller.
use syncthing_mem.Base.{◌≡◌, refl, inl, inr, Bool-cases, some, [], ◌∷◌, text_eq}
use syncthing_mem.Protocol.Vector.{
  judge, note_greater, note_lesser, compare_loop, compare, is_equal,
}
use syncthing_mem.Protocol.FileInfo.{block_size_of}
use syncthing_mem.Model.Downloads.{FolderState}
use syncthing_mem.Model.Puller.{PullerState, new_shared_puller_state, copy_done}
use syncthing_mem.Model.SentDownloads.{
  PullerReading, read_puller, SentFolder, sent_of, append_update, new_file, replaced_file,
  grown_file, known_file, update_puller, update_pullers, seen, forget_unseen, sent_folder_update,
  Round, cleanup, destroy, sent_update,
}
use syncthing_mem.Model.SentDownloads.Sync.{Synced, sent_folder_update-Synced}
use syncthing_mem.Tests.Files.{notes}
use syncthing_mem.Tests.Pullers.{new_state, block_one, block_two}

abbrev one_copied : PullerState
one_copied = copy_done 6 block_one new_state

abbrev both_copied : PullerState
both_copied = copy_done 7 block_two one_copied

abbrev first_reading : PullerReading
first_reading = read_puller one_copied one_copied

abbrev second_reading : PullerReading
second_reading = read_puller both_copied both_copied

code : Unit {0}
unfolding judge note_greater note_lesser compare_loop compare is_equal block_size_of
    new_shared_puller_state copy_done new_file replaced_file grown_file known_file update_puller
    update_pullers seen forget_unseen sent_folder_update sent_update cleanup destroy read_puller
code = tt

abbrev first_announced : SentFolder
first_announced = (notes, sent_of first_reading) ∷ []

abbrev remote_holds : FolderState
remote_holds =
    (
      notes,
      record {
        block_indexes = first_reading.available;
        version = first_reading.file.version;
        block_size = block_size_of first_reading.file;
      },
    )
    ∷ []

-- The first update announces the block that is there, the second the other one, and the third, when
-- the file is done, takes it back.
sent_runs :
    (sent_folder_update (first_reading ∷ []) []
      ≡ some (append_update notes first_reading.file.version (0 ∷ []) 131072 ∷ [], first_announced))
    × ((r : Round) × (sent_folder_update (second_reading ∷ []) first_announced ≡ some r)
        × (r.0 ≡ append_update notes first_reading.file.version (1 ∷ []) 131072 ∷ []))
    × ((r : Round) × (sent_folder_update [] first_announced ≡ some r) × (r.1 ≡ []))
unfolding code
sent_runs = (refl, (_, refl, refl), (_, refl, refl))

-- A block that becomes available between the two reads of a puller is not announced by the update
-- that follows.
missed_block :
    (sent_folder_update (read_puller one_copied both_copied ∷ []) []
      ≡ some (
        append_update notes first_reading.file.version (0 ∷ []) 131072 ∷ [],
        (notes, sent_of (read_puller one_copied both_copied)) ∷ [],
      ))
    × (sent_folder_update
          (second_reading ∷ [])
          ((notes, sent_of (read_puller one_copied both_copied)) ∷ [])
        ≡ some ([], (notes, sent_of (read_puller one_copied both_copied)) ∷ []))
unfolding code
missed_block = (refl, refl)

sent_folder_update-Synced_example :
    (r : Round) × (sent_folder_update (second_reading ∷ []) first_announced ≡ some r)
    × Synced (second_reading ∷ []) remote_holds r
unfolding code
sent_folder_update-Synced_example =
    sent_folder_update-Synced (second_reading ∷ []) first_announced remote_holds
      (λ f. elim (Bool-cases (text_eq notes f)) [ inl same ↦ rw same | inr other ↦ rw other ])
      (refl, tt) (record { same_time = λ time _. cc; grown = λ _ _. (1 ∷ [], refl) }, tt)
