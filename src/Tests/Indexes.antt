-- ===== src/Tests/Indexes.antt =====
-- lib/model/indexhandler.go at two calls of `sendIndexTo`.
use syncthing_mem.Base.{ℕ, ◌≡◌, refl, false, Option, none, some, List, [], ◌∷◌, arith}
use syncthing_mem.Protocol.FileInfo.{FileInfo}
use syncthing_mem.Model.Batch.{append_file, append_after, full, flush, flush_after, flushed, reset}
use syncthing_mem.Model.IndexHandler.{
  IndexHandler, index, index_update, Surroundings, prepare_file_info_for_index,
  is_receive_only_changed, taken, scan_one, scan, flush_fn, send_index_to,
}
use syncthing_mem.Model.IndexHandler.Receive.{
  IndexDb, unexpected_sequence, Receiver, make_forget_update, check_files, check_index, check_after,
  stored, checked, dropped, receive, receive_message,
}
use syncthing_mem.Model.IndexHandler.Sequences.{sequence_db, reset_sequence, insert_files}
use syncthing_mem.Model.IndexHandler.Exchange.{Call, deliver, serve, serve-nil}
use syncthing_mem.Model.IndexHandler.Complete.{Sends, send_index_to-Sends}
use syncthing_mem.Tests.Files.{info}

abbrev file_four : FileInfo
file_four = info

abbrev file_six : FileInfo
file_six = record info { sequence = 6 }

-- SQLite never fails.
abbrev numbers : IndexDb (Option ℕ)
numbers =
    sequence_db
      (record { drop_fails = λ _. false; update_fails = λ _ _. false; read_fails = λ _. false })

abbrev line : Surroundings
line = record { cancelled = none; wire_size = λ _. 100; send = λ _. none }

abbrev handler : IndexHandler
handler = record {
  folder = 102 ∷ [];
  folder_is_receive_encrypted = false;
  local_prev_sequence = 0;
  sent_prev_sequence = 0;
}

abbrev peer : Receiver (Option ℕ)
peer = record { paused = false; downloads = []; db = none }

abbrev calls : List Call
calls = (line, (file_four ∷ [], none)) ∷ (line, (file_six ∷ [], none)) ∷ []

code : Unit {0}
unfolding append_file append_after full flush flush_after flushed reset taken scan_one scan flush_fn
    send_index_to prepare_file_info_for_index is_receive_only_changed make_forget_update check_files
    check_index check_after stored checked dropped receive receive_message deliver serve sequence_db
    reset_sequence insert_files
code = tt

-- The first call sends an index, a later one an update; an update that follows on another number than
-- the peer has is noticed.
index_runs :
    ((send_index_to line (file_four ∷ []) none handler).1.0
      ≡ some (index (102 ∷ []) (file_four ∷ []) 4))
    × ((send_index_to line
          (file_six ∷ [])
          none
          (record handler { local_prev_sequence = 4; sent_prev_sequence = 4 })).1.0
        ≡ some (index_update (102 ∷ []) (file_six ∷ []) 4 6))
    × ((receive_message numbers (index_update (102 ∷ []) (file_six ∷ []) 4 6) peer).0
        ≡ (none, unexpected_sequence ∷ []))
unfolding code
index_runs = (refl, refl, refl)

serve-nil_example : serve numbers calls handler peer ≡ []
unfolding sequence_db
serve-nil_example =
    serve-nil
      (record { drop_fails = λ _. false; update_fails = λ _ _. false; read_fails = λ _. false })
      calls handler peer refl (omega arith)

send_index_to-Sends_example :
    Sends handler
      (file_four ∷ file_six ∷ [])
      (send_index_to line (file_four ∷ file_six ∷ []) none handler)
send_index_to-Sends_example =
    send_index_to-Sends line refl (λ _. refl) (file_four ∷ file_six ∷ []) handler
      (omega arith, (omega arith, tt))
