-- ===== src/Model/IndexHandler.antt =====
-- lib/model/indexhandler.go: the files that a device announces to another, and how that one checks
-- them. The database is a parameter on both ends: on the sending one the files that it lists and the
-- error at which it stops, if any, on the receiving one its state with the three calls on it
-- (`IndexDb`, none for an error). Sequence numbers are not negative. The size of a file includes its
-- trailer.
use syncthing_mem.Base.{
  ℕ, ◌+◌, ◌-◌, Bool, true, false, not, ◌&&◌, ◌||◌, Option, none, some, List, [], ◌∷◌, ◌++◌, ltb,
  leb, ◌==◌, length, if◌then◌else◌, Text,
}
use syncthing_mem.Protocol.FileInfo.{FileInfo, is_symlink, is_directory}
use syncthing_mem.Model.Downloads.{ProgressUpdate, forget, DeviceState, update_device}
use syncthing_mem.Model.Batch.{FileInfoBatch, new_file_info_batch, append_file, full, flush}
pub mod Receive
pub mod Send
pub mod Quiet
pub mod Sequences
pub mod Exchange
pub mod Complete

pub record IndexHandler : Type 0 where
  pub folder : Text
  pub folder_is_receive_encrypted : Bool
  pub local_prev_sequence : ℕ
  pub sent_prev_sequence : ℕ

-- `newIndexHandler`: where to begin, by what the peer knows of this device.
unfoldable pub start_sequence : ℕ → ℕ → ℕ → ℕ → ℕ
start_sequence my_index_id my_sequence index_id max_sequence =
    if index_id == my_index_id then if ltb my_sequence max_sequence then 0 else max_sequence else 0

-- protocol.Index and protocol.IndexUpdate
pub data Message : Type 0 where
  index : (folder : Text) (files : List FileInfo) (last_sequence : ℕ) → Message
  index_update : (folder : Text) (files : List FileInfo) (prev_sequence last_sequence : ℕ) → Message

-- What surrounds the sender: the error of its context, the size of a file on the wire, and the
-- connection's answer to a message.
pub record Surroundings : Type 0 where
  pub cancelled : Option Text
  pub wire_size : FileInfo → ℕ
  pub send : Message → Option Text

unfoldable pub is_receive_only_changed : FileInfo → Bool
is_receive_only_changed f = f.local_flags.receive_only

unfoldable pub prepare_file_info_for_index : FileInfo → FileInfo
prepare_file_info_for_index f = record f {
  version = if is_receive_only_changed f then [] else f.version;
  size = f.size - f.encryption_trailer_size;
}

-- The variables of the loop of `sendIndexTo`; `last` is the sequence number of `f`.
pub record Scan : Type 0 where
  pub handler : IndexHandler
  pub batch : FileInfoBatch
  pub last : ℕ
  pub previous_was_delete : Bool

-- How a round of the loop ends.
pub data Verdict : Type 0 where
  leave : Verdict
  misbehaved : Verdict
  panicked : Verdict
  next : Scan → Verdict

abbrev pub seen_file : FileInfo → Scan → Scan
seen_file fi s = record s {
  handler = record (s.handler) { local_prev_sequence = fi.sequence };
  last = fi.sequence;
}

unfoldable pub taken : FileInfo → Scan → Option FileInfoBatch → Verdict
taken fi s none = panicked
taken fi s (some batch) =
    next (record (seen_file fi s) { batch = batch; previous_was_delete = fi.deleted })

unfoldable pub scan_one : (FileInfo → ℕ) → FileInfo → Scan → Verdict
scan_one wire_size fi s =
    if full s.batch && (not fi.deleted || s.previous_was_delete)
    then leave
    else if ltb fi.sequence (s.handler.local_prev_sequence + 1)
    then misbehaved
    else if ltb 0 s.last && leb fi.sequence s.last
    then misbehaved
    else if s.handler.folder_is_receive_encrypted && is_receive_only_changed fi
    then next (seen_file fi s)
    else (let f = prepare_file_info_for_index fi in
        taken fi s (append_file (wire_size f) f s.batch))

pub data ScanEnd : Type 0 where
  finished : ScanEnd
  failed : Text → ScanEnd
  panic : ScanEnd

-- "database misbehaved"
abbrev pub database_misbehaved : Text
database_misbehaved = 109 ∷ []

abbrev pub end_of : Option Text → ScanEnd
end_of none = finished
end_of (some e) = failed e

-- The loop over the files that the database lists, and its error after them.
unfoldable pub scan : (FileInfo → ℕ) → List FileInfo → Option Text → Scan → ScanEnd × Scan
scan wire_size [] e s = (end_of e, s)
scan wire_size (fi ∷ fs) e s = elim (scan_one wire_size fi s) [
  | leave ↦ (finished, s)
  | misbehaved ↦ (failed database_misbehaved, s)
  | panicked ↦ (panic, s)
  | next s' ↦ scan wire_size fs e s'
]

abbrev pub last_sequence : ℕ → List FileInfo → ℕ
last_sequence before [] = before
last_sequence before (f ∷ fs) = last_sequence f.sequence fs

abbrev pub message : Bool → IndexHandler → List FileInfo → Message
message true h fs = index h.folder fs (last_sequence 0 fs)
message false h fs = index_update h.folder fs h.sent_prev_sequence (last_sequence 0 fs)

-- The handler, and the message that it has sent, if any.
abbrev pub Sent : Type 0
Sent = Option Message × IndexHandler

abbrev pub answered : Option Text → Message → ℕ → IndexHandler → Option Text × Sent
answered (some e) m sequence h = (some e, (none, h))
answered none m sequence h = (none, (some m, record h { sent_prev_sequence = sequence }))

-- The function that flushes, for a batch that is not empty; `sendIndexTo` calls it once.
unfoldable pub flush_fn : Bool → Surroundings → List FileInfo → Sent → Option Text × Sent
flush_fn initial env fs (_, h) = elim env.cancelled [
  | some e ↦ (some e, (none, h))
  | none ↦ answered (env.send (message initial h fs)) (message initial h fs) (last_sequence 0 fs) h
]

pub data SendEnd : Type 0 where
  done : SendEnd
  error : Text → SendEnd
  panic : SendEnd

abbrev pub flush_end : Option Text × FileInfoBatch × Sent → SendEnd × Sent
flush_end (none, b, sent) = (done, sent)
flush_end (some e, b, sent) = (error e, sent)

abbrev pub send_scanned : Bool → Surroundings → ScanEnd × Scan → SendEnd × Sent
send_scanned initial env (finished, s) =
    flush_end (flush (flush_fn initial env) s.batch (none, s.handler))
send_scanned initial env (failed e, s) = (error e, (none, s.handler))
send_scanned initial env (ScanEnd.panic, s) = (SendEnd.panic, (none, s.handler))

abbrev pub begin : IndexHandler → Scan
begin h = record { handler = h; batch = new_file_info_batch; last = 0; previous_was_delete = false }

unfoldable pub send_index_to :
    Surroundings → List FileInfo → Option Text → IndexHandler → SendEnd × Sent
send_index_to env files e h =
    send_scanned (h.local_prev_sequence == 0) env (scan env.wire_size files e (begin h))
