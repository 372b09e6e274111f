-- ===== src/Model/IndexHandler/Receive.antt =====
-- lib/model/indexhandler.go: `receive`. The anomalies that it logs are returned with its error.
use syncthing_mem.Base.{
  ℕ, Bool, true, false, not, ◌&&◌, ◌||◌, Option, none, some, List, [], ◌∷◌, ◌++◌, ltb, leb, ◌==◌,
  length, if◌then◌else◌, Text,
}
use syncthing_mem.Protocol.FileInfo.{FileInfo, is_symlink, is_directory}
use syncthing_mem.Model.Downloads.{ProgressUpdate, forget, DeviceState, update_device}
use syncthing_mem.Model.IndexHandler.{last_sequence, Message, index, index_update}

-- The calls on the database for one remote device. None is an error.
pub record IndexDb (S : Type 0) : Type 0 where
  pub drop_all_files : S → Option S
  pub update : List FileInfo → S → Option S
  pub device_sequence : S → Option ℕ

pub data Anomaly : Type 0 where
  unexpected_sequence before_prev after_last non_increasing unexpected_last unexpected_after :
      Anomaly

pub data ReceiveError : Type 0 where
  folder_paused database : ReceiveError

pub record Receiver (S : Type 0) : Type 0 where
  pub paused : Bool
  pub downloads : DeviceState
  pub db : S

unfoldable pub make_forget_update : List FileInfo → List ProgressUpdate
make_forget_update [] = []
make_forget_update (f ∷ files) =
    let rest = make_forget_update files in
    if is_symlink f.file_type || is_directory f.file_type || f.deleted
    then rest
    else record {
      update_type = forget;
      name = f.name;
      version = f.version;
      block_indexes = [];
      block_size = 0;
    }
      ∷ rest

abbrev pub anomaly : Bool → Anomaly → List Anomaly
anomaly true a = a ∷ []
anomaly false a = []

abbrev pub not_after : Option ℕ → ℕ → Bool
not_after none sequence = false
not_after (some before) sequence = leb sequence before

-- The loop over the files, with the sequence number of the one before.
unfoldable pub check_files : ℕ → ℕ → Option ℕ → List FileInfo → List Anomaly
check_files prev last before [] = []
check_files prev last before (f ∷ fs) =
    anomaly (ltb f.sequence prev) before_prev
    ++ anomaly (ltb 0 last && ltb last f.sequence) after_last
    ++ anomaly (not_after before f.sequence) non_increasing
    ++ check_files prev last (some f.sequence) fs

-- The checks before the files are stored, by the sequence number that the database has.
unfoldable pub check_index : ℕ → ℕ → ℕ → List FileInfo → List Anomaly
check_index exp prev last fs =
    anomaly (ltb 0 prev && not (prev == exp)) unexpected_sequence
    ++ check_files prev last none fs
    ++ anomaly (ltb 0 last && ltb 0 (length fs) && not (last == last_sequence 0 fs)) unexpected_last

module _ {S : Type 0} (db : IndexDb S) where
  abbrev pub Received : Type 0
  Received = (Option ReceiveError × List Anomaly) × Receiver S

  unfoldable pub check_after : List FileInfo → ℕ → List Anomaly → Receiver S → Option ℕ → Received
  check_after fs last found r none = ((some database, found), r)
  check_after fs last found r (some seq) = (
    (
      none,
      found ++ anomaly (ltb 0 last && ltb 0 (length fs) && not (seq == last)) unexpected_after,
    ),
    r,
  )

  unfoldable pub stored : List FileInfo → ℕ → List Anomaly → Receiver S → Option S → Received
  stored fs last found r none = ((some database, found), r)
  stored fs last found r (some d) =
      check_after fs last found (record r { db = d }) (db.device_sequence d)

  unfoldable pub checked : List FileInfo → ℕ → ℕ → Receiver S → Option ℕ → Received
  checked fs prev last r none = ((some database, []), r)
  checked fs prev last r (some exp) =
      stored fs last (check_index exp prev last fs) r (db.update fs r.db)

  unfoldable pub dropped : List FileInfo → ℕ → ℕ → Receiver S → Option S → Received
  dropped fs prev last r none = ((some database, []), r)
  dropped fs prev last r (some d) =
      checked fs prev last (record r { db = d }) (db.device_sequence d)

  unfoldable pub receive : Text → List FileInfo → Bool → ℕ → ℕ → Receiver S → Received
  receive folder fs update prev last r =
      if r.paused
      then ((some folder_paused, []), r)
      else (let r' = record r {
        downloads = update_device folder (make_forget_update fs) r.downloads;
      } in
          dropped fs prev last r' (if update then some r.db else db.drop_all_files r.db))

  -- An Index, which has no previous sequence number, or an IndexUpdate.
  unfoldable pub receive_message : Message → Receiver S → Received
  receive_message (index folder fs last) r = receive folder fs false 0 last r
  receive_message (index_update folder fs prev last) r = receive folder fs true prev last r
