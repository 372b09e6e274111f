-- ===== src/Model/Downloads.antt =====
-- lib/model/devicedownloadstate.go: which blocks of the files that it is downloading a remote device
-- has announced. The locks guard single calls. A map is a list of entries; sums over it do not
-- depend on its order. Block indexes are `int`s that are not negative.
use syncthing_mem.Base.{
  ℕ, ◌+◌, ◌*◌, ◌%◌, ◌^◌, Bool, true, false, not, ◌&&◌, Option, none, some, List, [], ◌∷◌, ◌++◌, map,
  length, ◌==◌, if◌then◌else◌, Text, look, put, delete,
}
use syncthing_mem.Protocol.Vector.{Vector, is_equal}
pub mod Has

-- deviceFolderFileDownloadState
pub record FileState : Type 0 where
  pub block_indexes : List ℕ
  pub version : Vector
  pub block_size : ℕ

-- protocol.FileDownloadProgressUpdateType, with one constructor for the numbers that have no name.
pub data UpdateType : Type 0 where
  append : UpdateType
  forget : UpdateType
  unknown : UpdateType

-- protocol.FileDownloadProgressUpdate
pub record ProgressUpdate : Type 0 where
  pub update_type : UpdateType
  pub name : Text
  pub version : Vector
  pub block_indexes : List ℕ
  pub block_size : ℕ

-- deviceFolderDownloadState
abbrev pub FolderState : Type 0
FolderState = List (Text × FileState)

-- `slices.Contains`
unfoldable pub contains : List ℕ → ℕ → Bool
contains [] index = false
contains (i ∷ indexes) index =
    let rest = contains indexes index in if i == index then true else rest

unfoldable pub has_block : Vector → ℕ → Option FileState → Bool
has_block version index none = false
has_block version index (some local) =
    if is_equal local.version version then contains local.block_indexes index else false

unfoldable pub has : Text → Vector → ℕ → FolderState → Bool
has file version index p = has_block version index (look file p)

-- The state of the file after an update that appends.
unfoldable pub appended : ProgressUpdate → Option FileState → FileState
appended update none = record {
  block_indexes = update.block_indexes;
  version = update.version;
  block_size = update.block_size;
}
appended update (some local) =
    if not (is_equal local.version update.version)
    then record {
      block_indexes = update.block_indexes;
      version = update.version;
      block_size = update.block_size;
    }
    else record local { block_indexes = local.block_indexes ++ update.block_indexes }

unfoldable pub forgotten : ProgressUpdate → Option FileState → FolderState → FolderState
forgotten update none p = p
forgotten update (some local) p =
    if is_equal local.version update.version then delete update.name p else p

-- The body of the loop of `Update`, by the type of the update.
unfoldable pub update_by : UpdateType → ProgressUpdate → FolderState → FolderState
update_by append update p = put update.name (appended update (look update.name p)) p
update_by forget update p = forgotten update (look update.name p) p
update_by unknown update p = p

unfoldable pub update_one : ProgressUpdate → FolderState → FolderState
update_one update p = update_by update.update_type update p

unfoldable pub update_folder : List ProgressUpdate → FolderState → FolderState
update_folder [] p = p
update_folder (u ∷ updates) p = update_folder updates (update_one u p)

abbrev pub min_block_size : ℕ
min_block_size = 131072

-- Bytes that one file counts for, in int64.
unfoldable pub file_bytes : FileState → ℕ
file_bytes state =
    if state.block_size == 0
    then length state.block_indexes * min_block_size % 2 ^ 64
    else length state.block_indexes * state.block_size % 2 ^ 64

unfoldable pub bytes_downloaded : FolderState → ℕ
bytes_downloaded [] = 0
bytes_downloaded ((name, state) ∷ p) = (bytes_downloaded p + file_bytes state) % 2 ^ 64

unfoldable pub get_block_counts : FolderState → List (Text × ℕ)
get_block_counts p = map (λ (e : Text × FileState). (e.0, length e.1.block_indexes)) p

-- deviceDownloadState, for a pointer that is not nil.
abbrev pub DeviceState : Type 0
DeviceState = List (Text × FolderState)

abbrev pub folder_of : Text → DeviceState → FolderState
folder_of folder t = elim (look folder t) [ none ↦ [] | some f ↦ f ]

unfoldable pub update_device : Text → List ProgressUpdate → DeviceState → DeviceState
update_device folder updates t = put folder (update_folder updates (folder_of folder t)) t

unfoldable pub device_has : Text → Text → Vector → ℕ → DeviceState → Bool
device_has folder file version index t = elim (look folder t) [
  | none ↦ false
  | some f ↦ has file version index f
]

-- A nil map stands as an empty one.
unfoldable pub device_block_counts : Text → DeviceState → List (Text × ℕ)
device_block_counts folder t = get_block_counts (folder_of folder t)

unfoldable pub device_bytes_downloaded : Text → DeviceState → ℕ
device_bytes_downloaded folder t = bytes_downloaded (folder_of folder t)

abbrev pub new_device_state : DeviceState
new_device_state = []
