-- ===== src/Model/SentDownloads.antt =====
-- lib/model/sentdownloadstate.go: what a device has announced of the files that it is downloading, and
-- the updates that bring a remote device up to date. A map is a list of entries; the updates of the
-- last loop are for different files, and their order does not matter. A slice beyond the end of a
-- slice panics: none.
use syncthing_mem.Base.{
  ℕ, Bool, true, false, not, ◌&&◌, ◌||◌, Option, none, some, List, [], ◌∷◌, ◌++◌, map, length, drop,
  ltb, ◌==◌, if◌then◌else◌, Text, text_eq, look, put, delete, ◌>>=◌,
}
use syncthing_mem.Protocol.Vector.{Vector, is_equal}
use syncthing_mem.Protocol.FileInfo.{FileInfo, block_size_of}
use syncthing_mem.Model.Downloads.{ProgressUpdate, append, forget}
use syncthing_mem.Model.Puller.{PullerState}
pub mod Step
pub mod Sync

-- What the loop reads of a puller. The blocks and the time of their last change are read under two
-- locks, one after the other.
pub record PullerReading : Type 0 where
  pub file : FileInfo
  pub available : List ℕ
  pub available_updated : ℕ
  pub created : ℕ

-- The puller at the call of `Available` and at that of `AvailableUpdated`, a later one, between which
-- blocks may have become available.
unfoldable pub read_puller : PullerState → PullerState → PullerReading
read_puller p later = record {
  file = p.file;
  available = p.available;
  available_updated = later.available_updated;
  created = p.created;
}

-- sentFolderFileDownloadState
pub record SentFile : Type 0 where
  pub block_indexes : List ℕ
  pub version : Vector
  pub updated : ℕ
  pub created : ℕ
  pub block_size : ℕ

-- sentFolderDownloadState
abbrev pub SentFolder : Type 0
SentFolder = List (Text × SentFile)

abbrev pub sent_of : PullerReading → SentFile
sent_of p = record {
  block_indexes = p.available;
  version = p.file.version;
  updated = p.available_updated;
  created = p.created;
  block_size = block_size_of p.file;
}

abbrev pub append_update : Text → Vector → List ℕ → ℕ → ProgressUpdate
append_update name version block_indexes block_size = record {
  update_type = append;
  name = name;
  version = version;
  block_indexes = block_indexes;
  block_size = block_size;
}

abbrev pub forget_update : Text → Vector → ProgressUpdate
forget_update name version = record {
  update_type = forget;
  name = name;
  version = version;
  block_indexes = [];
  block_size = 0;
}

-- The updates of one round of the loop, and the folder's files after it.
abbrev pub Round : Type 0
Round = List ProgressUpdate × SentFolder

unfoldable pub new_file : PullerReading → SentFolder → Round
new_file p files =
    if ltb 0 (length p.available)
    then (
      append_update p.file.name p.file.version p.available (block_size_of p.file) ∷ [],
      put p.file.name (sent_of p) files,
    )
    else ([], files)

unfoldable pub replaced_file : PullerReading → SentFile → SentFolder → Round
replaced_file p local files = (
  forget_update p.file.name local.version
      ∷ append_update p.file.name p.file.version p.available (block_size_of p.file)
      ∷ [],
  put p.file.name (sent_of p) files,
)

unfoldable pub grown_file : PullerReading → SentFile → List ℕ → SentFolder → Round
grown_file p local new_blocks files = (
  if ltb 0 (length new_blocks)
      then append_update p.file.name local.version new_blocks (block_size_of p.file) ∷ []
      else [],
  put p.file.name
      (record local {
        block_indexes = local.block_indexes ++ new_blocks;
        updated = p.available_updated;
      })
      files,
)

-- The round for a file of which something was announced.
unfoldable pub known_file : PullerReading → SentFile → SentFolder → Option Round
known_file p local files =
    if p.available_updated == local.updated && is_equal p.file.version local.version
    then some ([], files)
    else if not (is_equal p.file.version local.version) || not (p.created == local.created)
    then some (replaced_file p local files)
    else if ltb (length p.available) (length local.block_indexes)
    then none
    else some (grown_file p local (drop (length local.block_indexes) p.available) files)

unfoldable pub update_puller : PullerReading → Option SentFile → SentFolder → Option Round
update_puller p none files = some (new_file p files)
update_puller p (some local) files = known_file p local files

-- The first loop.
unfoldable pub update_pullers : List PullerReading → SentFolder → Option Round
update_pullers [] files = some ([], files)
update_pullers (p ∷ pullers) files = do
  (updates, files') ← update_puller p (look p.file.name files) files
  (later, files'') ← update_pullers pullers files'
  some (updates ++ later, files'')

unfoldable pub seen : List PullerReading → Text → Bool
seen [] name = false
seen (p ∷ pullers) name = text_eq p.file.name name || seen pullers name

-- The second loop: the files without a puller are forgotten and no longer tracked.
unfoldable pub forget_unseen : List PullerReading → SentFolder → Round
forget_unseen pullers [] = ([], [])
forget_unseen pullers ((name, info) ∷ files) =
    let (updates, kept) = forget_unseen pullers files in
    if seen pullers name
    then (updates, (name, info) ∷ kept)
    else (forget_update name info.version ∷ updates, kept)

unfoldable pub sent_folder_update : List PullerReading → SentFolder → Option Round
sent_folder_update pullers files = do
  (updates, files') ← update_pullers pullers files
  let (forgotten, kept) = forget_unseen pullers files'
  some (updates ++ forgotten, kept)

-- `destroy`: the updates, and nothing is tracked any more.
unfoldable pub destroy : SentFolder → Round
destroy files = (map (λ (e : Text × SentFile). forget_update e.0 e.1.version) files, [])

-- sentDownloadState
abbrev pub SentState : Type 0
SentState = List (Text × SentFolder)

abbrev pub sent_folder_of : Text → SentState → SentFolder
sent_folder_of folder s = elim (look folder s) [ none ↦ [] | some files ↦ files ]

unfoldable pub sent_update :
    Text → List PullerReading → SentState → Option (List ProgressUpdate × SentState)
sent_update folder pullers s = do
  (updates, files) ← sent_folder_update pullers (sent_folder_of folder s)
  some (updates, put folder files s)

unfoldable pub folders : SentState → List Text
folders s = map (λ (e : Text × SentFolder). e.0) s

unfoldable pub cleanup : Text → SentState → List ProgressUpdate × SentState
cleanup folder s = elim (look folder s) [
  | none ↦ ([], s)
  | some files ↦ ((destroy files).0, delete folder s)
]
