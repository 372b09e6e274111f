-- ===== src/Model/Puller.antt =====
-- lib/model/sharedpullerstate.go: the state that the copier, the puller and the finisher of one file
-- share. Every method holds the lock and is one function here. The calls on the file system are
-- parameters (`FileSystem`): each takes its arguments and returns an error or none. The file's
-- descriptor is open or not. Times are numbers that only are compared for equality. Counters are
-- `int`s that are decremented; they stand as natural numbers, and `Steps` below is the order in which
-- the goroutines call.
use syncthing_mem.Base.{
  ℕ, ◌+◌, ◌-◌, ◌*◌, ◌/◌, ◌%◌, Bool, true, false, not, ◌&&◌, ◌||◌, Option, none, some, List, [], ◌∷◌,
  ◌++◌, length, ltb, ◌==◌, if◌then◌else◌, Text, put,
}
use syncthing_mem.Protocol.FileInfo.{FileInfo, BlockInfo, block_size_of, is_symlink}
pub mod Close
pub mod Steps
pub mod Progress

-- The errors, with the wrapping that the code puts around them.
pub data PullError : Type 0 where
  setting_perms : Text → PullError
  opening : Text → PullError
  other : Text → PullError

-- What the file system answers: the checks of `inWritableDir`, `Chmod` of a mode, `OpenFile` with
-- whether it must create the file and the mode, `Truncate` to a size, the name of a file on the wire,
-- the size of the trailer and its writing, and `Close`.
pub record FileSystem : Type 0 where
  pub writable_dir : Option Text
  pub chmod : ℕ → Option Text
  pub open_file : Bool → ℕ → Option Text
  pub truncate : ℕ → Option Text
  pub wire_name : Text → Text
  pub trailer_size : FileInfo → ℕ
  pub write_trailer : FileInfo → Option Text
  pub close : Option Text

pub record PullerState : Type 0 where
  pub file : FileInfo
  pub folder : Text
  pub temp_name : Text
  pub real_name : Text
  pub reused : ℕ
  pub ignore_perms : Bool
  pub has_cur_file : Bool
  pub cur_file : FileInfo
  pub cur_file_blocks : List (Text × ℕ)
  pub sparse : Bool
  pub created : ℕ
  pub fsync : Bool
  pub err : Option PullError
  pub writer : Bool
  pub copy_total : ℕ
  pub pull_total : ℕ
  pub copy_origin : ℕ
  pub copy_needed : ℕ
  pub pull_needed : ℕ
  pub updated : ℕ
  pub closed : Bool
  pub available : List ℕ
  pub available_updated : ℕ

unfoldable pub blocks_map : ℕ → List BlockInfo → List (Text × ℕ) → List (Text × ℕ)
blocks_map idx [] found = found
blocks_map idx (b ∷ blocks) found = blocks_map (idx + 1) blocks (put b.hash idx found)

-- The arguments of `newSharedPullerState`, but the blocks to copy and those that are there.
pub record PullerConfig : Type 0 where
  pub file : FileInfo
  pub folder : Text
  pub temp_name : Text
  pub ignore_perms : Bool
  pub has_cur_file : Bool
  pub cur_file : FileInfo
  pub sparse : Bool
  pub fsync : Bool

unfoldable pub new_shared_puller_state : ℕ → PullerConfig → List BlockInfo → List ℕ → PullerState
new_shared_puller_state now c blocks reused = record {
  file = c.file;
  folder = c.folder;
  temp_name = c.temp_name;
  real_name = c.file.name;
  reused = length reused;
  ignore_perms = c.ignore_perms;
  has_cur_file = c.has_cur_file;
  cur_file = c.cur_file;
  cur_file_blocks = blocks_map 0 c.cur_file.blocks [];
  sparse = c.sparse;
  created = now;
  fsync = c.fsync;
  err = none;
  writer = false;
  copy_total = length blocks;
  pull_total = 0;
  copy_origin = 0;
  copy_needed = length blocks;
  pull_needed = 0;
  updated = now;
  closed = false;
  available = reused;
  available_updated = now;
}

-- `mode | 0o600`
abbrev pub readable_writable : ℕ → ℕ
readable_writable mode = mode / 512 * 512 + 384 + mode % 128

abbrev pub temp_mode : PullerState → ℕ
temp_mode s = if s.ignore_perms then 438 else readable_writable s.file.permissions

-- The truncation of `tempFileInWritableDir`: its error counts only for a file that is reused.
unfoldable pub truncate_temp : FileSystem → PullerState → Option PullError
truncate_temp fs s =
    let size =
      if ltb 0 (length s.file.encrypted)
      then s.file.size + fs.trailer_size s.file
      else s.file.size in
    if s.sparse && not (is_symlink s.file.file_type)
    then elim (fs.truncate size) [
      | none ↦ none
      | some e ↦ if ltb 0 s.reused then some (other e) else none
    ]
    else none

unfoldable pub open_temp : FileSystem → PullerState → Option PullError
open_temp fs s = elim (fs.open_file (s.reused == 0) (temp_mode s)) [
  | some e ↦ some (opening e)
  | none ↦ truncate_temp fs s
]

-- The error of `tempFileInWritableDir`, if any.
unfoldable pub temp_file_in_writable_dir : FileSystem → PullerState → Option PullError
temp_file_in_writable_dir fs s =
    if s.reused == 0 || s.ignore_perms
    then open_temp fs s
    else elim (fs.chmod (temp_mode s)) [ some e ↦ some (setting_perms e) | none ↦ open_temp fs s ]

-- The error of `addWriterLocked`; without one the writer is set.
unfoldable pub add_writer : FileSystem → PullerState → Option PullError
add_writer fs s = elim fs.writable_dir [
  | some e ↦ some (other e)
  | none ↦ temp_file_in_writable_dir fs s
]

-- A nil error is none, and an error that is there stays.
unfoldable pub fail_with : Option PullError → PullError → PullerState → PullerState
fail_with none e s = record s { err = some e }
fail_with (some before) e s = s

unfoldable pub fail : Option PullError → PullerState → PullerState
fail none s = s
fail (some e) s = fail_with s.err e s

-- The end of `tempFile`, by the result of `addWriterLocked`.
unfoldable pub temp_added : Option PullError → PullerState → Option PullError × PullerState
temp_added none s = (none, record s { writer = true })
temp_added (some e) s = (some e, fail (some e) s)

-- `tempFile` by the error of the state: an error, or none for the descriptor of the temporary file.
unfoldable pub temp_file_after :
    Option PullError → FileSystem → PullerState → Option PullError × PullerState
temp_file_after (some e) fs s = (some e, s)
temp_file_after none fs s = if s.writer then (none, s) else temp_added (add_writer fs s) s

unfoldable pub temp_file : FileSystem → PullerState → Option PullError × PullerState
temp_file fs s = temp_file_after s.err fs s

abbrev pub block_index : PullerState → BlockInfo → ℕ
block_index s b = b.offset / block_size_of s.file

unfoldable pub copy_done : ℕ → BlockInfo → PullerState → PullerState
copy_done now block s = record s {
  copy_needed = s.copy_needed - 1;
  updated = now;
  available = s.available ++ block_index s block ∷ [];
  available_updated = now;
}

-- `copiedFromOrigin` and `skippedSparseBlock`
unfoldable pub copied_from_origin : ℕ → PullerState → PullerState
copied_from_origin now s = record s { copy_origin = s.copy_origin + 1; updated = now }

unfoldable pub pull_started : ℕ → PullerState → PullerState
pull_started now s = record s {
  copy_total = s.copy_total - 1;
  copy_needed = s.copy_needed - 1;
  pull_total = s.pull_total + 1;
  pull_needed = s.pull_needed + 1;
  updated = now;
}

unfoldable pub pull_done : ℕ → BlockInfo → PullerState → PullerState
pull_done now block s = record s {
  pull_needed = s.pull_needed - 1;
  updated = now;
  available = s.available ++ block_index s block ∷ [];
  available_updated = now;
}

-- `finalizeEncrypted`, by the error of writing the trailer; it counts unless there is one.
unfoldable pub finalize_by : Option Text → FileSystem → PullerState → PullerState
finalize_by (some e) fs s = fail (some (other e)) s
finalize_by none fs s =
    let size = fs.trailer_size (record (s.file) { name = fs.wire_name s.file.name }) in
    record s {
      file = record (s.file) { size = s.file.size + size; encryption_trailer_size = size };
    }

unfoldable pub finalize_encrypted : FileSystem → PullerState → PullerState
finalize_encrypted fs s =
    if ltb 0 (length s.file.encrypted)
    then finalize_by (fs.write_trailer (record (s.file) { name = fs.wire_name s.file.name })) fs s
    else s

abbrev pub closing_error : Option Text → Option PullError
closing_error none = none
closing_error (some e) = some (other e)

-- `finalClose` of a state with an open writer that is ready to be closed.
unfoldable pub close_writer : FileSystem → PullerState → (Bool × Option PullError) × PullerState
close_writer fs s =
    let done = fail (closing_error fs.close) (finalize_encrypted fs s) in
    ((true, done.err), record done { writer = false; closed = true })

abbrev pub is_some : Option PullError → Bool
is_some none = false
is_some (some e) = true

-- `addWriterLocked` from `finalClose`, by its result.
unfoldable pub close_added :
    Option PullError → FileSystem → PullerState → (Bool × Option PullError) × PullerState
close_added (some e) fs s = ((false, some e), s)
close_added none fs s = close_writer fs (record s { writer = true })

unfoldable pub close_ready : FileSystem → PullerState → (Bool × Option PullError) × PullerState
close_ready fs s = if s.writer then close_writer fs s else close_added (add_writer fs s) fs s

unfoldable pub final_close : FileSystem → PullerState → (Bool × Option PullError) × PullerState
final_close fs s =
    if s.closed
    then ((false, none), s)
    else if not (s.pull_needed + s.copy_needed == 0) && not (is_some s.err)
    then ((false, none), s)
    else close_ready fs s
