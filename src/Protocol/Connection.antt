-- ===== src/Protocol/Connection.antt =====
-- lib/protocol/protocol.go: what a connection checks of the messages that it receives before the model
-- sees them. `path.Clean` is a parameter, and so are the model's answers.
use syncthing_mem.Base.{
  ℕ, ℤ, pos, negsuc, ◌*◌, Bool, true, false, not, ◌&&◌, ◌||◌, Option, none, some, List, [], ◌∷◌,
  ltb, ◌==◌, length, if◌then◌else◌, Text, text_eq,
}
use syncthing_mem.Protocol.FileInfo.{
  FileInfo, BlockInfo, FileInfoType, file, is_directory, type_eq, is_invalid,
}
pub mod Names
pub mod Dispatch
pub mod Requests

abbrev pub dot : Text
dot = 46 ∷ []

abbrev pub dot_dot : Text
dot_dot = 46 ∷ 46 ∷ []

-- `strings.HasPrefix` for "/" and for "../".
abbrev pub starts_with : ℕ → Text → Bool
starts_with c [] = false
starts_with c (d ∷ rest) = d == c

abbrev pub is_rooted : Text → Bool
is_rooted name = starts_with 47 name

abbrev pub leaves_folder : Text → Bool
leaves_folder (a ∷ b ∷ rest) = a == 46 && b == 46 && starts_with 47 rest
leaves_folder _ = false

pub data CheckError : Type 0 where
  unclean_filename invalid_filename : CheckError
  deleted_has_blocks directory_has_blocks file_has_no_blocks : CheckError

unfoldable pub check_blocks : FileInfo → Option CheckError
check_blocks f =
    if f.deleted && not (length f.blocks == 0)
    then some deleted_has_blocks
    else if is_directory f.file_type && not (length f.blocks == 0)
    then some directory_has_blocks
    else if not f.deleted && not (is_invalid f) && type_eq f.file_type file && length f.blocks == 0
    then some file_has_no_blocks
    else none

module _ (clean : Text → Text) where
  unfoldable pub check_filename : Text → Option CheckError
  check_filename name =
      if not (text_eq (clean name) name)
      then some unclean_filename
      else if text_eq name [] || text_eq name dot || text_eq name dot_dot
      then some invalid_filename
      else if is_rooted name
      then some invalid_filename
      else if leaves_folder name
      then some invalid_filename
      else none

  unfoldable pub check_file_info_consistency : FileInfo → Option CheckError
  check_file_info_consistency f = elim (check_filename f.name) [
    | some e ↦ some e
    | none ↦ check_blocks f
  ]

  unfoldable pub check_index_consistency : List FileInfo → Option CheckError
  check_index_consistency [] = none
  check_index_consistency (f ∷ fs) = elim (check_file_info_consistency f) [
    | some e ↦ some e
    | none ↦ check_index_consistency fs
  ]

-- The messages as the dispatcher reads them; of the updates of a download progress only
-- the names, which it does not look at, and the bodies without names are left out.
pub data Received : Type 0 where
  cluster_config : Received
  index : List FileInfo → Received
  index_update : List FileInfo → Received
  request : (name : Text) (size : ℤ) → Received
  response : (id : ℕ) → Received
  download_progress : (names : List Text) → Received
  ping : Received
  close : Text → Received

abbrev pub max_request_size : ℕ
max_request_size = 2 * (16 * 1024 * 1024)

-- Why the dispatcher ends.
pub data Failure : Type 0 where
  closed_by_remote : Text → Failure
  invalid_state : Failure
  inconsistent : CheckError → Failure
  request_too_small request_too_large : Failure
  handle_error : Text → Failure

-- The outcome of the checks of one message.
pub data Verdict : Type 0 where
  handle : Verdict
  refuse : Failure → Verdict

abbrev pub refuse_inconsistent : Option CheckError → Verdict
refuse_inconsistent none = handle
refuse_inconsistent (some e) = refuse (inconsistent e)

abbrev pub check_size : ℤ → Verdict
check_size (negsuc n) = refuse request_too_small
check_size (pos n) = if ltb max_request_size n then refuse request_too_large else handle

abbrev pub check_request : Option CheckError → ℤ → Verdict
check_request none size = check_size size
check_request (some e) size = refuse (inconsistent e)

-- The first `switch`, in a state that is ready or not: whether the connection is ready after it.
unfoldable pub next_ready : Bool → Received → Bool
next_ready ready cluster_config = true
next_ready ready _ = ready

module _ (clean : Text → Text) where
  unfoldable pub check_body : Received → Verdict
  check_body (index files) = refuse_inconsistent (check_index_consistency clean files)
  check_body (index_update files) = refuse_inconsistent (check_index_consistency clean files)
  check_body (request name size) = check_request (check_filename clean name) size
  check_body (close reason) = refuse (closed_by_remote reason)
  check_body _ = handle

  unfoldable pub check_message : Bool → Received → Verdict
  check_message ready (close reason) = refuse (closed_by_remote reason)
  check_message ready m = if next_ready ready m then check_body m else refuse invalid_state

  module _ (model : Received → Option Text) where
    -- The error of the second `switch`: requests are answered by goroutines of their own.
    unfoldable pub handle_message : Received → Option Text
    handle_message (request name size) = none
    handle_message (response id) = none
    handle_message ping = none
    handle_message m = model m

    -- The loop over the inbox until it ends: the messages that were passed on to the model and to the
    -- goroutines that answer requests, and the reason of the end, if there is one.
    unfoldable pub dispatcher_loop : Bool → List Received → List Received × Option Failure
    dispatcher_loop ready [] = ([], none)
    dispatcher_loop ready (m ∷ inbox) = elim (check_message ready m) [
      | refuse f ↦ ([], some f)
      | handle ↦ elim (handle_message m) [
        | some e ↦ (m ∷ [], some (handle_error e))
        | none ↦
            let (handled, end) = dispatcher_loop (next_ready ready m) inbox in (m ∷ handled, end)
      ]
    ]
