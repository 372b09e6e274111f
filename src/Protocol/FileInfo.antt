-- ===== src/Protocol/FileInfo.antt =====
-- lib/protocol/bep_fileinfo.go: what a device announces of a file, when two announcements stand for
-- the same content, and which of two in conflict wins. The time of modification is one number of
-- nanoseconds; an instant stands as a natural number, far enough above its distance from 1970. Sizes
-- are not negative. The build is not for Windows.
use syncthing_mem.Base.{
  ℕ, zero, suc, ◌+◌, ◌-◌, ◌*◌, ◌%◌, ◌^◌, min, Bool, true, false, not, ◌&&◌, ◌||◌, Option, none,
  some, List, [], ◌∷◌, length, ltb, leb, ◌==◌, if◌then◌else◌, Text, text_eq, ℤ, pos, negsuc,
}
use syncthing_mem.Protocol.Vector.{
  Vector, compare, greater_equal, concurrent_greater, Ordering, update_with_now,
}
use syncthing_mem.Protocol.Flags.{FlagLocal, no_flags, flags_invalid, flags_conflict, clear_flags}
pub mod Conflict
pub mod Equivalence
pub mod BlockSize

pub data FileInfoType : Type 0 where
  file directory symlink_file symlink_directory symlink : FileInfoType

pub record BlockInfo : Type 0 where
  pub hash : Text
  pub offset : ℕ
  pub size : ℕ

pub record UnixData : Type 0 where
  pub owner_name : Text
  pub group_name : Text
  pub uid : ℕ
  pub gid : ℕ

pub record WindowsData : Type 0 where
  pub owner_name : Text
  pub owner_is_group : Bool

pub record Xattr : Type 0 where
  pub name : Text
  pub value : Text

-- A nil pointer is none. `XattrData` is the list that it holds.
pub record PlatformData : Type 0 where
  pub unix : Option UnixData
  pub windows : Option WindowsData
  pub linux : Option (List Xattr)
  pub darwin : Option (List Xattr)
  pub free_bsd : Option (List Xattr)
  pub net_bsd : Option (List Xattr)

pub record FileInfo : Type 0 where
  pub name : Text
  pub size : ℕ
  pub mod_time : ℕ
  pub modified_by : ℕ
  pub version : Vector
  pub sequence : ℕ
  pub blocks : List BlockInfo
  pub symlink_target : Text
  pub blocks_hash : Text
  pub previous_blocks_hash : Text
  pub encrypted : Text
  pub platform : PlatformData
  pub file_type : FileInfoType
  pub permissions : ℕ
  pub raw_block_size : ℕ
  pub local_flags : FlagLocal
  pub encryption_trailer_size : ℕ
  pub deleted : Bool
  pub no_permissions : Bool
  pub truncated : Bool

unfoldable pub is_invalid : FileInfo → Bool
is_invalid f = flags_invalid f.local_flags

unfoldable pub must_rescan : FileInfo → Bool
must_rescan f = f.local_flags.must_rescan

unfoldable pub should_conflict : FileInfo → Bool
should_conflict f = flags_conflict f.local_flags

unfoldable pub is_directory : FileInfoType → Bool
is_directory directory = true
is_directory _ = false

unfoldable pub is_symlink : FileInfoType → Bool
is_symlink symlink = true
is_symlink symlink_directory = true
is_symlink symlink_file = true
is_symlink _ = false

unfoldable pub type_eq : FileInfoType → FileInfoType → Bool
type_eq file file = true
type_eq directory directory = true
type_eq symlink_file symlink_file = true
type_eq symlink_directory symlink_directory = true
type_eq symlink symlink = true
type_eq _ _ = false

abbrev pub synthetic_directory_size : ℕ
synthetic_directory_size = 128

unfoldable pub file_size : FileInfo → ℕ
file_size f =
    if f.deleted
    then 0
    else if is_directory f.file_type || is_symlink f.file_type
    then synthetic_directory_size
    else f.size

unfoldable pub in_conflict_with : FileInfo → FileInfo → Bool
in_conflict_with f previous =
    if greater_equal f.version previous.version
    then false
    else if length f.previous_blocks_hash == 0 || length f.blocks_hash == 0
    then true
    else not (text_eq f.previous_blocks_hash previous.blocks_hash)

abbrev pub is_concurrent_greater : Ordering → Bool
is_concurrent_greater concurrent_greater = true
is_concurrent_greater _ = false

abbrev pub bool_eq : Bool → Bool → Bool
bool_eq true b = b
bool_eq false b = not b

unfoldable pub wins_conflict : FileInfo → FileInfo → Bool
wins_conflict f other =
    if not (bool_eq (is_invalid f) (is_invalid other))
    then not (is_invalid f)
    else if ltb other.mod_time f.mod_time
    then true
    else if ltb f.mod_time other.mod_time
    then false
    else is_concurrent_greater (compare f.version other.version)

unfoldable pub set_no_content : FileInfo → FileInfo
set_no_content f = record f { blocks = []; blocks_hash = []; size = 0 }

unfoldable pub set_local_flags : FlagLocal → FileInfo → FileInfo
set_local_flags flags f = set_no_content (record f { local_flags = flags })

unfoldable pub set_must_rescan : FileInfo → FileInfo
set_must_rescan f = set_local_flags (record no_flags { must_rescan = true }) f

unfoldable pub set_ignored : FileInfo → FileInfo
set_ignored f = set_local_flags (record no_flags { ignored = true }) f

unfoldable pub set_unsupported : FileInfo → FileInfo
set_unsupported f = set_local_flags (record no_flags { unsupported = true }) f

-- `SetDeleted`, with the clock's seconds for the version and for the file, whose nanoseconds stay.
unfoldable pub set_deleted : ℕ → ℕ → ℕ → FileInfo → FileInfo
set_deleted by now seconds f = set_no_content (record f {
  modified_by = by;
  deleted = true;
  version = update_with_now f.version by now;
  mod_time = seconds * 10 ^ 9 + f.mod_time % 10 ^ 9;
})

unfoldable pub blocks_equal_loop : List BlockInfo → List BlockInfo → Bool
blocks_equal_loop [] _ = true
blocks_equal_loop (a ∷ as') [] = false
blocks_equal_loop (a ∷ as') (b ∷ bs) = text_eq a.hash b.hash && blocks_equal_loop as' bs

unfoldable pub blocks_equal : List BlockInfo → List BlockInfo → Bool
blocks_equal a b = if length b == length a then blocks_equal_loop a b else false

-- `FileInfo.BlocksEqual`
unfoldable pub file_blocks_equal : FileInfo → FileInfo → Bool
file_blocks_equal f other =
    if ltb 0 (length f.blocks_hash)
      && ltb 0 (length other.blocks_hash)
      && text_eq f.blocks_hash other.blocks_hash
    then true
    else blocks_equal f.blocks other.blocks

-- The bits 0o777. The build is not for Windows.
unfoldable pub perms_equal : ℕ → ℕ → Bool
perms_equal a b = a % 512 == b % 512

abbrev pub max_duration : ℕ
max_duration = 2 ^ 63 - 1

-- `a.Sub(b)` of the library of Go, an int64, which saturates at its ends.
unfoldable pub sub_time : ℕ → ℕ → ℤ
sub_time a b =
    if leb b a then pos (min (a - b) max_duration) else negsuc (min (b - a) (max_duration + 1) - 1)

-- The product with -1, in int64: the least integer is its own.
unfoldable pub negate : ℤ → ℤ
negate (pos zero) = pos zero
negate (pos (suc n)) = negsuc n
negate (negsuc n) = if n == max_duration then negsuc n else pos (n + 1)

unfoldable pub is_negative : ℤ → Bool
is_negative (pos n) = false
is_negative (negsuc n) = true

unfoldable pub less_than_window : ℤ → ℕ → Bool
less_than_window (pos n) window = ltb n window
less_than_window (negsuc n) window = true

unfoldable pub mod_time_equal : ℕ → ℕ → ℕ → Bool
mod_time_equal a b window =
    if a == b
    then true
    else let diff = sub_time a b in
      less_than_window (if is_negative diff then negate diff else diff) window

unfoldable pub xattrs_equal_loop : List Xattr → List Xattr → Bool
xattrs_equal_loop [] _ = true
xattrs_equal_loop (a ∷ as') [] = false
xattrs_equal_loop (a ∷ as') (b ∷ bs) =
    text_eq a.name b.name && text_eq a.value b.value && xattrs_equal_loop as' bs

abbrev pub xattrs_of : Option (List Xattr) → List Xattr
xattrs_of none = []
xattrs_of (some xs) = xs

-- nil and an empty list are alike.
unfoldable pub xattrs_equal : Option (List Xattr) → Option (List Xattr) → Bool
xattrs_equal a b =
    if length (xattrs_of a) == length (xattrs_of b)
    then xattrs_equal_loop (xattrs_of a) (xattrs_of b)
    else false

unfoldable pub unix_ownership_equal : Option UnixData → Option UnixData → Bool
unix_ownership_equal none none = true
unix_ownership_equal none (some b) = false
unix_ownership_equal (some a) none = false
unix_ownership_equal (some a) (some b) =
    (a.uid == b.uid && a.gid == b.gid)
    || (text_eq a.owner_name b.owner_name && text_eq a.group_name b.group_name)

unfoldable pub windows_ownership_equal : Option WindowsData → Option WindowsData → Bool
windows_ownership_equal none none = true
windows_ownership_equal none (some b) = false
windows_ownership_equal (some a) none = false
windows_ownership_equal (some a) (some b) =
    text_eq a.owner_name b.owner_name && bool_eq a.owner_is_group b.owner_is_group

unfoldable pub merge_platform : PlatformData → PlatformData → PlatformData
merge_platform p other = record {
  unix = elim p.unix [ none ↦ other.unix | some d ↦ some d ];
  windows = elim p.windows [ none ↦ other.windows | some d ↦ some d ];
  linux = elim p.linux [ none ↦ other.linux | some d ↦ some d ];
  darwin = elim p.darwin [ none ↦ other.darwin | some d ↦ some d ];
  free_bsd = elim p.free_bsd [ none ↦ other.free_bsd | some d ↦ some d ];
  net_bsd = elim p.net_bsd [ none ↦ other.net_bsd | some d ↦ some d ];
}

pub record FileInfoComparison : Type 0 where
  pub mod_time_window : ℕ
  pub ignore_perms : Bool
  pub ignore_blocks : Bool
  pub ignore_flags : FlagLocal
  pub ignore_ownership : Bool
  pub ignore_xattrs : Bool

-- The two tests on the platform's data. The code makes them only where the structs of pointers
-- differ; the same pointers hold equal data.
unfoldable pub ownership_equal : PlatformData → PlatformData → Bool
ownership_equal a b =
    unix_ownership_equal a.unix b.unix && windows_ownership_equal a.windows b.windows

unfoldable pub all_xattrs_equal : PlatformData → PlatformData → Bool
all_xattrs_equal a b =
    xattrs_equal a.linux b.linux
    && xattrs_equal a.darwin b.darwin
    && xattrs_equal a.free_bsd b.free_bsd
    && xattrs_equal a.net_bsd b.net_bsd

-- The last `switch`, by the type of the file.
unfoldable pub content_equal : FileInfoType → FileInfo → FileInfo → FileInfoComparison → Bool
content_equal file f other comp =
    f.size == other.size
    && mod_time_equal f.mod_time other.mod_time comp.mod_time_window
    && (comp.ignore_blocks || file_blocks_equal f other)
content_equal symlink f other comp = text_eq f.symlink_target other.symlink_target
content_equal directory f other comp = true
content_equal symlink_file f other comp = false
content_equal symlink_directory f other comp = false

unfoldable pub is_equivalent_optional : FileInfo → FileInfo → FileInfoComparison → Bool
is_equivalent_optional f other comp =
    if must_rescan f || must_rescan other
    then false
    else if not (text_eq f.name other.name)
        || not (type_eq f.file_type other.file_type)
        || not (bool_eq f.deleted other.deleted)
        || not (
            bool_eq (flags_invalid (clear_flags f.local_flags comp.ignore_flags))
              (flags_invalid (clear_flags other.local_flags comp.ignore_flags)))
    then false
    else if not comp.ignore_ownership && not (ownership_equal f.platform other.platform)
    then false
    else if not comp.ignore_xattrs && not (all_xattrs_equal f.platform other.platform)
    then false
    else if not comp.ignore_perms
        && not f.no_permissions
        && not other.no_permissions
        && not (perms_equal f.permissions other.permissions)
    then false
    else content_equal f.file_type f other comp

unfoldable pub is_equivalent : FileInfo → FileInfo → ℕ → Bool
is_equivalent f other window = is_equivalent_optional f other (record {
  mod_time_window = window;
  ignore_perms = false;
  ignore_blocks = false;
  ignore_flags = no_flags;
  ignore_ownership = false;
  ignore_xattrs = false;
})

abbrev pub min_block_size : ℕ
min_block_size = 131072

-- `FileInfo.BlockSize`
unfoldable pub block_size_of : FileInfo → ℕ
block_size_of f = if ltb f.raw_block_size min_block_size then min_block_size else f.raw_block_size

-- `BlockSizes`, filled by doubling up to 16 MiB.
unfoldable pub block_sizes_from : ℕ → ℕ → List ℕ
block_sizes_from zero size = []
block_sizes_from (suc n) size = size ∷ block_sizes_from n (size * 2)

abbrev pub desired_per_file_blocks : ℕ
desired_per_file_blocks = 2000

-- The loop of `BlockSize`: the first size for which the file has few enough blocks, or the last.
unfoldable pub pick_block_size : ℕ → List ℕ → ℕ → ℕ
pick_block_size file_size [] last = last
pick_block_size file_size (size ∷ sizes) last =
    let rest = pick_block_size file_size sizes size in
    if ltb file_size (desired_per_file_blocks * size) then size else rest

unfoldable pub block_size : ℕ → ℕ
block_size file_size = pick_block_size file_size (block_sizes_from 8 min_block_size) 0
