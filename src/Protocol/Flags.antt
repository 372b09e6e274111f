-- ===== src/Protocol/Flags.antt =====
-- lib/protocol/bep_fileinfo.go: the local flags of a file, `FlagLocal`. The bit set stands as a
-- record with a field for each bit; the other bits of the uint32 have no name and are never set.
use syncthing_mem.Base.{Bool, false, not, ◌&&◌, ◌||◌}

pub record FlagLocal : Type 0 where
  pub unsupported : Bool
  pub ignored : Bool
  pub must_rescan : Bool
  pub receive_only : Bool
  pub global : Bool
  pub needed : Bool
  pub remote_invalid : Bool

abbrev pub no_flags : FlagLocal
no_flags = record {
  unsupported = false;
  ignored = false;
  must_rescan = false;
  receive_only = false;
  global = false;
  needed = false;
  remote_invalid = false;
}

-- `f&LocalInvalidFlags != 0`
unfoldable pub flags_invalid : FlagLocal → Bool
flags_invalid f = f.unsupported || f.ignored || f.must_rescan || f.receive_only || f.remote_invalid

-- `f&LocalConflictFlags != 0`
unfoldable pub flags_conflict : FlagLocal → Bool
flags_conflict f = f.unsupported || f.ignored || f.receive_only

-- `f &^ ignored`
unfoldable pub clear_flags : FlagLocal → FlagLocal → FlagLocal
clear_flags f mask = record {
  unsupported = f.unsupported && not mask.unsupported;
  ignored = f.ignored && not mask.ignored;
  must_rescan = f.must_rescan && not mask.must_rescan;
  receive_only = f.receive_only && not mask.receive_only;
  global = f.global && not mask.global;
  needed = f.needed && not mask.needed;
  remote_invalid = f.remote_invalid && not mask.remote_invalid;
}
