-- ===== src/Protocol/FileInfo/Conflict.antt =====
-- lib/protocol/bep_fileinfo.go, `WinsConflict`.
use syncthing_mem.Base.{◌≡◌, refl, ap, Bool, true, false, not, arith}
use syncthing_mem.Protocol.Vector.{
  Ordering, compare, equal, greater, lesser, concurrent_greater, concurrent_lesser, is_concurrent,
}
use syncthing_mem.Protocol.Vector.Compare.{converse, compare-converse}
use syncthing_mem.Protocol.FileInfo.{FileInfo, wins_conflict, is_concurrent_greater}

abbrev concurrent : Ordering → Bool
concurrent concurrent_greater = true
concurrent concurrent_lesser = true
concurrent _ = false

one_side :
    (o : Ordering)
    → concurrent o ≡ true
    → is_concurrent_greater (converse o) ≡ not (is_concurrent_greater o)
one_side equal h = cc
one_side greater h = cc
one_side lesser h = cc
one_side concurrent_greater h = refl
one_side concurrent_lesser h = refl

-- Of two files in conflict exactly one wins, so that both ends choose the same one.
pub wins_conflict-not :
    (f other : FileInfo)
    → is_concurrent f.version other.version ≡ true
    → wins_conflict other f ≡ not (wins_conflict f other)
unfolding wins_conflict is_concurrent
wins_conflict-not f other h = ground (
  arith,
  ap is_concurrent_greater (compare-converse f.version other.version),
  one_side (compare f.version other.version) h,
)
