-- ===== src/Rsync/Read.antt =====
-- `io.ReadFull` over a reader that does not fail: all that was asked for, or the rest and the end.
use syncthing_mem.Base.{ℕ, ◌≤◌, ◌<◌, ◌≡◌, Bool, true, false, [], length, take, drop, leb, arith}
use syncthing_mem.Rsync.{Bytes, full, short, failed, read_full}

pub read_full_whole :
    (n : ℕ) (l : Bytes) (b : Bool)
    → n ≤ length l
    → read_full n (record { left = l; fails = b })
      ≡ (take n l, full, record { left = drop n l; fails = b })
unfolding read_full
read_full_whole n l b h = let e : leb n (length l) ≡ true = ground arith in rw e

pub read_full_short :
    (n : ℕ) (l : Bytes)
    → length l < n
    → read_full n (record { left = l; fails = false })
      ≡ (l, short, record { left = []; fails = false })
unfolding read_full
read_full_short n l h = let e : leb n (length l) ≡ false = ground arith in rw e

-- A reader that fails never ends: what is missing is reported as an error.
pub read_full_failed :
    (n : ℕ) (l : Bytes)
    → length l < n
    → read_full n (record { left = l; fails = true })
      ≡ (l, failed, record { left = []; fails = true })
unfolding read_full
read_full_failed n l h = let e : leb n (length l) ≡ false = ground arith in rw e
