-- ===== src/Rsync.antt =====
-- lib/rsync: delta transfer. The types of operation.go; the parts stand in the modules below.
pub mod Rolling
pub mod BlockSize
pub mod Read
pub mod Blocks
pub mod Generate
pub mod Window
pub mod Deltify
pub mod Patch
pub mod Uvarint
pub mod Wire
use syncthing_mem.Base.{ℕ, ◌^◌, List, [], Bool, leb, length, take, drop, if◌then◌else◌}

abbrev pub Bytes : Type 0
Bytes = List ℕ

abbrev pub u16_mod : ℕ
u16_mod = 2 ^ 16

-- `Operation`, by its type: a run of base blocks, or new bytes.
pub data Operation : Type 0 where
  block : ℕ → ℕ → Operation
  literal : Bytes → Operation

pub record BlockHash : Type 0 where
  pub weak_hash : ℕ
  pub strong_hash : Bytes

pub record Signature : Type 0 where
  pub block_size : ℕ
  pub last_block_size : ℕ
  pub hashes : List BlockHash

-- A run of the engine ends with a value, with one of its errors, or in a panic of the runtime.
pub data Error : Type 0 where
  read_failed zero_block_size last_block_too_large last_block_empty zero_block_count
        block_out_of_range corrupt_signature corrupt_delta out_of_fuel :
      Error

pub data Result (A : Type 0) : Type 0 where
  ok : A → Result A
  err : Error → Result A
  panic : Result A

infixl 5 ◌>>=◌
abbrev pub ◌>>=◌ : {A B : Type 0} → Result A → (A → Result B) → Result B
ok a >>= f = f a
err e >>= f = err e
panic >>= f = panic

abbrev pub int_max : ℕ
int_max = 2 ^ 63

-- Bytes behind an `io.Reader`; once they are read, the reader ends or fails.
pub record Reader : Type 0 where
  pub left : Bytes
  pub fails : Bool

-- How `io.ReadFull` of the standard library ends: with all bytes that were asked for, at the end of
-- the input (`EOF` and `ErrUnexpectedEOF`, which the callers treat alike), or in an error.
pub data ReadEnd : Type 0 where
  full short failed : ReadEnd

unfoldable pub read_full : ℕ → Reader → Bytes × ReadEnd × Reader
read_full want r =
    if leb want (length r.left)
    then (take want r.left, full, record r { left = drop want r.left })
    else (r.left, (if r.fails then failed else short), record r { left = [] })
