-- ===== src/Model/Batch.antt =====
-- lib/model/fileinfobatch.go: a batch of files, flushed when it is full. The size of a file on the wire
-- is a parameter; the function that flushes reads and writes a state of its own. `Append` on a batch
-- that has failed panics: none.
use syncthing_mem.Base.{
  ℕ, ◌+◌, ◌*◌, Bool, ◌||◌, Option, none, some, List, [], ◌∷◌, ◌++◌, length, leb, ◌==◌,
  if◌then◌else◌, Text,
}
use syncthing_mem.Protocol.FileInfo.{FileInfo}

abbrev pub max_batch_size_bytes : ℕ
max_batch_size_bytes = 250 * 1024

abbrev pub max_batch_size_files : ℕ
max_batch_size_files = 1000

-- FileInfoBatch, without the function that flushes.
pub record FileInfoBatch : Type 0 where
  pub infos : List FileInfo
  pub size : ℕ
  pub error : Option Text

abbrev pub new_file_info_batch : FileInfoBatch
new_file_info_batch = record { infos = []; size = 0; error = none }

unfoldable pub append_after : Option Text → ℕ → FileInfo → FileInfoBatch → Option FileInfoBatch
append_after (some e) size f b = none
append_after none size f b = some (record b { infos = b.infos ++ f ∷ []; size = b.size + size })

unfoldable pub append_file : ℕ → FileInfo → FileInfoBatch → Option FileInfoBatch
append_file size f b = append_after b.error size f b

unfoldable pub full : FileInfoBatch → Bool
full b = leb max_batch_size_files (length b.infos) || leb max_batch_size_bytes b.size

unfoldable pub reset : FileInfoBatch → FileInfoBatch
reset b = new_file_info_batch

module _ {S : Type 0} where
  -- The end of `Flush`, by the result of the function that flushes.
  unfoldable pub flushed : Option Text × S → FileInfoBatch → Option Text × FileInfoBatch × S
  flushed (some e, s) b = (some e, record b { error = some e }, s)
  flushed (none, s) b = (none, reset b, s)

  unfoldable pub flush_after :
      Option Text
      → (List FileInfo → S → Option Text × S)
      → FileInfoBatch
      → S
      → Option Text × FileInfoBatch × S
  flush_after (some e) flush_fn b s = (some e, b, s)
  flush_after none flush_fn b s =
      if length b.infos == 0 then (none, b, s) else flushed (flush_fn b.infos s) b

  unfoldable pub flush :
      (List FileInfo → S → Option Text × S) → FileInfoBatch → S → Option Text × FileInfoBatch × S
  flush flush_fn b s = flush_after b.error flush_fn b s

  unfoldable pub flush_if_full :
      (List FileInfo → S → Option Text × S) → FileInfoBatch → S → Option Text × FileInfoBatch × S
  flush_if_full flush_fn b s = elim b.error [
    | some e ↦ (some e, b, s)
    | none ↦ if full b then flush flush_fn b s else (none, b, s)
  ]
