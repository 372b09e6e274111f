-- ===== src/Rsync/Deltify.antt =====
-- lib/rsync/engine.go: `Deltify`, `matchBlock`, `emitAllAsData`. The handler of the operations is
-- the one of `DeltaBytes`, which appends to a list. The strong hash is a parameter.
pub mod Replay
pub mod Match
pub mod Scan
pub mod Total
use syncthing_mem.Base.{
  ℕ, zero, suc, ◌+◌, ◌-◌, ◌*◌, ◌≤◌, Bool, true, false, Option, none, some, List, [], ◌∷◌, ◌++◌,
  ◌&&◌, length, take, drop, get_elem?, get_or, ltb, leb, ◌==◌, if◌then◌else◌,
}
use syncthing_mem.Rsync.{
  Bytes, Operation, block, literal, BlockHash, Signature, Result, ok, err, panic, read_failed,
  out_of_fuel, Reader, ReadEnd, full, short, failed, read_full, ◌>>=◌, int_max,
}
use syncthing_mem.Rsync.Rolling.{RollingHash, new_rolling_hash, write, roll, sum}
use syncthing_mem.Rsync.Generate.{validate_signature, block_length}
use syncthing_mem.Rsync.Window.{Window, new_window, available, ensure, peek, advance}

abbrev pub max_data_operation_size : ℕ
max_data_operation_size = 1024 * 1024

-- What the closures of `Deltify` share: the unmatched bytes, the run of blocks that still grows,
-- and the operations that the handler has got.
pub record Sink : Type 0 where
  pub pending : Bytes
  pub pending_block : Option (ℕ × ℕ)
  pub ops : List Operation

abbrev pub empty_sink : Sink
empty_sink = record { pending = []; pending_block = none; ops = [] }

unfoldable pub flush_block : Sink → Sink
flush_block s = elim s.pending_block [
  | none ↦ s
  | some (start, count) ↦ record s { pending_block = none; ops = s.ops ++ block start count ∷ [] }
]

-- The loop of `emitData`: at most `limit` bytes to an operation, a round for each operation.
unfoldable pub literals : ℕ → ℕ → Bytes → List Operation
literals zero limit bytes = []
literals (suc f) limit [] = []
literals (suc f) limit (v ∷ bytes) =
    literal (take limit (v ∷ bytes)) ∷ literals f limit (drop limit (v ∷ bytes))

unfoldable pub emit_data : Bytes → Sink → Sink
emit_data bytes s =
    let flushed = flush_block s in
    record flushed { ops = flushed.ops ++ literals (length bytes) max_data_operation_size bytes }

unfoldable pub flush_pending : Sink → Sink
flush_pending s =
    if length s.pending == 0 then s else record (emit_data s.pending s) { pending = [] }

-- `emitBlock` behind its `flushPending`: the block extends the run that grows, or starts one. The
-- indices are those of a slice, so their sums do not wrap around.
unfoldable pub extend_run : ℕ → Sink → Option (ℕ × ℕ) → Sink
extend_run index s none = record (flush_block s) { pending_block = some (index, 1) }
extend_run index s (some (start, count)) =
    if start + count == index
    then record s { pending_block = some (start, count + 1) }
    else record (flush_block s) { pending_block = some (index, 1) }

unfoldable pub emit_block : ℕ → Sink → Sink
emit_block index s = let flushed = flush_pending s in extend_run index flushed flushed.pending_block

unfoldable pub add_literal : Bytes → Sink → Sink
add_literal bytes s =
    let grown = record s { pending = s.pending ++ bytes } in
    if leb max_data_operation_size (length grown.pending) then flush_pending grown else grown

-- `weakMap`: for each weak hash, the blocks that have it, in order.
unfoldable pub build_weak_map : ℕ → List BlockHash → (ℕ → List ℕ) → ℕ → List ℕ
build_weak_map i [] m = m
build_weak_map i (h ∷ hashes) m =
    build_weak_map (suc i) hashes (λ weak. if weak == h.weak_hash then m weak ++ i ∷ [] else m weak)

unfoldable pub bytes_eq : Bytes → Bytes → Bool
bytes_eq [] [] = true
bytes_eq (x ∷ xs) (y ∷ ys) = x == y && bytes_eq xs ys
bytes_eq [] (y ∷ ys) = false
bytes_eq (x ∷ xs) [] = false

unfoldable pub strong_hash_at : Signature → ℕ → Option Bytes
strong_hash_at sig i = elim (get_elem? sig.hashes i) [ none ↦ none | some h ↦ some h.strong_hash ]

unfoldable pub has_hash : Option Bytes → Bytes → Bool
has_hash none strong = false
has_hash (some h) strong = bytes_eq h strong

-- The loop over the candidates of `matchBlockWithWeak`: the first with the length and the hash.
unfoldable pub first_match : Signature → ℕ → Bytes → List ℕ → Option ℕ
first_match sig len strong [] = none
first_match sig len strong (i ∷ candidates) =
    if block_length sig i == len && has_hash (strong_hash_at sig i) strong
    then some i
    else first_match sig len strong candidates

-- The loop of `emitAllAsData`: a buffer of at most `max_data_operation_size` bytes to a round.
unfoldable pub emit_all_loop : ℕ → Reader → List Operation → Result (List Operation)
emit_all_loop zero r ops = err out_of_fuel
emit_all_loop (suc f) r ops =
    let (chunk, ended, r') = read_full max_data_operation_size r in
    let ops' = if ltb 0 (length chunk) then ops ++ literal chunk ∷ [] else ops in
    elim ended [ full ↦ emit_all_loop f r' ops' | short ↦ ok ops' | failed ↦ err read_failed ]

unfoldable pub emit_all_as_data : Reader → Result (List Operation)
emit_all_as_data r = emit_all_loop (suc (length r.left)) r []

-- `int(n)` of a uint64, as the loops use it: they only ask whether there are as many bytes, which
-- holds of a negative number as it does of zero, or whether it is above zero.
unfoldable pub int_of : ℕ → ℕ
int_of n = if leb int_max n then 0 else n

unfoldable pub with_ints : Signature → Signature
with_ints sig = record sig {
  block_size = int_of sig.block_size;
  last_block_size = int_of sig.last_block_size;
}

-- What `Deltify` does after the scan.
unfoldable pub close : Sink → List Operation
close s = (flush_block (flush_pending s)).ops

module _ (sha1 : Bytes → Bytes) where
  unfoldable pub match_block_with_weak : Bytes → ℕ → (ℕ → List ℕ) → Signature → Option ℕ
  match_block_with_weak bytes weak weak_map sig =
      first_match sig (length bytes) (sha1 bytes) (weak_map weak)

  unfoldable pub match_block : Bytes → (ℕ → List ℕ) → Signature → Option ℕ
  match_block bytes weak_map sig =
      match_block_with_weak bytes (sum (write (new_rolling_hash (length bytes)) bytes)) weak_map sig

  module _ (sig : Signature) (weak_map : ℕ → List ℕ) where
    abbrev pub short_last : Bool
    short_last = ltb 0 sig.last_block_size && ltb sig.last_block_size sig.block_size

    -- The match of the short last block at the head of the window, where the code tries it.
    unfoldable pub match_short : Window → Option ℕ
    match_short w =
        if short_last && leb sig.last_block_size (available w)
        then match_block (peek sig.last_block_size w) weak_map sig
        else none

    -- The two loops of `Deltify`, a round to a unit of fuel; the second holds the rolling hash.
    unfoldable mutual
      pub scan : ℕ → Window → Sink → Result Sink
      scan zero w s = err out_of_fuel
      scan (suc f) w s = elim (ensure sig.block_size w) as (λ _. Result Sink) [
        | err e ↦ err e
        | panic ↦ panic
        | ok w' ↦ elim (available w' == 0) [
          | true ↦ ok s
          | false ↦ elim (ltb (available w') sig.block_size) [
            | true ↦ elim (match_short w') [
              | some i ↦ scan f (advance sig.last_block_size w') (emit_block i s)
              | none ↦ scan f (advance (available w') w') (add_literal (peek (available w') w') s)
            ]
            | false ↦
                slide f w' (write (new_rolling_hash sig.block_size) (peek sig.block_size w')) s
          ]
        ]
      ]

      pub slide : ℕ → Window → RollingHash → Sink → Result Sink
      slide zero w rh s = err out_of_fuel
      slide (suc f) w rh s =
          elim (match_block_with_weak (peek sig.block_size w) (sum rh) weak_map sig) [
            | some i ↦ scan f (advance sig.block_size w) (emit_block i s)
            | none ↦ elim (match_short w) [
              | some i ↦ scan f (advance sig.last_block_size w) (emit_block i s)
              | none ↦ elim (ensure sig.block_size (advance 1 w)) as (λ _. Result Sink) [
                | err e ↦ err e
                | panic ↦ panic
                | ok w' ↦ elim (ltb (available w') sig.block_size) [
                  | true ↦ scan f w' (add_literal (peek 1 w) s)
                  | false ↦
                      slide f w' (roll rh (get_or (peek sig.block_size w') (sig.block_size - 1) 0))
                        (add_literal (peek 1 w) s)
                ]
              ]
            ]
          ]

  -- `Deltify` behind its check.
  unfoldable pub deltify_checked : Reader → Signature → Result (List Operation)
  deltify_checked reader sig =
      if length sig.hashes == 0
      then emit_all_as_data reader
      else scan (with_ints sig) (build_weak_map 0 sig.hashes (λ _. [])) (length reader.left * 2 + 2)
          (new_window reader) empty_sink
        >>= λ s. ok (close s)

  unfoldable pub deltify : Reader → Signature → Result (List Operation)
  deltify reader sig = validate_signature sig >>= deltify_checked reader
