-- ===== src/Rsync/Wire.antt =====
-- lib/rsync/wire.go: the encoding of signatures and deltas, and the three calls that a transfer is
-- made of. A reader over bytes in memory is the list of those that are left.
pub mod RoundTrip
pub mod Transfer
pub mod Hostile
use syncthing_mem.Base.{
  ℕ, zero, suc, ◌+◌, ◌*◌, ◌/◌, ◌%◌, ◌^◌, List, [], ◌∷◌, ◌++◌, ◌||◌, length, take, drop, ltb, ◌==◌,
  false, if◌then◌else◌,
}
use syncthing_mem.Rsync.{
  Bytes, Operation, block, literal, BlockHash, Signature, Error, Result, ok, err, corrupt_signature,
  corrupt_delta, ◌>>=◌, Reader,
}
use syncthing_mem.Rsync.Generate.{generate_signature}
use syncthing_mem.Rsync.Deltify.{max_data_operation_size, deltify}
use syncthing_mem.Rsync.Patch.{new_engine, patch}
use syncthing_mem.Rsync.Uvarint.{uvarint, read_uvarint}

abbrev pub sig_codec_version : ℕ
sig_codec_version = 1

abbrev pub delta_codec_version : ℕ
delta_codec_version = 1

-- The length of a strong hash.
abbrev pub strong_size : ℕ
strong_size = 20

-- `ReadByte` and `io.ReadFull` on bytes in memory, with the error that the callers make of theirs.
unfoldable pub read_byte : Error → Bytes → Result (ℕ × Bytes)
read_byte e [] = err e
read_byte e (b ∷ bytes) = ok (b, bytes)

unfoldable pub read_bytes : ℕ → Error → Bytes → Result (Bytes × Bytes)
read_bytes n e bytes = if ltb (length bytes) n then err e else ok (take n bytes, drop n bytes)

-- `PutUint32` and `Uint32`, big endian
unfoldable pub put_uint32 : ℕ → Bytes
put_uint32 w = w / 2 ^ 24 % 256 ∷ w / 2 ^ 16 % 256 ∷ w / 2 ^ 8 % 256 ∷ w % 256 ∷ []

unfoldable pub get_uint32 : Bytes → ℕ
get_uint32 [] = 0
get_uint32 (b ∷ bytes) = b * 256 ^ length bytes + get_uint32 bytes

unfoldable pub encode_hashes : List BlockHash → Bytes
encode_hashes [] = []
encode_hashes (h ∷ hashes) = put_uint32 h.weak_hash ++ (h.strong_hash ++ encode_hashes hashes)

unfoldable pub encode_signature : Signature → Bytes
encode_signature sig =
    sig_codec_version
    ∷ (uvarint sig.block_size
        ++ (uvarint sig.last_block_size
            ++ (uvarint (length sig.hashes) ++ encode_hashes sig.hashes)))

-- The loop of `decodeSignature`, over the entries that are left to read.
unfoldable pub decode_hashes : ℕ → Bytes → Result (List BlockHash)
decode_hashes zero bytes = ok []
decode_hashes (suc n) bytes = do
  (weak, after_weak) ← read_bytes 4 corrupt_signature bytes
  (strong, after_strong) ← read_bytes strong_size corrupt_signature after_weak
  hashes ← decode_hashes n after_strong
  ok (record { weak_hash = get_uint32 weak; strong_hash = strong } ∷ hashes)

-- `decodeSignature` behind the version byte; what follows the last entry is ignored.
unfoldable pub decode_signature_body : Bytes → Result Signature
decode_signature_body bytes = do
  (block_size, after_size) ← read_uvarint corrupt_signature bytes
  (last_block_size, after_last) ← read_uvarint corrupt_signature after_size
  (n, after_count) ← read_uvarint corrupt_signature after_last
  if ltb (length after_count / (4 + strong_size)) n
      then err corrupt_signature
      else (decode_hashes n after_count >>= λ hashes.
          ok (record {
            block_size = block_size;
            last_block_size = last_block_size;
            hashes = hashes;
          }))

unfoldable pub decode_signature : Bytes → Result Signature
decode_signature bytes = do
  (version, body) ← read_byte corrupt_signature bytes
  if version == sig_codec_version then decode_signature_body body else err corrupt_signature

-- The type of an operation is a byte, then its fields.
unfoldable pub encode_operation : Operation → Bytes
encode_operation (block start count) = 0 ∷ (uvarint start ++ uvarint count)
encode_operation (literal bytes) = 1 ∷ (uvarint (length bytes) ++ bytes)

unfoldable pub encode_operations : List Operation → Bytes
encode_operations [] = []
encode_operations (op ∷ ops) = encode_operation op ++ encode_operations ops

unfoldable pub encode_delta : ℕ → List Operation → Bytes
encode_delta block_size ops =
    delta_codec_version ∷ (uvarint block_size ++ (uvarint (length ops) ++ encode_operations ops))

unfoldable pub decode_block : Bytes → Result (Operation × Bytes)
decode_block bytes = do
  (start, after_start) ← read_uvarint corrupt_delta bytes
  (count, rest) ← read_uvarint corrupt_delta after_start
  ok (block start count, rest)

unfoldable pub decode_literal : Bytes → Result (Operation × Bytes)
decode_literal bytes = do
  (size, after_size) ← read_uvarint corrupt_delta bytes
  if ltb max_data_operation_size size || ltb (length after_size) size
      then err corrupt_delta
      else (read_bytes size corrupt_delta after_size >>= λ r. ok (literal r.0, r.1))

unfoldable pub decode_operation : Bytes → Result (Operation × Bytes)
decode_operation bytes = do
  (t, rest) ← read_byte corrupt_delta bytes
  if t == 0 then decode_block rest else if t == 1 then decode_literal rest else err corrupt_delta

unfoldable pub decode_operations : ℕ → Bytes → Result (List Operation)
decode_operations zero bytes = ok []
decode_operations (suc n) bytes = do
  (op, rest) ← decode_operation bytes
  ops ← decode_operations n rest
  ok (op ∷ ops)

unfoldable pub decode_delta_body : Bytes → Result (ℕ × List Operation)
decode_delta_body bytes = do
  (block_size, after_size) ← read_uvarint corrupt_delta bytes
  (n, after_count) ← read_uvarint corrupt_delta after_size
  if ltb (length after_count / 2) n
      then err corrupt_delta
      else (decode_operations n after_count >>= λ ops. ok (block_size, ops))

unfoldable pub decode_delta : Bytes → Result (ℕ × List Operation)
decode_delta bytes = do
  (version, body) ← read_byte corrupt_delta bytes
  if version == delta_codec_version then decode_delta_body body else err corrupt_delta

-- A reader over bytes in memory does not fail.
abbrev pub bytes_reader : Bytes → Reader
bytes_reader bytes = record { left = bytes; fails = false }

module _ (sha1 : Bytes → Bytes) where
  unfoldable pub signature_bytes : Bytes → Result Bytes
  signature_bytes base = do
    sig ← generate_signature sha1 (bytes_reader base) (length base)
    ok (encode_signature sig)

  unfoldable pub delta_bytes : Bytes → Bytes → Result Bytes
  delta_bytes target sig_bytes = do
    sig ← decode_signature sig_bytes
    ops ← deltify sha1 (bytes_reader target) sig
    ok (encode_delta sig.block_size ops)

-- The first argument is the largest slice of bytes that the runtime allocates.
unfoldable pub apply_delta : ℕ → Bytes → Bytes → Result Bytes
apply_delta max_alloc base bytes = do
  (block_size, ops) ← decode_delta bytes
  patch max_alloc (new_engine 0) base ops block_size
