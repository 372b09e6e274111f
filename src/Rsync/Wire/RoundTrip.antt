-- ===== src/Rsync/Wire/RoundTrip.antt =====
-- lib/rsync/wire.go: the encoders against the decoders.
use syncthing_mem.Base.{
  ℕ, ◌+◌, ◌*◌, ◌/◌, ◌^◌, ◌≤◌, ◌<◌, ◌≡◌, refl, sym, false, List, [], ◌∷◌, ◌++◌, append-nil,
  append_assoc, length, ltb, arith, length-append, take-append_length, drop-append_length, ge→ltb,
}
use syncthing_mem.Rsync.{
  Bytes, Operation, block, literal, BlockHash, Signature, Error, ok, corrupt_signature,
  corrupt_delta,
}
use syncthing_mem.Rsync.BlockSize.{u64_mod}
use syncthing_mem.Rsync.Deltify.{max_data_operation_size}
use syncthing_mem.Rsync.Uvarint.{uvarint, read_uvarint-uvarint, length-uvarint}
use syncthing_mem.Rsync.Wire.{
  strong_size, read_byte, read_bytes, put_uint32, get_uint32, encode_hashes, encode_signature,
  decode_hashes, decode_signature_body, decode_signature, encode_operation, encode_operations,
  encode_delta, decode_block, decode_literal, decode_operation, decode_operations,
  decode_delta_body, decode_delta,
}

-- What fits in the fields of a signature on the wire.
abbrev pub HashesFit : List BlockHash → Type 0
HashesFit [] = Unit
HashesFit (h ∷ hashes) =
    (h.weak_hash < 2 ^ 32) × (length h.strong_hash ≡ strong_size) × HashesFit hashes

pub record SignatureFits (sig : Signature) : Type 0 where
  pub size : sig.block_size < u64_mod
  pub last : sig.last_block_size < u64_mod
  pub count : length sig.hashes < u64_mod
  pub entries : HashesFit sig.hashes

-- What fits in the fields of an operation on the wire.
abbrev pub OperationsFit : List Operation → Type 0
OperationsFit [] = Unit
OperationsFit (block start count ∷ ops) = (start < u64_mod) × (count < u64_mod) × OperationsFit ops
OperationsFit (literal bytes ∷ ops) = (length bytes ≤ max_data_operation_size) × OperationsFit ops

read_bytes-append :
    (n : ℕ) (e : Error) (bytes rest : Bytes)
    → length bytes ≡ n
    → read_bytes n e (bytes ++ rest) ≡ ok (bytes, rest)
unfolding read_bytes
read_bytes-append n e bytes rest h = rw (
  length-append bytes rest,
  ge→ltb (length bytes + length rest) n (omega arith),
  take-append_length bytes rest n (sym h),
  drop-append_length bytes rest n (sym h),
)

get-put_uint32 : (w : ℕ) → w < 2 ^ 32 → get_uint32 (put_uint32 w) ≡ w
unfolding get_uint32 put_uint32
get-put_uint32 w h = omega arith

length-put_uint32 : (w : ℕ) → length (put_uint32 w) ≡ 4
unfolding put_uint32
length-put_uint32 w = refl

decode-encode_hashes :
    (hashes : List BlockHash) (rest : Bytes)
    → HashesFit hashes
    → decode_hashes (length hashes) (encode_hashes hashes ++ rest) ≡ ok hashes
unfolding decode_hashes encode_hashes
decode-encode_hashes [] rest f = refl
decode-encode_hashes (h ∷ hashes) rest (weak, strong, f) = rw (
  append_assoc (put_uint32 h.weak_hash),
  append_assoc h.strong_hash,
  read_bytes-append 4 corrupt_signature (put_uint32 h.weak_hash) _ (length-put_uint32 h.weak_hash),
  read_bytes-append strong_size corrupt_signature h.strong_hash _ strong,
  decode-encode_hashes hashes rest f,
  get-put_uint32 h.weak_hash weak,
)

length-encode_hashes :
    (hashes : List BlockHash)
    → HashesFit hashes
    → length (encode_hashes hashes) ≡ length hashes * 24
unfolding encode_hashes
length-encode_hashes [] f = refl
length-encode_hashes (h ∷ hashes) (weak, strong, f) = omega (
  arith,
  length-append {0} (put_uint32 h.weak_hash) (h.strong_hash ++ encode_hashes hashes),
  length-append {0} h.strong_hash (encode_hashes hashes),
  length-put_uint32 h.weak_hash,
  length-encode_hashes hashes f,
)

-- A signature whose fields fit on the wire is read back from its encoding.
pub decode-encode_signature :
    (sig : Signature) → SignatureFits sig → decode_signature (encode_signature sig) ≡ ok sig
unfolding decode_signature encode_signature decode_signature_body read_byte
decode-encode_signature sig f =
    let more : ltb (length (encode_hashes sig.hashes) / 24) (length sig.hashes) ≡ false =
      ge→ltb _ _ (omega (arith, length-encode_hashes sig.hashes f.entries)) in
    let hashes = decode-encode_hashes sig.hashes [] f.entries in
    rw
      (
        read_uvarint-uvarint sig.block_size corrupt_signature _ f.size,
        read_uvarint-uvarint sig.last_block_size corrupt_signature _ f.last,
        read_uvarint-uvarint (length sig.hashes) corrupt_signature _ f.count,
        more,
      )
      (rw (rw (append-nil (encode_hashes sig.hashes)) at hashes))

decode-encode_block :
    (start count : ℕ) (rest : Bytes)
    → start < u64_mod
    → count < u64_mod
    → decode_operation (encode_operation (block start count) ++ rest) ≡ ok (block start count, rest)
unfolding decode_operation encode_operation read_byte decode_block
decode-encode_block start count rest hs hc = rw (
  append_assoc (uvarint start) (uvarint count) rest,
  read_uvarint-uvarint start corrupt_delta _ hs,
  read_uvarint-uvarint count corrupt_delta _ hc,
)

decode-encode_literal :
    (bytes rest : Bytes)
    → length bytes ≤ max_data_operation_size
    → decode_operation (encode_operation (literal bytes) ++ rest) ≡ ok (literal bytes, rest)
unfolding decode_operation encode_operation read_byte decode_literal
decode-encode_literal bytes rest h =
    let small : ltb max_data_operation_size (length bytes) ≡ false = ge→ltb _ _ h in
    let enough : ltb (length (bytes ++ rest)) (length bytes) ≡ false =
      ge→ltb _ _ (omega (arith, length-append {0} bytes rest)) in
    rw (
      append_assoc (uvarint (length bytes)) bytes rest,
      read_uvarint-uvarint (length bytes) corrupt_delta _ (omega arith),
      small,
      enough,
      read_bytes-append (length bytes) corrupt_delta bytes rest refl,
    )

decode-encode_operations :
    (ops : List Operation) (rest : Bytes)
    → OperationsFit ops
    → decode_operations (length ops) (encode_operations ops ++ rest) ≡ ok ops
unfolding decode_operations encode_operations
decode-encode_operations [] rest f = refl
decode-encode_operations (block start count ∷ ops) rest (hs, hc, f) = rw (
  append_assoc (encode_operation (block start count)),
  decode-encode_block start count _ hs hc,
  decode-encode_operations ops rest f,
)
decode-encode_operations (literal bytes ∷ ops) rest (h, f) = rw (
  append_assoc (encode_operation (literal bytes)),
  decode-encode_literal bytes _ h,
  decode-encode_operations ops rest f,
)

length-encode_operations : (ops : List Operation) → length ops * 2 ≤ length (encode_operations ops)
unfolding encode_operations encode_operation
length-encode_operations [] = omega arith
length-encode_operations (block start count ∷ ops) = omega (
  arith,
  length-append {0} (uvarint start ++ uvarint count) (encode_operations ops),
  length-append {0} (uvarint start) (uvarint count),
  length-uvarint start,
  length-encode_operations ops,
)
length-encode_operations (literal bytes ∷ ops) = omega (
  arith,
  length-append {0} (uvarint (length bytes) ++ bytes) (encode_operations ops),
  length-append {0} (uvarint (length bytes)) bytes,
  length-uvarint (length bytes),
  length-encode_operations ops,
)

-- A delta whose operations fit on the wire is read back from its encoding.
pub decode-encode_delta :
    (block_size : ℕ) (ops : List Operation)
    → block_size < u64_mod
    → length ops < u64_mod
    → OperationsFit ops
    → decode_delta (encode_delta block_size ops) ≡ ok (block_size, ops)
unfolding decode_delta encode_delta decode_delta_body read_byte
decode-encode_delta block_size ops hb hl f =
    let more : ltb (length (encode_operations ops) / 2) (length ops) ≡ false =
      ge→ltb _ _ (omega (arith, length-encode_operations ops)) in
    let all = decode-encode_operations ops [] f in
    rw
      (
        read_uvarint-uvarint block_size corrupt_delta _ hb,
        read_uvarint-uvarint (length ops) corrupt_delta _ hl,
        more,
      )
      (rw (rw (append-nil (encode_operations ops)) at all))
