-- ===== src/Rsync/Uvarint.antt =====
-- The variable-length integers of encoding/binary, as lib/rsync/wire.go uses them: seven bits to a
-- byte, the low ones first, and the high bit set on every byte but the last.
use native.Mathlib.Nat.{pow-suc, div-add-mod}
use syncthing_mem.Base.{
  ℕ, zero, suc, ◌+◌, ◌*◌, ◌/◌, ◌%◌, ◌^◌, ◌<◌, ◌≡◌, ap, ◌∙◌, false, [], ◌∷◌, ◌++◌, length, ltb, ◌&&◌,
  ◌==◌, arith, Bool-cases, inl, inr, if◌then◌else◌,
}
use syncthing_mem.Rsync.{Bytes, Result, ok, err, Error}

-- `AppendUvarint`: ten bytes are enough for a uint64.
unfoldable pub uvarint_bytes : ℕ → ℕ → Bytes
uvarint_bytes zero x = []
uvarint_bytes (suc f) x =
    let rest = (x % 128 + 128) ∷ uvarint_bytes f (x / 128) in if ltb x 128 then x ∷ [] else rest

unfoldable pub uvarint : ℕ → Bytes
uvarint x = uvarint_bytes 10 x

-- `ReadUvarint`, a round for each byte that is left of ten; `scale` is 2 to the shift. It fails on
-- the end of the input, on a tenth byte above 1 and on more than ten bytes.
unfoldable pub read_uvarint_from : ℕ → ℕ → ℕ → Error → Bytes → Result (ℕ × Bytes)
read_uvarint_from zero x scale e bytes = err e
read_uvarint_from (suc f) x scale e [] = err e
read_uvarint_from (suc f) x scale e (b ∷ bytes) =
    let more = read_uvarint_from f (x + b % 128 * scale) (scale * 128) e bytes in
    if ltb b 128 then (if f == 0 && ltb 1 b then err e else ok (x + b * scale, bytes)) else more

unfoldable pub read_uvarint : Error → Bytes → Result (ℕ × Bytes)
read_uvarint e bytes = read_uvarint_from 10 0 1 e bytes

read_more :
    (f acc scale : ℕ) (e : Error) (b : ℕ) (bytes : Bytes)
    → ltb b 128 ≡ false
    → read_uvarint_from (suc f) acc scale e (b ∷ bytes)
      ≡ read_uvarint_from f (acc + b % 128 * scale) (scale * 128) e bytes
unfolding read_uvarint_from
read_more f acc scale e b bytes h = rw (h, read_uvarint_from)

read_uvarint_from-uvarint_bytes :
    (f x acc scale : ℕ) (e : Error) (rest : Bytes)
    → x < 2 * 128 ^ f
    → read_uvarint_from (suc f) acc scale e (uvarint_bytes (suc f) x ++ rest)
      ≡ ok (acc + x * scale, rest)
unfolding read_uvarint_from uvarint_bytes
read_uvarint_from-uvarint_bytes zero x acc scale e rest h = ground arith
read_uvarint_from-uvarint_bytes (suc f) x acc scale e rest h = elim (Bool-cases (ltb x 128)) [
  | inl last ↦ let early : (suc f == 0) ≡ false = ground arith in rw last (rw last (rw early))
  | inr more ↦
      let high : ltb (x % 128 + 128) 128 ≡ false = ground arith in
      let low : (x % 128 + 128) % 128 ≡ x % 128 = omega arith in
      let split : acc + x % 128 * scale + x / 128 * (scale * 128) ≡ acc + x * scale =
        omega (arith, ap (λ (t : ℕ). t * scale) (div-add-mod x 128)) in
      rw more (
        read_more (suc f) acc scale e (x % 128 + 128) (uvarint_bytes (suc f) (x / 128) ++ rest) high
        ∙ ap
            (λ l.
              read_uvarint_from (suc f) (acc + l * scale) (scale * 128) e
                (uvarint_bytes (suc f) (x / 128) ++ rest))
            low
        ∙ read_uvarint_from-uvarint_bytes f (x / 128) (acc + x % 128 * scale) (scale * 128) e rest
            (omega (arith, pow-suc 128 f))
        ∙ ap (λ (t : ℕ). ok (t, rest)) split)
]

-- A uint64 is read back from its encoding, whatever follows.
pub read_uvarint-uvarint :
    (x : ℕ) (e : Error) (rest : Bytes)
    → x < 2 ^ 64
    → read_uvarint e (uvarint x ++ rest) ≡ ok (x, rest)
unfolding read_uvarint uvarint
read_uvarint-uvarint x e rest h =
    read_uvarint_from-uvarint_bytes 9 x 0 1 e rest (omega arith)
    ∙ ap (λ (t : ℕ). ok (t, rest)) (omega arith)

-- No encoding is empty.
pub length-uvarint : (x : ℕ) → 0 < length (uvarint x)
unfolding uvarint uvarint_bytes
length-uvarint x = ground arith
