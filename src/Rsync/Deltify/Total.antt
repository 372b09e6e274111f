-- ===== src/Rsync/Deltify/Total.antt =====
-- lib/rsync/engine.go, `Deltify` as a whole against its target.
use syncthing_mem.Base.{
  ℕ, zero, suc, ◌+◌, ◌*◌, ◌≤◌, ◌<◌, ◌≡◌, refl, sym, ap, ◌∙◌, false, List, [], ◌∷◌, ◌++◌, append-nil,
  append_assoc, length, take, drop, leb, ltb, ◌==◌, arith, Bool-cases, inl, inr, dec_le,
  length-take, length-drop, lt→ltb, take-append-drop, ltb→lt, if◌then◌else◌,
}
use syncthing_mem.Rsync.{Bytes, Operation, literal, Signature, Result, ok, int_max}
use syncthing_mem.Rsync.Read.{read_full_whole, read_full_short}
use syncthing_mem.Rsync.Blocks.{expand, Fits, expand-append, Fits-append}
use syncthing_mem.Rsync.Generate.{validate_signature}
use syncthing_mem.Rsync.Generate.Blocks.{Describes}
use syncthing_mem.Rsync.Window.{new_window}
use syncthing_mem.Rsync.Window.Content.{new_window-IsOpen}
use syncthing_mem.Rsync.Deltify.{
  max_data_operation_size, emit_all_loop, emit_all_as_data, empty_sink, build_weak_map, close,
  deltify_checked, deltify, int_of, with_ints,
}
use syncthing_mem.Rsync.Deltify.Match.{NoCollision}
use syncthing_mem.Rsync.Deltify.Replay.{close_lem}
use syncthing_mem.Rsync.Deltify.Scan.{scan-Done}

-- Operations that were returned, that the base can serve, and that stand for the target.
pub record Rebuilds (base : Bytes) (size : ℕ) (target : Bytes) (r : Result (List Operation))
    : Type 0 where
  pub ops : List Operation
  pub returned : r ≡ ok ops
  pub fits : Fits base size ops
  pub exact : expand base size ops ≡ target

module _ (base : Bytes) (size : ℕ) where
  -- The operations after a chunk, which is empty only at the end of the input.
  add_chunk :
      (ops : List Operation) (c : Bytes)
      → Fits base size ops
      → length c ≤ max_data_operation_size
      → (Fits base size (if ltb 0 (length c) then ops ++ literal c ∷ [] else ops))
        × (expand base size (if ltb 0 (length c) then ops ++ literal c ∷ [] else ops)
            ≡ expand base size ops ++ c)
  add_chunk ops [] f le = (f, sym (append-nil _))
  add_chunk ops (x ∷ c) f le = rw (lt→ltb 0 (suc (length c)) (omega arith)) (
    Fits-append base size ops _ f (omega arith, le, tt),
    rw (expand-append base size ops, append-nil),
  )

  emit_all_loop-Rebuilds :
      (f : ℕ) (l : Bytes) (ops : List Operation)
      → length l < f
      → Fits base size ops
      → Rebuilds base size
          (expand base size ops ++ l)
          (emit_all_loop f (record { left = l; fails = false }) ops)
  unfolding emit_all_loop
  emit_all_loop-Rebuilds zero l ops h g = absurd (omega arith)
  emit_all_loop-Rebuilds (suc f) l ops h g = elim (dec_le max_data_operation_size (length l)) [
    | yes whole ↦
        let c = take max_data_operation_size l in
        let e = read_full_whole max_data_operation_size l false whole in
        let (fits, same) =
          add_chunk ops c g (omega (arith, length-take {0} max_data_operation_size l)) in
        let r =
          emit_all_loop-Rebuilds f (drop max_data_operation_size l) _
            (omega (arith, length-drop {0} max_data_operation_size l)) fits in
        rw (e, emit_all_loop, e)
          (record {
            ops = r.ops;
            returned = r.returned;
            fits = r.fits;
            exact =
                r.exact
                ∙ rw (same, append_assoc (expand base size ops) c)
                    (ap (λ d. expand base size ops ++ d)
                      (take-append-drop max_data_operation_size l));
          })
    | no part ↦
        let e = read_full_short max_data_operation_size l (omega arith) in
        let (fits, same) = add_chunk ops l g (omega arith) in
        rw (e, emit_all_loop, e) (record { ops = _; returned = refl; fits = fits; exact = same })
  ]

validate_described :
    (sha1 : Bytes → Bytes) (sig : Signature) (base : Bytes)
    → Describes sha1 sig base
    → validate_signature sig ≡ ok sig
unfolding validate_signature
validate_described sha1 sig base d = elim (Bool-cases (ltb 0 (length sig.hashes))) [
  | inl some_hash ↦ let p = d.filled (ltb→lt _ _ some_hash) in ground (arith, d.positive, d.bounded)
  | inr no_hash ↦ ground (arith, d.positive, d.bounded)
]

with_ints_small :
    (sig : Signature)
    → sig.last_block_size ≤ sig.block_size
    → sig.block_size < int_max
    → with_ints sig ≡ sig
unfolding with_ints int_of
with_ints_small sig le small =
    let first : leb int_max sig.block_size ≡ false = ground arith in
    let last : leb int_max sig.last_block_size ≡ false = ground arith in rw (first, last)

-- From a signature that describes the base, with an `int` for a block size, and with no collision
-- of the strong hash, `Deltify` returns operations that the base can serve and that stand for the
-- target, whatever the target is.
pub deltify-Rebuilds :
    (sha1 : Bytes → Bytes) (sig : Signature) (base target : Bytes)
    → Describes sha1 sig base
    → NoCollision sha1 base sig.block_size
    → sig.block_size < int_max
    → Rebuilds base sig.block_size target
        (deltify sha1 (record { left = target; fails = false }) sig)
unfolding deltify deltify_checked emit_all_as_data new_window
deltify-Rebuilds sha1 sig base target d n small =
    rw (validate_described sha1 sig base d) (elim (Bool-cases (length sig.hashes == 0)) [
      | inl none_there ↦ rw none_there (
          emit_all_loop-Rebuilds base sig.block_size (suc (length target)) target [] (omega arith)
            tt)
      | inr there ↦
          let (t, returns, good, same) =
            scan-Done sha1 sig base d n (build_weak_map 0 sig.hashes (λ _. []))
              (length target * 2 + 2) (new_window (record { left = target; fails = false }))
              empty_sink (new_window-IsOpen target) (record { fits = tt; run = tt })
              (omega arith) in
          let (whole, fits) = close_lem base sig.block_size t good in
          rw (there, with_ints_small sig d.bounded small)
            (rw returns
              (record { ops = close t; returned = refl; fits = fits; exact = whole ∙ same }))
    ])
