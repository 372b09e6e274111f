-- ===== src/Rsync/Deltify/Replay.antt =====
-- lib/rsync/engine.go, the closures of `Deltify`: what has been emitted, the run of blocks and the
-- unmatched bytes, against the part of the target that has been read.
use syncthing_mem.Base.{
  ℕ, zero, suc, ◌+◌, ◌*◌, ◌≤◌, ◌<◌, ◌≡◌, refl, sym, ap, ◌∙◌, true, Option, none, some, List, [],
  ◌∷◌, ◌++◌, append-nil, append_assoc, length, drop, leb, ◌==◌, arith, Bool-cases, inl, inr, ==→eq,
  length-take, length-drop, take-append-drop, Option-cases,
}
use syncthing_mem.Rsync.{Bytes, Operation, block}
use syncthing_mem.Rsync.Blocks.{
  block_at, blocks_at, blocks_at-suc, expand, Fits, expand-append, Fits-append,
}
use syncthing_mem.Rsync.Deltify.{
  max_data_operation_size, Sink, flush_block, literals, emit_data, flush_pending, extend_run,
  emit_block, add_literal, close,
}

-- A sink with its run of blocks emitted.
abbrev flushed_ops : Option (ℕ × ℕ) → List Operation
flushed_ops none = []
flushed_ops (some (start, count)) = block start count ∷ []

flush_block_lem :
    (s : Sink)
    → flush_block s ≡ record {
      pending = s.pending;
      pending_block = none;
      ops = s.ops ++ flushed_ops s.pending_block;
    }
unfolding flush_block
flush_block_lem s = elim (Option-cases s.pending_block) [
  | inl e ↦
      rw (e, flush_block)
        (λ i. record { pending = s.pending; pending_block = e i; ops = sym (append-nil s.ops) i })
  | inr (r, e) ↦ rw (e, flush_block)
]

module _ (base : Bytes) (size : ℕ) where
  abbrev pub run_bytes : Option (ℕ × ℕ) → Bytes
  run_bytes none = []
  run_bytes (some (start, count)) = blocks_at base size start count

  abbrev pub RunFits : Option (ℕ × ℕ) → Type 0
  RunFits none = Unit
  RunFits (some (start, count)) = (0 < count) × ((start + count) * size < length base + size)

  -- The bytes that a sink stands for.
  abbrev pub stands : Sink → Bytes
  stands s = expand base size s.ops ++ (run_bytes s.pending_block ++ s.pending)

  pub record IsGood (s : Sink) : Type 0 where
    pub fits : Fits base size s.ops
    pub run : RunFits s.pending_block

  expand-flushed_ops : (r : Option (ℕ × ℕ)) → expand base size (flushed_ops r) ≡ run_bytes r
  expand-flushed_ops none = refl
  expand-flushed_ops (some (start, count)) = append-nil _

  Fits-flushed_ops : (r : Option (ℕ × ℕ)) → RunFits r → Fits base size (flushed_ops r)
  Fits-flushed_ops none h = tt
  Fits-flushed_ops (some (start, count)) (a, b) = (a, b, tt)

  expand-literals :
      (f limit : ℕ) (bytes : Bytes)
      → 0 < limit
      → length bytes ≤ f
      → expand base size (literals f limit bytes) ≡ bytes
  unfolding literals
  expand-literals zero limit [] h g = refl
  expand-literals zero limit (v ∷ bytes) h g = absurd (omega arith)
  expand-literals (suc f) limit [] h g = refl
  expand-literals (suc f) limit (v ∷ bytes) h g =
      rw
        (expand-literals f limit (drop limit (v ∷ bytes)) h
          (omega (arith, length-drop {0} limit (v ∷ bytes))))
        (take-append-drop limit (v ∷ bytes))

  Fits-literals :
      (f limit : ℕ) (bytes : Bytes)
      → 0 < limit
      → limit ≤ 1024 * 1024
      → Fits base size (literals f limit bytes)
  unfolding literals
  Fits-literals zero limit bytes h g = tt
  Fits-literals (suc f) limit [] h g = tt
  Fits-literals (suc f) limit (v ∷ bytes) h g = (
    omega (arith, length-take {0} limit (v ∷ bytes)),
    omega (arith, length-take {0} limit (v ∷ bytes)),
    Fits-literals f limit (drop limit (v ∷ bytes)) h g,
  )

  -- `emitData` behind the run of blocks.
  emit_data-stands :
      (s : Sink) (bytes : Bytes)
      → expand base size (emit_data bytes s).ops
        ≡ expand base size s.ops ++ (run_bytes s.pending_block ++ bytes)
  unfolding emit_data
  emit_data-stands s bytes = rw (flush_block_lem s) (
      rw
        (
          expand-append base size (s.ops ++ flushed_ops s.pending_block),
          expand-append base size s.ops,
          expand-flushed_ops,
          expand-literals (length bytes) max_data_operation_size bytes (omega arith) (omega arith),
        )
        (append_assoc (expand base size s.ops) (run_bytes s.pending_block) bytes))

  emit_data-Fits : (s : Sink) (bytes : Bytes) → IsGood s → Fits base size (emit_data bytes s).ops
  unfolding emit_data
  emit_data-Fits s bytes g = rw (flush_block_lem s) (
      Fits-append base size _ _
        (Fits-append base size _ _ g.fits (Fits-flushed_ops s.pending_block g.run))
        (Fits-literals (length bytes) max_data_operation_size bytes (omega arith) (omega arith)))

  emit_data-block : (s : Sink) (bytes : Bytes) → (emit_data bytes s).pending_block ≡ none
  unfolding emit_data
  emit_data-block s bytes = rw (flush_block_lem s)

  -- What `flushPending` keeps: a good sink that stands for the same bytes, with nothing unmatched.
  record Flushed (s t : Sink) : Type 0 where
    good : IsGood t
    same : stands t ≡ stands s
    empty : t.pending ≡ []

  flush_pending-Flushed : (s : Sink) → IsGood s → Flushed s (flush_pending s)
  unfolding flush_pending
  flush_pending-Flushed s g = elim (Bool-cases (length s.pending == 0)) [
    | inl e ↦ rw (e, flush_pending) (record { good = g; same = refl; empty = empty_of s.pending e })
    | inr e ↦
        rw (e, flush_pending)
          (record {
            good = record {
              fits = emit_data-Fits s s.pending g;
              run = rw (emit_data-block s s.pending) tt;
            };
            same = rw (emit_data-block s s.pending, append-nil) (emit_data-stands s s.pending);
            empty = refl;
          })
  ]
    where
      empty_of : (l : Bytes) → (length l == 0) ≡ true → l ≡ []
      empty_of [] h = refl
      empty_of (x ∷ l) h = absurd (ground arith)

  -- A sink that is good and stands for `bytes` behind what another stands for.
  pub record Extends (s : Sink) (bytes : Bytes) (t : Sink) : Type 0 where
    pub good : IsGood t
    pub more : stands t ≡ stands s ++ bytes

  pub add_literal-Extends :
      (s : Sink) (bytes : Bytes) → IsGood s → Extends s bytes (add_literal bytes s)
  unfolding add_literal
  add_literal-Extends s bytes g =
      let grown : Sink = record s { pending = s.pending ++ bytes } in
      let g' : IsGood grown = record { fits = g.fits; run = g.run } in
      let same : stands grown ≡ stands s ++ bytes = rw (
        append_assoc (expand base size s.ops) _ bytes,
        append_assoc (run_bytes s.pending_block) s.pending bytes,
      ) in
      elim (Bool-cases (leb max_data_operation_size (length (s.pending ++ bytes)))) [
        | inl e ↦
            let f = flush_pending-Flushed grown g' in
            rw e (record { good = f.good; more = f.same ∙ same })
        | inr e ↦ rw e (record { good = g'; more = same })
      ]

  -- A sink with nothing unmatched: its run of blocks ends what it stands for.
  stands-empty :
      (t : Sink) → t.pending ≡ [] → stands t ≡ expand base size t.ops ++ run_bytes t.pending_block
  stands-empty t e = rw (e, append-nil (run_bytes t.pending_block))

  start_run :
      (t : Sink) (i : ℕ)
      → IsGood t
      → t.pending ≡ []
      → i * size < length base
      → Extends t (block_at base size i) (record (flush_block t) { pending_block = some (i, 1) })
  start_run t i g e lt = rw (flush_block_lem t) (record {
    good = record {
      fits = Fits-append base size _ _ g.fits (Fits-flushed_ops t.pending_block g.run);
      run = (omega arith, grind arith);
    };
    more =
        rw (
          expand-append base size t.ops,
          expand-flushed_ops,
          e,
          append-nil,
          append-nil,
          append-nil,
        );
  })

  grows :
      (start count : ℕ)
      → blocks_at base size start (count + 1)
        ≡ blocks_at base size start count ++ block_at base size (start + count)
  grows start count =
      let e : count + 1 ≡ suc count = omega arith in rw e (blocks_at-suc base size start count)

  grow_run :
      (t : Sink) (start count : ℕ)
      → IsGood t
      → t.pending ≡ []
      → t.pending_block ≡ some (start, count)
      → (start + count) * size < length base
      → Extends t
          (block_at base size (start + count))
          (record t { pending_block = some (start, count + 1) })
  grow_run t start count g e run lt = record {
    good = record { fits = g.fits; run = (omega arith, grind arith) };
    more =
        rw
          (
            e,
            run,
            append-nil (blocks_at base size start (count + 1)),
            append-nil (blocks_at base size start count),
            append_assoc (expand base size t.ops) (blocks_at base size start count)
                (block_at base size (start + count)),
          )
          (ap (λ b. expand base size t.ops ++ b) (grows start count));
  }

  extend_run-Extends :
      (t : Sink) (i : ℕ) (r : Option (ℕ × ℕ))
      → IsGood t
      → t.pending ≡ []
      → t.pending_block ≡ r
      → i * size < length base
      → Extends t (block_at base size i) (extend_run i t r)
  unfolding extend_run
  extend_run-Extends t i none g e run lt = start_run t i g e lt
  extend_run-Extends t i (some (start, count)) g e run lt = elim (Bool-cases (start + count == i)) [
    | inl next ↦
        let same = ==→eq (start + count) i next in
        rw next (rw same at (grow_run t start count g e run (rw (← same) at lt)))
    | inr jump ↦ rw jump (start_run t i g e lt)
  ]

  pub emit_block-Extends :
      (s : Sink) (i : ℕ)
      → IsGood s
      → i * size < length base
      → Extends s (block_at base size i) (emit_block i s)
  unfolding emit_block
  emit_block-Extends s i g lt =
      let f = flush_pending-Flushed s g in
      let x = extend_run-Extends (flush_pending s) i _ f.good f.empty refl lt in
      record { good = x.good; more = x.more ∙ ap (λ d. d ++ block_at base size i) f.same }

  -- At the end all that the sink stands for has been emitted.
  pub close_lem :
      (s : Sink) → IsGood s → (expand base size (close s) ≡ stands s) × Fits base size (close s)
  unfolding close
  close_lem s g =
      let f = flush_pending-Flushed s g in
      let t = flush_pending s in
      let ops = ap (λ (u : Sink). u.ops) (flush_block_lem t) in
      (
        ap (expand base size) ops
            ∙ expand-append base size t.ops _
            ∙ ap (λ d. expand base size t.ops ++ d) (expand-flushed_ops t.pending_block)
            ∙ sym (stands-empty t f.empty)
            ∙ f.same,
        rw ops
            (Fits-append base size _ _ f.good.fits (Fits-flushed_ops t.pending_block f.good.run)),
      )
