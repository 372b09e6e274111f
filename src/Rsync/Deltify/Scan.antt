-- ===== src/Rsync/Deltify/Scan.antt =====
-- lib/rsync/engine.go, the two loops of `Deltify` against the target.
use syncthing_mem.Base.{
  ℕ, zero, suc, ◌+◌, ◌-◌, ◌*◌, ◌≤◌, ◌<◌, ◌≡◌, refl, sym, ap, ◌∙◌, ◌⊎◌, inl, inr, some, List, [],
  ◌∷◌, ◌++◌, append-nil, append_assoc, length, ltb, ◌==◌, arith, Bool-cases, Option-cases, ==→eq,
  ltb→ge, take-append-drop, length-drop,
}
use syncthing_mem.Rsync.{Bytes, Signature, Result, ok}
use syncthing_mem.Rsync.Blocks.{block_at}
use syncthing_mem.Rsync.Rolling.{RollingHash, sum}
use syncthing_mem.Rsync.Generate.Blocks.{Describes}
use syncthing_mem.Rsync.Window.{Window, available, peek, advance}
use syncthing_mem.Rsync.Window.Content.{
  content, IsOpen, Ensured, ensure-Ensured, available-le, available_at_end, peek-content,
  content-advance, advance-IsOpen,
}
use syncthing_mem.Rsync.Deltify.{
  Sink, emit_block, add_literal, match_block_with_weak, match_short, scan, slide,
}
use syncthing_mem.Rsync.Deltify.Match.{NoCollision, match_block_with_weak_sound, match_block_sound}
use syncthing_mem.Rsync.Deltify.Replay.{IsGood, stands, emit_block-Extends, add_literal-Extends}

module _ (sha1 : Bytes → Bytes) (sig : Signature) (base : Bytes) (d : Describes sha1 sig base)
    (n : NoCollision sha1 base sig.block_size) (weak_map : ℕ → List ℕ) where
  abbrev pub size : ℕ
  size = sig.block_size

  -- A run that returns a sink which also stands for all that the window shows.
  abbrev pub Done : Window → Sink → Result Sink → Type 0
  Done w s r =
      (t : Sink) × (r ≡ ok t)
      × IsGood base size t
      × (stands base size t ≡ stands base size s ++ content w)

  -- A round that moves `bytes` from the window to the sink leaves the rest to do.
  Done-step :
      (w w' : Window) (s s' : Sink) (bytes : Bytes) (r : Result Sink)
      → stands base size s' ≡ stands base size s ++ bytes
      → content w ≡ bytes ++ content w'
      → Done w' s' r
      → Done w s r
  Done-step w w' s s' bytes r e c (t, returns, good, same) =
      (t, returns, good, same ∙ rw (e, c) (append_assoc (stands base size s) bytes (content w')))

  content_split :
      (w : Window) (o : IsOpen w) (k : ℕ)
      → k ≤ available w
      → content w ≡ peek k w ++ content (advance k w)
  content_split w o k h =
      rw (peek-content w o k h, content-advance w o k h) (sym (take-append-drop k (content w)))

  length-advance :
      (w : Window) (o : IsOpen w) (k : ℕ)
      → k ≤ available w
      → length (content (advance k w)) ≡ length (content w) - k
  length-advance w o k h = rw (content-advance w o k h) (length-drop k (content w))

  match_short_sound :
      (w : Window) (i : ℕ)
      → match_short sha1 sig weak_map w ≡ some i
      → (peek sig.last_block_size w ≡ block_at base size i)
        × (i * size < length base)
        × (0 < sig.last_block_size)
        × (sig.last_block_size ≤ available w)
  unfolding match_short
  match_short_sound w i e =
      ground (arith, match_block_sound sha1 sig base d n weak_map (peek sig.last_block_size w) i)

  -- The outcomes of a round: a block is matched, or bytes become literal.
  matched :
      (w : Window) (s : Sink) (o : IsOpen w) (g : IsGood base size s) (k i : ℕ) (r : Result Sink)
      → k ≤ available w
      → peek k w ≡ block_at base size i
      → i * size < length base
      → Done (advance k w) (emit_block i s) r
      → Done w s r
  matched w s o g k i r le same lt done =
      Done-step w (advance k w) s (emit_block i s) (block_at base size i) r
        (emit_block-Extends base size s i g lt).more
        (content_split w o k le ∙ ap (λ b. b ++ content (advance k w)) same) done

  unmatched :
      (w : Window) (s : Sink) (o : IsOpen w) (g : IsGood base size s) (k : ℕ) (r : Result Sink)
      → k ≤ available w
      → Done (advance k w) (add_literal (peek k w) s) r
      → Done w s r
  unmatched w s o g k r le done =
      Done-step w (advance k w) s (add_literal (peek k w) s) (peek k w) r
        (add_literal-Extends base size s (peek k w) g).more (content_split w o k le) done

  -- Looking for more bytes changes nothing that is to be done.
  Done-Ensured :
      (k : ℕ) (w w' : Window) (s : Sink) (r : Result Sink)
      → Ensured k w w'
      → Done w' s r
      → Done w s r
  Done-Ensured k w w' s r en (t, returns, good, same) =
      (t, returns, good, same ∙ ap (λ c. stands base size s ++ c) en.same)

  nothing_left :
      (w : Window)
      → IsOpen w
      → available w ≡ 0
      → (size ≤ available w) ⊎ (w.source.left ≡ [])
      → content w ≡ []
  nothing_left w o z (inl le) = absurd (omega (arith, d.positive))
  nothing_left w o z (inr e) = empty_of (content w) (sym (available_at_end w o e) ∙ z)
    where
      empty_of : (l : Bytes) → length l ≡ 0 → l ≡ []
      empty_of [] h = refl
      empty_of (x ∷ l) h = absurd (omega arith)

  mutual
    unfolding scan slide

    pub scan-Done :
        (f : ℕ) (w : Window) (s : Sink)
        → IsOpen w
        → IsGood base size s
        → length (content w) * 2 + 2 ≤ f
        → Done w s (scan sha1 sig weak_map f w s)
    scan-Done zero w s o g h = absurd (omega arith)
    scan-Done (suc f) w s o g h =
        let (v, e, en) = ensure-Ensured size w o in
        let p = en.open_window in
        let len : length (content v) ≡ length (content w) = ap length en.same in
        let room = available-le v p in
        rw (e, scan)
          (Done-Ensured size w v s _ en (elim (Bool-cases (available v == 0)) [
            | inl z ↦ rw z (
              s,
              refl,
              g,
              rw (
                nothing_left v p (==→eq (available v) 0 z) en.enough,
                append-nil (stands base size s),
              ),
            )
            | inr more ↦ rw more (elim (Bool-cases (ltb (available v) size)) [
              | inl part ↦ rw part (elim (Option-cases (match_short sha1 sig weak_map v)) [
                | inl miss ↦ rw miss (
                    unmatched v s p g (available v) _ (omega arith) (
                      scan-Done f (advance (available v) v) (add_literal (peek (available v) v) s)
                        (advance-IsOpen v p (available v) (omega arith))
                        (add_literal-Extends base size s (peek (available v) v) g).good
                        (ground (arith, length-advance v p (available v) (omega arith)))))
                | inr (i, hit) ↦
                    let (same, inside, pos, le) = match_short_sound v i hit in
                    rw hit (
                      matched v s p g sig.last_block_size i _ le same inside (
                        scan-Done f (advance sig.last_block_size v) (emit_block i s)
                          (advance-IsOpen v p sig.last_block_size le)
                          (emit_block-Extends base size s i g inside).good
                          (omega (arith, length-advance v p sig.last_block_size le))))
              ])
              | inr whole ↦
                  rw whole (slide-Done f v _ s p g (ltb→ge (available v) size whole) (omega arith))
            ])
          ]))

    slide-Done :
        (f : ℕ) (w : Window) (rh : RollingHash) (s : Sink)
        → IsOpen w
        → IsGood base size s
        → size ≤ available w
        → length (content w) * 2 + 1 ≤ f
        → Done w s (slide sha1 sig weak_map f w rh s)
    slide-Done zero w rh s o g le h = absurd (omega arith)
    slide-Done (suc f) w rh s o g le h =
        let room = available-le w o in
        elim (Option-cases (match_block_with_weak sha1 (peek size w) (sum rh) weak_map sig)) [
          | inr (i, hit) ↦
              let (same, inside) =
                match_block_with_weak_sound sha1 sig base d n weak_map _ _ i hit in
              rw (hit, slide)
                (matched w s o g size i _ le same inside (
                  scan-Done f (advance size w) (emit_block i s) (advance-IsOpen w o size le)
                    (emit_block-Extends base size s i g inside).good
                    (omega (arith, d.positive, length-advance w o size le))))
          | inl miss ↦
              rw (miss, slide)
                (elim (Option-cases (match_short sha1 sig weak_map w)) [
                  | inr (i, hit) ↦
                      let (same, inside, pos, le') = match_short_sound w i hit in
                      rw hit (
                        matched w s o g sig.last_block_size i _ le' same inside (
                          scan-Done f (advance sig.last_block_size w) (emit_block i s)
                            (advance-IsOpen w o sig.last_block_size le')
                            (emit_block-Extends base size s i g inside).good
                            (omega (arith, length-advance w o sig.last_block_size le'))))
                  | inl none_short ↦
                      let one : 1 ≤ available w = omega (arith, d.positive) in
                      let (v, e, en) =
                        ensure-Ensured size (advance 1 w) (advance-IsOpen w o 1 one) in
                      let len : length (content v) ≡ length (content (advance 1 w)) =
                        ap length en.same in
                      let shorter = length-advance w o 1 one in
                      let g' = (add_literal-Extends base size s (peek 1 w) g).good in
                      rw none_short (
                        rw e (
                          unmatched w s o g 1 _ one (
                            Done-Ensured size (advance 1 w) v (add_literal (peek 1 w) s) _ en
                              (elim (Bool-cases (ltb (available v) size)) [
                                | inl part ↦
                                    rw part (scan-Done f v _ en.open_window g' (omega arith))
                                | inr whole ↦ rw whole (
                                    slide-Done f v _ _ en.open_window g'
                                      (ltb→ge (available v) size whole) (omega arith))
                              ]))))
                ])
        ]
