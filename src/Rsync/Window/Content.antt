-- ===== src/Rsync/Window/Content.antt =====
-- lib/rsync/engine.go, `deltaWindow`: what the window shows of the target.
use syncthing_mem.Base.{
  ℕ, zero, suc, ◌+◌, ◌≤◌, max, ◌≡◌, refl, sym, ap, ◌∙◌, ◌⊎◌, inl, inr, Bool, true, false, not, ◌&&◌,
  [], ◌++◌, append_assoc, length, take, drop, ltb, if◌then◌else◌, arith, Bool-cases, ltb→lt, ltb→ge,
  ge→ltb, length-append, length-take, length-drop, take-append_le, drop-append_le, drop-drop,
  take-append-drop, take_of_length-le, drop_of_length-le,
}
use syncthing_mem.Rsync.{Bytes, ok}
use syncthing_mem.Rsync.Read.{read_full_whole, read_full_short}
use syncthing_mem.Rsync.Window.{
  Window, new_window, available, compact, refill, ensure_loop, ensure, peek, advance,
  delta_read_chunk,
}

drop-nil : (n : ℕ) → drop {A = ℕ} n [] ≡ []
drop-nil zero = refl
drop-nil (suc n) = refl

-- The bytes of the target from the cursor on.
abbrev pub content : Window → Bytes
content w = drop w.pos w.buf ++ w.source.left

-- The cursor is inside the buffer, the reader does not fail, and the end was seen only if it is there.
pub record IsOpen (w : Window) : Type 0 where
  pub inside : w.pos ≤ length w.buf
  pub sound : w.source.fails ≡ false
  pub ended : w.eof ≡ true → w.source.left ≡ []

pub new_window-IsOpen : (l : Bytes) → IsOpen (new_window (record { left = l; fails = false }))
unfolding new_window
new_window-IsOpen l = record { inside = omega arith; sound = refl; ended = λ h. cc }

module _ (w : Window) where
  compact_lem :
      w.pos ≤ length w.buf
      → compact w ≡ record { source = w.source; buf = drop w.pos w.buf; pos = 0; eof = w.eof }
  unfolding compact
  compact_lem h = elim (Bool-cases (ltb 0 w.pos)) [
    | inl e ↦ rw (e, compact)
    | inr e ↦
        let z : w.pos ≡ 0 = ground arith in
        rw (e, compact)
          (λ i. record { source = w.source; buf = drop (sym z i) w.buf; pos = z i; eof = w.eof })
  ]

  -- The window after a refill, in both of its outcomes.
  abbrev grown : ℕ → Window
  grown n = record {
    source = record { left = drop (max n delta_read_chunk) w.source.left; fails = false };
    buf = drop w.pos w.buf ++ take (max n delta_read_chunk) w.source.left;
    pos = 0;
    eof = if ltb (length w.source.left) (max n delta_read_chunk) then true else w.eof;
  }

  refill-grown : (n : ℕ) → IsOpen w → refill n w ≡ ok (grown n)
  unfolding refill
  refill-grown n o =
      let want = max n delta_read_chunk in
      let source : w.source ≡ record { left = w.source.left; fails = false } =
        λ i. record { left = w.source.left; fails = o.sound i } in
      rw (compact_lem o.inside, refill)
        (rw source (elim (Bool-cases (ltb (length w.source.left) want)) [
          | inl part ↦
              let lt = ltb→lt _ _ part in
              rw (part, read_full_short want w.source.left lt)
                (rw (
                  take_of_length-le want w.source.left (omega arith),
                  drop_of_length-le want w.source.left (omega arith),
                ))
          | inr whole ↦ rw (whole, read_full_whole want w.source.left false (ltb→ge _ _ whole))
        ]))

  -- Compacting and reading move the boundary between buffer and reader, and lose nothing.
  content-grown : (n : ℕ) → content (grown n) ≡ content w
  content-grown n =
      append_assoc (drop w.pos w.buf) _ _
      ∙ ap (λ t. drop w.pos w.buf ++ t) (take-append-drop (max n delta_read_chunk) w.source.left)

  grown-IsOpen : (n : ℕ) → IsOpen w → IsOpen (grown n)
  grown-IsOpen n o = record {
    inside = omega arith;
    sound = refl;
    ended = λ h. elim (Bool-cases (ltb (length w.source.left) (max n delta_read_chunk))) [
      | inl part ↦
          drop_of_length-le (max n delta_read_chunk) w.source.left
            (let lt = ltb→lt _ _ part in omega arith)
      | inr whole ↦
          let old : w.eof ≡ true = rw whole at h in
          rw (o.ended old) (drop-nil (max n delta_read_chunk))
    ];
  }

  -- After one refill the window holds `n` bytes, or the reader is at its end.
  grown_enough : (n : ℕ) → (n ≤ available (grown n)) ⊎ ((grown n).eof ≡ true)
  grown_enough n = elim (Bool-cases (ltb (length w.source.left) (max n delta_read_chunk))) [
    | inl part ↦ inr (rw part)
    | inr whole ↦
        let le = ltb→ge _ _ whole in
        inl (
          omega (
            arith,
            length-append {0} (drop w.pos w.buf) (take (max n delta_read_chunk) w.source.left),
            length-take {0} (max n delta_read_chunk) w.source.left,
          ))
  ]

-- What `ensure` promises of the window that it returns.
pub record Ensured (n : ℕ) (w w' : Window) : Type 0 where
  pub open_window : IsOpen w'
  pub same : content w' ≡ content w
  pub enough : (n ≤ available w') ⊎ (w'.source.left ≡ [])

abbrev wants_more : ℕ → Window → Bool
wants_more n w = ltb (available w) n && not w.eof

ensure_loop_stops : (f n : ℕ) (w : Window) → wants_more n w ≡ false → ensure_loop f n w ≡ ok w
unfolding ensure_loop
ensure_loop_stops zero n w h = refl
ensure_loop_stops (suc f) n w h = rw (h, ensure_loop)

enough_of_stop :
    (n : ℕ) (w : Window)
    → IsOpen w
    → wants_more n w ≡ false
    → (n ≤ available w) ⊎ (w.source.left ≡ [])
enough_of_stop n w o h = elim (Bool-cases (ltb (available w) n)) [
  | inl less ↦ inr (o.ended (ground arith))
  | inr more ↦ inl (ltb→ge _ _ more)
]

and_not : (b e : Bool) → e ≡ true → (b && not e) ≡ false
and_not true true h = refl
and_not true false h = cc
and_not false e h = refl

grown_stops : (n : ℕ) (w : Window) → wants_more n (grown w n) ≡ false
grown_stops n w = elim (grown_enough w n) [
  | inl le ↦ rw (ge→ltb (available (grown w n)) n le)
  | inr e ↦ and_not _ _ e
]

-- `ensure` does not fail on a reader that does not, shows the same bytes, and stops only with `n`
-- bytes at hand or at the end of the target.
pub ensure-Ensured :
    (n : ℕ) (w : Window) → IsOpen w → (w' : Window) × (ensure n w ≡ ok w') × Ensured n w w'
unfolding ensure ensure_loop
ensure-Ensured n w o = elim (Bool-cases (wants_more n w)) [
  | inr stop ↦ (
    w,
    rw (stop, ensure_loop),
    record { open_window = o; same = refl; enough = enough_of_stop n w o stop },
  )
  | inl go ↦ (
    grown w n,
    rw (go, ensure_loop)
        (rw (refill-grown w n o) (ensure_loop_stops 1 n (grown w n) (grown_stops n w))),
    record {
      open_window = grown-IsOpen w n o;
      same = content-grown w n;
      enough = enough_of_stop n (grown w n) (grown-IsOpen w n o) (grown_stops n w);
    },
  )
]

module _ (w : Window) (o : IsOpen w) where
  length-content : length (content w) ≡ available w + length w.source.left
  length-content = omega (
    arith,
    o.inside,
    length-append {0} (drop w.pos w.buf) w.source.left,
    length-drop {0} w.pos w.buf,
  )

  pub available-le : available w ≤ length (content w)
  available-le = omega (arith, length-content)

  pub available_at_end : w.source.left ≡ [] → available w ≡ length (content w)
  available_at_end e = omega (arith, length-content, ap {A = Bytes} length e)

  pub peek-content : (n : ℕ) → n ≤ available w → peek n w ≡ take n (content w)
  unfolding peek
  peek-content n h = sym (
      take-append_le n (drop w.pos w.buf) w.source.left
        (omega (arith, length-drop {0} w.pos w.buf)))

  pub content-advance : (n : ℕ) → n ≤ available w → content (advance n w) ≡ drop n (content w)
  unfolding advance
  content-advance n h = rw (← drop-drop w.pos n w.buf) (
      sym (
        drop-append_le n (drop w.pos w.buf) w.source.left
          (omega (arith, length-drop {0} w.pos w.buf))))

  pub advance-IsOpen : (n : ℕ) → n ≤ available w → IsOpen (advance n w)
  unfolding advance
  advance-IsOpen n h = record { inside = omega (arith, o.inside); sound = o.sound; ended = o.ended }
