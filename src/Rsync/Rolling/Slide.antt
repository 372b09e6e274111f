-- ===== src/Rsync/Rolling/Slide.antt =====
-- lib/rsync/rolling.go: rolling the window against writing it afresh.
use mathlib.Core.List.{foldl}
use native.Mathlib.Nat.{div-add-mod, mul_comm, mod-eq_of_lt, mod_self}
use syncthing_mem.Base.{
  ℕ, suc, ◌+◌, ◌-◌, ◌*◌, ◌%◌, ◌^◌, ◌<◌, ◌≡◌, refl, sym, ap, ◌∙◌, [], ◌∷◌, ◌++◌, append-nil,
  append_assoc, length, get_or, set, replicate, drop, ltb, arith, if◌then◌else◌, length-append,
  length-drop, lt→ltb, length-replicate,
}
use syncthing_mem.Rsync.{Bytes, u16_mod}
use syncthing_mem.Rsync.Rolling.{
  RollingHash, new_rolling_hash, reset, u16, write_from, write, roll, sum,
}

total : Bytes → ℕ
total [] = 0
total (v ∷ d) = v + total d

-- Each byte weighted with the number of bytes from it to the end.
weighted : Bytes → ℕ
weighted [] = 0
weighted (v ∷ d) = suc (length d) * v + weighted d

total-append : (d : Bytes) (x : ℕ) → total (d ++ x ∷ []) ≡ total d + x
unfolding total
total-append [] x = omega arith
total-append (v ∷ d) x = omega (arith, total-append d x)

weighted-append : (d : Bytes) (x : ℕ) → weighted (d ++ x ∷ []) ≡ weighted d + total d + x
unfolding total weighted
weighted-append [] x = omega arith
weighted-append (v ∷ d) x = rw (length-append d (x ∷ [])) (omega (arith, weighted-append d x))

mul-u16_left : (n v : ℕ) → u16 (u16 n * v) ≡ u16 (n * v)
mul-u16_left n v = omega (arith, ap (λ (t : ℕ). t * v) (div-add-mod n u16_mod))

mul-u16 : (n v : ℕ) → u16 (u16 n * u16 v) ≡ u16 (n * v)
mul-u16 n v =
    mul-u16_left n (u16 v) ∙ ap u16 (mul_comm n (u16 v)) ∙ mul-u16_left v n ∙ ap u16 (mul_comm v n)

-- A checksum that stands for the bytes `d`: they are the ring from `pos` on, and round.
record Tracks (r : RollingHash) (d : Bytes) : Type 0 where
  before : Bytes
  after : Bytes
  split : r.window ≡ before ++ after
  at : r.pos ≡ length before
  order : d ≡ after ++ before
  nonempty : 0 < length after
  size : r.block_size ≡ length d
  sum_a : r.a ≡ u16 (total d)
  sum_b : r.b ≡ u16 (weighted d)

set-append : (p q : Bytes) (out x : ℕ) → set (p ++ out ∷ q) (length p) x ≡ p ++ x ∷ q
set-append [] q out x = refl
set-append (y ∷ p) q out x = ap (◌∷◌ y) (set-append p q out x)

get_or-append : (p q : Bytes) (out d : ℕ) → get_or (p ++ out ∷ q) (length p) d ≡ out
get_or-append [] q out d = refl
get_or-append (y ∷ p) q out d = get_or-append p q out d

-- One round of the second loop of `Write`.
step : ℕ → ℕ → ℕ → RollingHash → RollingHash
step n i v r = record r {
  a = u16 (r.a + u16 v);
  b = u16 (r.b + u16 (u16 (n - i) * u16 v));
  window = if ltb i (length r.window) then set r.window i v else r.window;
}

-- What the second loop of `Write` does to each field.
write_from_kept :
    (n i : ℕ) (d : Bytes) (r : RollingHash)
    → ((write_from n i d r).pos ≡ r.pos) × ((write_from n i d r).block_size ≡ r.block_size)
unfolding write_from
write_from_kept n i [] r = (refl, refl)
write_from_kept n i (v ∷ d) r = write_from_kept n (suc i) d _

write_from_a :
    (n i : ℕ) (d : Bytes) (r : RollingHash)
    → r.a < u16_mod
    → (write_from n i d r).a ≡ u16 (r.a + total d)
unfolding write_from total
write_from_a n i [] r h = omega arith
write_from_a n i (v ∷ d) r h = write_from_a n (suc i) d _ (omega arith) ∙ omega arith

write_from_b :
    (n i : ℕ) (d : Bytes) (r : RollingHash)
    → r.b < u16_mod
    → n ≡ i + length d
    → (write_from n i d r).b ≡ u16 (r.b + weighted d)
unfolding write_from weighted
write_from_b n i [] r h e = omega arith
write_from_b n i (v ∷ d) r h e =
    let left : n - i ≡ suc (length d) = omega arith in
    write_from_b n (suc i) d _ (omega arith) (omega arith)
    ∙ rw (left, mul-u16 (suc (length d)) v) (omega arith)

write_from_window :
    (n i : ℕ) (d pre rest : Bytes) (r : RollingHash)
    → i ≡ length pre
    → length rest ≡ length d
    → r.window ≡ pre ++ rest
    → (write_from n i d r).window ≡ pre ++ d
unfolding write_from step
write_from_window n i [] pre [] r hi hr hw = hw
write_from_window n i [] pre (x ∷ rest) r hi hr hw = absurd (omega arith)
write_from_window n i (v ∷ d) pre [] r hi hr hw = absurd (omega arith)
write_from_window n i (v ∷ d) pre (x ∷ rest) r hi hr hw =
    write_from_window n (suc i) d (pre ++ v ∷ []) rest (step n i v r)
      (omega (arith, length-append {0} pre (v ∷ []))) (omega arith)
      (rw (
        hw,
        hi,
        length-append pre (x ∷ rest),
        lt→ltb (length pre) (length pre + suc (length rest)) (omega arith),
        set-append pre rest x v,
        append_assoc pre (v ∷ []) rest,
      ))
    ∙ append_assoc pre (v ∷ []) d

write-Tracks :
    (r : RollingHash) (d : Bytes)
    → length r.window ≡ length d
    → r.block_size ≡ length d
    → 0 < length d
    → Tracks (write r d) d
unfolding write reset
write-Tracks r d hw hb pos = record {
  before = [];
  after = d;
  split =
      write_from_window (length d) 0 d [] (replicate (length r.window) 0) _ refl
        (length-replicate (length r.window) 0 ∙ hw) refl;
  at = (write_from_kept (length d) 0 d _).0;
  order = sym (append-nil d);
  nonempty = pos;
  size = (write_from_kept (length d) 0 d _).1 ∙ hb;
  sum_a = write_from_a (length d) 0 d _ (omega arith) ∙ omega arith;
  sum_b = write_from_b (length d) 0 d _ (omega arith) (omega arith) ∙ omega arith;
}

roll_a :
    (r : RollingHash) (v : ℕ) (d : Bytes) (x : ℕ)
    → get_or r.window r.pos 0 ≡ v
    → r.a ≡ u16 (total (v ∷ d))
    → (roll r x).a ≡ u16 (total (d ++ x ∷ []))
unfolding roll total
roll_a r v d x out ha = rw (out, ha, total-append d x) (omega arith)

roll_b :
    (r : RollingHash) (v : ℕ) (d : Bytes) (x : ℕ)
    → get_or r.window r.pos 0 ≡ v
    → r.a ≡ u16 (total (v ∷ d))
    → r.b ≡ u16 (weighted (v ∷ d))
    → r.block_size ≡ suc (length d)
    → (roll r x).b ≡ u16 (weighted (d ++ x ∷ []))
unfolding roll total weighted
roll_b r v d x out ha hb size =
    rw (out, ha, hb, size, weighted-append d x, mul-u16 (suc (length d)) v) (omega arith)

wraps : (n : ℕ) → (n + 1) % suc n ≡ 0
wraps n = let e : n + 1 ≡ suc n = omega arith in rw e (mod_self (suc n))

-- `Roll` follows the window one byte on: before the end of the ring, or back to its start.
roll-Tracks :
    (r : RollingHash) (v : ℕ) (d : Bytes) (x : ℕ)
    → Tracks r (v ∷ d)
    → Tracks (roll r x) (d ++ x ∷ [])
roll-Tracks r v d x t = go t.before t.after t.split t.at t.order t.nonempty
  where
    go :
        (p q : Bytes)
        → r.window ≡ p ++ q
        → r.pos ≡ length p
        → v ∷ d ≡ q ++ p
        → 0 < length q
        → Tracks (roll r x) (d ++ x ∷ [])
    go p [] hs ha ho hn = absurd (omega arith)
    go p (out ∷ []) hs ha ho hn =
        let same : v ≡ out = cc in
        let rest : d ≡ p = cc in
        let gone : get_or r.window r.pos 0 ≡ v = rw (hs, ha, get_or-append p [] out 0) (sym same) in
        record {
          before = [];
          after = p ++ x ∷ [];
          split = unfold roll in (rw (hs, ha) (set-append p [] out x));
          at = unfold roll in (rw (ha, t.size, rest) (wraps (length p)));
          order = rw (rest, append-nil);
          nonempty = omega (arith, length-append {0} p (x ∷ []));
          size = unfold roll in (omega (arith, t.size, length-append {0} d (x ∷ [])));
          sum_a = roll_a r v d x gone t.sum_a;
          sum_b = roll_b r v d x gone t.sum_a t.sum_b t.size;
        }
    go p (out ∷ y ∷ q) hs ha ho hn =
        let same : v ≡ out = cc in
        let rest : d ≡ (y ∷ q) ++ p = cc in
        let gone : get_or r.window r.pos 0 ≡ v =
          rw (hs, ha, get_or-append p (y ∷ q) out 0) (sym same) in
        let long : length d ≡ suc (length q + length p) = rw rest (ap suc (length-append q p)) in
        record {
          before = p ++ x ∷ [];
          after = y ∷ q;
          split =
              unfold roll in
              (rw (hs, ha, append_assoc p (x ∷ []) (y ∷ q)) (set-append p (y ∷ q) out x));
          at =
              unfold roll in
              (rw (ha, length-append p (x ∷ [])) (mod-eq_of_lt (omega (arith, t.size))));
          order = rw (rest, append_assoc (y ∷ q) p (x ∷ []));
          nonempty = omega arith;
          size = unfold roll in (omega (arith, t.size, length-append {0} d (x ∷ [])));
          sum_a = roll_a r v d x gone t.sum_a;
          sum_b = roll_b r v d x gone t.sum_a t.sum_b t.size;
        }

rolls-Tracks :
    (xs d : Bytes) (r : RollingHash)
    → Tracks r d
    → 0 < length d
    → Tracks (foldl roll r xs) (drop (length xs) (d ++ xs))
rolls-Tracks [] d r t h = rw append-nil t
rolls-Tracks (x ∷ xs) [] r t h = absurd (omega arith)
rolls-Tracks (x ∷ xs) (v ∷ d) r t h =
    let next =
      rolls-Tracks xs (d ++ x ∷ []) (roll r x) (roll-Tracks r v d x t)
        (omega (arith, length-append {0} d (x ∷ []))) in
    rw (append_assoc d (x ∷ []) xs) at next

Tracks-sum : (r s : RollingHash) (d : Bytes) → Tracks r d → Tracks s d → sum r ≡ sum s
unfolding sum
Tracks-sum r s d t u = cc (t.sum_a, t.sum_b, u.sum_a, u.sum_b)

-- Rolling the bytes `xs` through a window that was written with `d` gives the checksum that
-- writing the last bytes afresh gives, for every window of at least one byte.
pub sum-rolls :
    (d xs : Bytes)
    → 0 < length d
    → sum (foldl roll (write (new_rolling_hash (length d)) d) xs)
      ≡ sum (write (new_rolling_hash (length d)) (drop (length xs) (d ++ xs)))
sum-rolls d xs h =
    Tracks-sum _ _ (drop (length xs) (d ++ xs)) (rolls-Tracks xs d _ (fresh d refl h) h)
      (fresh (drop (length xs) (d ++ xs)) same (omega (arith, same)))
  where
    same : length (drop (length xs) (d ++ xs)) ≡ length d
    same = omega (arith, length-drop {0} (length xs) (d ++ xs), length-append {0} d xs)

    fresh :
        (e : Bytes)
        → length e ≡ length d
        → 0 < length e
        → Tracks (write (new_rolling_hash (length d)) e) e
    fresh e q pos =
        unfold new_rolling_hash in
        (write-Tracks (new_rolling_hash (length d)) e (length-replicate (length d) 0 ∙ sym q)
          (sym q) pos)

-- The checksum of written bytes is a uint32.
pub sum-write-lt : (r : RollingHash) (d : Bytes) → sum (write r d) < 2 ^ 32
unfolding sum write reset
sum-write-lt r d = omega (
  arith,
  write_from_a (length d) 0 d (reset r) (omega arith),
  write_from_b (length d) 0 d (reset r) (omega arith) (omega arith),
)
