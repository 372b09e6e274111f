-- ===== src/Semaphore/Capacity.antt =====
-- lib/semaphore/semaphore.go: what takers, givers and changes of the capacity keep to, in any order.
use mathlib.Core.Path.{subst}
use syncthing_mem.Base.{
  ℕ, ◌+◌, ◌-◌, ◌≤◌, ◌≡◌, refl, ap, inl, inr, ◌⊎◌, some, List, [], ◌∷◌, ◌++◌, min, arith, dec_le,
}
use syncthing_mem.Semaphore.{Semaphore, new_semaphore, try_take, set_capacity}
use syncthing_mem.Semaphore.Steps.{
  World, Step, took, waits, woken_took, woken_waits, cancelled, gave, Steps, Changes, here, step,
  resize, fresh, total, total-gave, clamp-min, try_take_lem, give_lem, set_capacity_lem, AllWaiting,
  one_waiting, Step-AllWaiting,
}

-- While the capacity stays, a lowered taker takes what its size would.
abbrev SameTaken : ℕ → ℕ → ℕ → Type 0
SameTaken capacity size lowered = min lowered capacity ≡ min size capacity

abbrev Exact : ℕ → World → Type 0
Exact capacity w =
    (w.sem.max ≡ capacity)
    × (w.sem.available + total capacity w.held ≡ capacity)
    × AllWaiting (SameTaken capacity) w.waiting

Step-SameTaken :
    (capacity : ℕ) (w v : World)
    → Step w v
    → Exact capacity w
    → AllWaiting (SameTaken capacity) v.waiting
Step-SameTaken capacity w v one (m, h, all) =
    Step-AllWaiting (SameTaken capacity) w v one (λ size. omega (arith, clamp-min size w.sem))
      (λ size lowered same. omega (arith, clamp-min lowered w.sem)) all

Step-Exact : (capacity : ℕ) (w v : World) → Step w v → Exact capacity w → Exact capacity v
Step-Exact capacity w v (took size s e) (m, h, all) =
    let (fits, same, left) = try_take_lem size w.sem s e in (omega arith, omega arith, all)
Step-Exact capacity w v (waits size e) (m, h, all) =
    (m, h, Step-SameTaken capacity w v (waits size e) (m, h, all))
Step-Exact capacity w v (woken_took size lowered before after s at e) (m, h, all) =
    let (fits, same, left) = try_take_lem lowered w.sem s e in
    let (p, rest) =
      one_waiting (SameTaken capacity) size lowered before after
        (subst (AllWaiting (SameTaken capacity)) at all) in
    (omega arith, omega arith, rest)
Step-Exact capacity w v (woken_waits size lowered before after at e) (m, h, all) =
    (m, h, Step-SameTaken capacity w v (woken_waits size lowered before after at e) (m, h, all))
Step-Exact capacity w v (cancelled size lowered before after at) (m, h, all) =
    (m, h, Step-SameTaken capacity w v (cancelled size lowered before after at) (m, h, all))
Step-Exact capacity w v (gave size before after e) (m, h, all) =
    let (same, more) = give_lem size w.sem in
    (omega arith, omega (arith, total-gave capacity size w.held before after e), all)

-- While the capacity stays, what is available and what the holders have make up the capacity, in
-- every state that takers and givers reach: never more than the capacity is taken.
capacity-Steps :
    (capacity : ℕ) (w : World)
    → Steps (fresh capacity) w
    → (w.sem.available + total capacity w.held ≡ capacity)
unfolding new_semaphore
capacity-Steps capacity w steps = (go w steps).1
  where
    go : (v : World) → Steps (fresh capacity) v → Exact capacity v
    go v here = (refl, omega arith, tt)
    go v (step {v = u} run last) = Step-Exact capacity u v last (go u run)

-- More capacity leaves the holders at least as much; less leaves them the same, unless what they
-- have fills it.
total_mono : (c d : ℕ) (held : List ℕ) → c ≤ d → total c held ≤ total d held
total_mono c d [] h = omega arith
total_mono c d (x ∷ held) h = omega (arith, total_mono c d held h)

total_shrink :
    (c d : ℕ) (held : List ℕ) → d ≤ c → (d ≤ total d held) ⊎ (total d held ≡ total c held)
total_shrink c d [] h = inr refl
total_shrink c d (x ∷ held) h = elim (total_shrink c d held h) [
  | inl full ↦ inl (omega arith)
  | inr same ↦ elim (dec_le d x) [ yes big ↦ inl (omega arith) | no small ↦ inr (omega arith) ]
]

-- Nothing is lost: what is available is within the capacity, and with what the holders have it
-- makes up at least the capacity.
abbrev pub IsKept : World → Type 0
IsKept w = (w.sem.available ≤ w.sem.max) × (w.sem.max ≤ w.sem.available + total w.sem.max w.held)

-- A taker is never raised.
abbrev pub Lowered : World → Type 0
Lowered w = AllWaiting (λ size lowered. lowered ≤ size) w.waiting

Changes-Lowered : (capacity : ℕ) (w : World) → Changes (fresh capacity) w → Lowered w
unfolding new_semaphore
Changes-Lowered capacity w here = tt
Changes-Lowered capacity w (step {v = u} run last) =
    Step-AllWaiting (λ size lowered. lowered ≤ size) u w last
      (λ size. omega (arith, clamp-min size u.sem))
      (λ size lowered le. omega (arith, clamp-min lowered u.sem)) (Changes-Lowered capacity u run)
Changes-Lowered capacity w (resize {v = u} c run) = Changes-Lowered capacity u run

-- A taker that holds at least what it took.
taken-IsKept :
    (size lowered : ℕ) (w : World) (s : Semaphore) (ws : List (ℕ × ℕ))
    → lowered ≤ size
    → try_take lowered w.sem ≡ some s
    → IsKept w
    → IsKept (record { sem = s; held = size ∷ w.held; waiting = ws })
taken-IsKept size lowered w s ws le e (b, h) =
    let (fits, same, left) = try_take_lem lowered w.sem s e in
    (omega arith, omega (arith, ap (λ (c : ℕ). total c w.held) same))

Step-IsKept : (w v : World) → Step w v → Lowered w → IsKept w → IsKept v
Step-IsKept w v (took size s e) low k = taken-IsKept size size w s w.waiting (omega arith) e k
Step-IsKept w v (waits size e) low k = k
Step-IsKept w v (woken_took size lowered before after s at e) low k =
    let (le, rest) =
      one_waiting (λ size lowered. lowered ≤ size) size lowered before after
        (subst (AllWaiting (λ size lowered. lowered ≤ size)) at low) in
    taken-IsKept size lowered w s (before ++ after) le e k
Step-IsKept w v (woken_waits size lowered before after at e) low k = k
Step-IsKept w v (cancelled size lowered before after at) low k = k
Step-IsKept w v (gave size before after e) low (b, h) =
    let (same, more) = give_lem size w.sem in
    (
      omega arith,
      omega (
        arith,
        total-gave w.sem.max size w.held before after e,
        ap (λ (c : ℕ). total c (before ++ after)) same,
      ),
    )

resize-IsKept :
    (capacity : ℕ) (v : World)
    → IsKept v
    → IsKept (record { sem = set_capacity capacity v.sem; held = v.held; waiting = v.waiting })
unfolding set_capacity
resize-IsKept capacity v (b, h) =
    let c = v.sem.max in
    let left = set_capacity_lem capacity v.sem in
    (
      omega arith,
      elim (dec_le c capacity) [
        | yes grows ↦ omega (arith, total_mono c capacity v.held grows)
        | no shrinks ↦ elim (total_shrink c capacity v.held (omega arith)) [
          | inl full ↦ omega arith
          | inr same ↦ omega arith
        ]
      ],
    )

-- Takers, with waits that lower their sizes for good, givers and changes of the capacity, in any
-- order: the available part stays within the capacity and no part of it is lost.
pub IsKept-Changes : (capacity : ℕ) (w : World) → Changes (fresh capacity) w → IsKept w
unfolding new_semaphore
IsKept-Changes capacity w here = (omega arith, omega arith)
IsKept-Changes capacity w (step {v = u} run last) =
    Step-IsKept u w last (Changes-Lowered capacity u run) (IsKept-Changes capacity u run)
IsKept-Changes capacity w (resize {v = u} c run) = resize-IsKept c u (IsKept-Changes capacity u run)

-- Once all holders have given back, whatever the changes of the capacity were, a taker of any size
-- gets through, and takes the size or the whole capacity.
pub try_take-Changes :
    (capacity size : ℕ) (w : World)
    → Changes (fresh capacity) w
    → w.held ≡ []
    → try_take size w.sem
      ≡ some (record { max = w.sem.max; available = w.sem.max - min size w.sem.max })
unfolding try_take
try_take-Changes capacity size w run e =
    let (b, h) = IsKept-Changes capacity w run in
    let full : w.sem.available ≡ w.sem.max = omega (arith, ap (total w.sem.max) e) in
    rw (clamp-min size w.sem, full) (ground arith)
