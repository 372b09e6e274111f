-- ===== src/Semaphore/Steps.antt =====
-- lib/semaphore/semaphore.go: the looks of takers, the givers and the changes of the capacity as steps, and
-- what each of them does to the semaphore and to those that wait.
use mathlib.Core.Path.{subst}
use syncthing_mem.Base.{
  ℕ, ◌+◌, ◌-◌, ◌≤◌, ◌≡◌, ap, sym, inl, inr, none, some, List, [], ◌∷◌, ◌++◌, min, ltb, arith,
  Bool-cases, ltb→ge,
}
use syncthing_mem.Semaphore.{Semaphore, new_semaphore, clamp, try_take, give, set_capacity}

-- The semaphore, for each goroutine that holds a part of it the size that it asked for, and for each
-- that waits the size that it asked for and what that is lowered to so far.
pub record World : Type 0 where
  pub sem : Semaphore
  pub held : List ℕ
  pub waiting : List (ℕ × ℕ)

-- A taker gets through at its first look, or starts to wait with its size lowered; one that waits is
-- woken and gets through or waits on, lowered again, or its context is cancelled; a holder gives back
-- the size that it asked for.
pub data Step (w : World) : World → Type 0 where
  took :
      (size : ℕ) (s : Semaphore)
      → try_take size w.sem ≡ some s
      → Step w (record { sem = s; held = size ∷ w.held; waiting = w.waiting })
  waits :
      (size : ℕ)
      → try_take size w.sem ≡ none
      → Step w
          (record { sem = w.sem; held = w.held; waiting = (size, clamp size w.sem) ∷ w.waiting })
  woken_took :
      (size lowered : ℕ) (before after : List (ℕ × ℕ)) (s : Semaphore)
      → w.waiting ≡ before ++ (size, lowered) ∷ after
      → try_take lowered w.sem ≡ some s
      → Step w (record { sem = s; held = size ∷ w.held; waiting = before ++ after })
  woken_waits :
      (size lowered : ℕ) (before after : List (ℕ × ℕ))
      → w.waiting ≡ before ++ (size, lowered) ∷ after
      → try_take lowered w.sem ≡ none
      → Step w (record {
        sem = w.sem;
        held = w.held;
        waiting = before ++ (size, clamp lowered w.sem) ∷ after;
      })
  cancelled :
      (size lowered : ℕ) (before after : List (ℕ × ℕ))
      → w.waiting ≡ before ++ (size, lowered) ∷ after
      → Step w (record { sem = w.sem; held = w.held; waiting = before ++ after })
  gave :
      (size : ℕ) (before after : List ℕ)
      → w.held ≡ before ++ size ∷ after
      → Step w (record { sem = give size w.sem; held = before ++ after; waiting = w.waiting })

-- As many steps as one likes, or also changes of the capacity.
pub data Steps (w : World) : World → Type 0 where
  here : Steps w w
  step : {v u : World} → Steps w v → Step v u → Steps w u

pub data Changes (w : World) : World → Type 0 where
  here : Changes w w
  step : {v u : World} → Changes w v → Step v u → Changes w u
  resize :
      {v : World} (capacity : ℕ)
      → Changes w v
      → Changes w (record { sem = set_capacity capacity v.sem; held = v.held; waiting = v.waiting })

abbrev pub fresh : ℕ → World
fresh capacity = record { sem = new_semaphore capacity; held = []; waiting = [] }

-- What the holders have of a semaphore with the given capacity.
abbrev pub total : ℕ → List ℕ → ℕ
total capacity [] = 0
total capacity (size ∷ held) = min size capacity + total capacity held

pub total-append :
    (capacity : ℕ) (xs ys : List ℕ)
    → total capacity (xs ++ ys) ≡ total capacity xs + total capacity ys
total-append capacity [] ys = omega arith
total-append capacity (x ∷ xs) ys = omega (arith, total-append capacity xs ys)

-- A holder that gives back counts for what it holds.
pub total-gave :
    (capacity size : ℕ) (held before after : List ℕ)
    → held ≡ before ++ size ∷ after
    → total capacity held ≡ min size capacity + total capacity (before ++ after)
total-gave capacity size held before after e = omega (
  arith,
  ap (total capacity) e,
  total-append capacity before (size ∷ after),
  total-append capacity before after,
)

pub clamp-min : (size : ℕ) (s : Semaphore) → clamp size s ≡ min size s.max
unfolding clamp
clamp-min size s = ground arith

pub try_take_lem :
    (size : ℕ) (s s' : Semaphore)
    → try_take size s ≡ some s'
    → (min size s.max ≤ s.available)
      × (s'.max ≡ s.max)
      × (s'.available ≡ s.available - min size s.max)
unfolding try_take
try_take_lem size s s' h = elim (Bool-cases (ltb s.available (clamp size s))) [
  | inl no_room ↦ let stuck = rw (no_room, try_take) at h in cc
  | inr through ↦
      let after : record s { available = s.available - clamp size s } ≡ s' =
        cc (rw (through, try_take) at h) in
      (
        omega (arith, ltb→ge _ _ through, clamp-min size s),
        ap (λ (t : Semaphore). t.max) (sym after),
        omega (arith, ap (λ (t : Semaphore). t.available) (sym after), clamp-min size s),
      )
]

pub give_lem :
    (size : ℕ) (s : Semaphore)
    → ((give size s).max ≡ s.max)
      × ((give size s).available ≡ min s.max (s.available + min size s.max))
unfolding give
give_lem size s = rw (clamp-min size s) (ground arith)

pub set_capacity_lem :
    (capacity : ℕ) (s : Semaphore)
    → (set_capacity capacity s).available ≡ min capacity (s.available + capacity - s.max)
unfolding set_capacity
set_capacity_lem capacity s = ground arith

-- What holds of the asked and the lowered size of all that wait.
abbrev pub AllWaiting : (ℕ → ℕ → Type 0) → List (ℕ × ℕ) → Type 0
AllWaiting P [] = Unit
AllWaiting P ((size, lowered) ∷ ws) = P size lowered × AllWaiting P ws

module _ (P : ℕ → ℕ → Type 0) where
  pub one_waiting :
      (size lowered : ℕ) (before after : List (ℕ × ℕ))
      → AllWaiting P (before ++ (size, lowered) ∷ after)
      → P size lowered × AllWaiting P (before ++ after)
  one_waiting size lowered [] after (p, h) = (p, h)
  one_waiting size lowered ((s, l) ∷ before) after (q, h) =
      let (p, rest) = one_waiting size lowered before after h in (p, (q, rest))

  lower_waiting :
      (size lowered : ℕ) (before after : List (ℕ × ℕ))
      → P size lowered
      → AllWaiting P (before ++ after)
      → AllWaiting P (before ++ (size, lowered) ∷ after)
  lower_waiting size lowered [] after p h = (p, h)
  lower_waiting size lowered ((s, l) ∷ before) after p (q, h) =
      (q, lower_waiting size lowered before after p h)

  -- What holds after a first look and after each further one holds of all that wait.
  pub Step-AllWaiting :
      (w v : World)
      → Step w v
      → ((size : ℕ) → P size (clamp size w.sem))
      → ((size lowered : ℕ) → P size lowered → P size (clamp lowered w.sem))
      → AllWaiting P w.waiting
      → AllWaiting P v.waiting
  Step-AllWaiting w v (took size s e) first next h = h
  Step-AllWaiting w v (waits size e) first next h = (first size, h)
  Step-AllWaiting w v (woken_took size lowered before after s at e) first next h =
      (one_waiting size lowered before after (subst (AllWaiting P) at h)).1
  Step-AllWaiting w v (woken_waits size lowered before after at e) first next h =
      let (p, rest) = one_waiting size lowered before after (subst (AllWaiting P) at h) in
      lower_waiting size (clamp lowered w.sem) before after (next size lowered p) rest
  Step-AllWaiting w v (cancelled size lowered before after at) first next h =
      (one_waiting size lowered before after (subst (AllWaiting P) at h)).1
  Step-AllWaiting w v (gave size before after e) first next h = h
