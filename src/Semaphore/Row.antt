-- ===== src/Semaphore/Row.antt =====
-- lib/semaphore/semaphore.go: `MultiSemaphore`.
use syncthing_mem.Base.{
  ℕ, ◌+◌, ◌-◌, ◌≤◌, ◌≡◌, refl, ap, inl, inr, true, false, Option, none, some, [], ◌∷◌, ltb,
  if◌then◌else◌, Bool-cases, if_ind, ltb→ge, ltb→lt, arith,
}
use syncthing_mem.Semaphore.{
  Semaphore, clamp, try_take, give, MultiSemaphore, take_row, give_row, take_first,
}

-- What is available is within the capacity.
abbrev pub AllWithin : MultiSemaphore → Type 0
AllWithin [] = Unit
AllWithin (none ∷ row) = AllWithin row
AllWithin (some s ∷ row) = (s.available ≤ s.max) × AllWithin row

some_inj : {A : Type 0} {a b : A} → some a ≡ some b → a ≡ b
some_inj h = cc

-- Taking back what was just taken, where it was there to take.
give_back :
    (size : ℕ) (s : Semaphore)
    → s.available ≤ s.max
    → ltb s.available (clamp size s) ≡ false
    → give size (record s { available = s.available - clamp size s }) ≡ s
unfolding give clamp
give_back size s within through =
    let taken = if ltb s.max size then s.max else size in
    let fits = ltb→ge _ _ through in
    if_ind (λ (r : Semaphore). r ≡ s) (ltb s.max (s.available - taken + taken))
      (record s { available = s.max }) (record s { available = s.available - taken + taken })
      (λ over.
        ap (λ (n : ℕ). record s { available = n }) (omega (arith, fits, within, ltb→lt _ _ over)))
      (λ _. ap (λ (n : ℕ). record s { available = n }) (omega (arith, fits)))

give-try_take :
    (size : ℕ) (s s' : Semaphore)
    → s.available ≤ s.max
    → try_take size s ≡ some s'
    → give size s' ≡ s
unfolding try_take
give-try_take size s s' within h = elim (Bool-cases (ltb s.available (clamp size s))) [
  | inl waits ↦ let stuck = rw (waits, try_take) at h in cc
  | inr through ↦ rw⁻¹ (some_inj (rw (through, try_take) at h)) (give_back size s within through)
]

give-take_first :
    (size : ℕ) (s : Semaphore) (row : MultiSemaphore)
    → s.available ≤ s.max
    → (o : Option Semaphore) → try_take size s ≡ o
    → ((take_row size row).0 ≡ true → give_row size (take_row size row).1 ≡ row)
    → (take_first o s row (take_row size row)).0 ≡ true
    → give_row size (take_first o s row (take_row size row)).1 ≡ some s ∷ row
unfolding take_first give_row
give-take_first size s row here none is later h = cc
give-take_first size s row here (some s') is later h = rw (give-try_take size s s' here is, later h)

-- A row of semaphores that is taken without a wait and given back is as it was.
give_row-take_row :
    (size : ℕ) (row : MultiSemaphore)
    → AllWithin row
    → (take_row size row).0 ≡ true
    → give_row size (take_row size row).1 ≡ row
unfolding take_row give_row
give_row-take_row size [] within through = refl
give_row-take_row size (none ∷ row) within through =
    ap (λ (r : MultiSemaphore). none ∷ r) (give_row-take_row size row within through)
give_row-take_row size (some s ∷ row) (here, within) through =
    give-take_first size s row here (try_take size s) refl (give_row-take_row size row within)
      through
