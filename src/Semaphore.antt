-- ===== src/Semaphore.antt =====
-- lib/semaphore/semaphore.go: a counting semaphore whose capacity can change, and a row of them.
-- Each call holds the mutex but for the wait; a capacity below zero counts as zero, so the numbers
-- are natural ones. A cancelled context ends a wait and changes nothing.
use syncthing_mem.Base.{
  ℕ, ◌+◌, ◌-◌, Bool, true, false, Option, none, some, List, [], ◌∷◌, ltb, if◌then◌else◌,
}
pub mod Steps
pub mod Capacity
pub mod Row

pub record Semaphore : Type 0 where
  pub max : ℕ
  pub available : ℕ

unfoldable pub new_semaphore : ℕ → Semaphore
new_semaphore max = record { max = max; available = max }

-- What a request for more than the capacity is cut to.
unfoldable pub clamp : ℕ → Semaphore → ℕ
clamp size s = if ltb s.max size then s.max else size

-- One look at the semaphore, under the mutex, by a taker whose size is lowered to `size` so far: none
-- where it has to wait, with its size lowered to `clamp size s` for its next look.
unfoldable pub try_take : ℕ → Semaphore → Option Semaphore
try_take size s =
    if ltb s.available (clamp size s)
    then none
    else some (record s { available = s.available - clamp size s })

unfoldable pub give : ℕ → Semaphore → Semaphore
give size s =
    if ltb s.max (s.available + clamp size s)
    then record s { available = s.max }
    else record s { available = s.available + clamp size s }

-- `available` moves by the difference of the capacities, and is cut to 0 and to the new one.
unfoldable pub set_capacity : ℕ → Semaphore → Semaphore
set_capacity capacity s =
    let moved = s.available + capacity - s.max in
    record { max = capacity; available = if ltb capacity moved then capacity else moved }

-- MultiSemaphore, where a nil semaphore is none.
abbrev pub MultiSemaphore : Type 0
MultiSemaphore = List (Option Semaphore)

-- The first semaphore of a row, by a look at it, and the rest once it is taken.
unfoldable pub take_first :
    Option Semaphore → Semaphore → MultiSemaphore → Bool × MultiSemaphore → Bool × MultiSemaphore
take_first none s row rest = (false, some s ∷ row)
take_first (some s') s row (through, after) = (through, some s' ∷ after)

-- `Take` as far as it gets without waiting: the semaphores after it, and whether it is through.
-- What was taken before a wait is held during it, and stays taken if the wait is cancelled.
unfoldable pub take_row : ℕ → MultiSemaphore → Bool × MultiSemaphore
take_row size [] = (true, [])
take_row size (none ∷ row) = let (through, after) = take_row size row in (through, none ∷ after)
take_row size (some s ∷ row) = take_first (try_take size s) s row (take_row size row)

-- `Give`: from the last to the first, each on its own.
unfoldable pub give_row : ℕ → MultiSemaphore → MultiSemaphore
give_row size [] = []
give_row size (none ∷ row) = none ∷ give_row size row
give_row size (some s ∷ row) = some (give size s) ∷ give_row size row
