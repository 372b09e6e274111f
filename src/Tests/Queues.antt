-- ===== src/Tests/Queues.antt =====
-- lib/model/queue.go and lib/semaphore/semaphore.go at concrete states.
use syncthing_mem.Base.{
  false, none, ◌-◌, ◌*◌, ◌≡◌, refl, some, [], ◌∷◌, ◌++◌, length, take, drop, min,
}
use syncthing_mem.Model.JobQueue.{JobQueue, JobQueueEntry, bring_to_front, find_job, jobs}
use syncthing_mem.Model.JobQueue.Pages.{all_jobs, jobs-page}
use syncthing_mem.Semaphore.{
  try_take, give, set_capacity, new_semaphore, clamp, MultiSemaphore, take_first, take_row,
}
use syncthing_mem.Semaphore.Steps.{
  World, Steps, Changes, here, step, resize, took, waits, woken_waits, woken_took, gave, fresh,
}
use syncthing_mem.Semaphore.Capacity.{IsKept, IsKept-Changes, try_take-Changes}

abbrev file_a : JobQueueEntry
file_a = record { name = 97 ∷ []; size = 10; modified = 5 }

abbrev file_b : JobQueueEntry
file_b = record { name = 98 ∷ []; size = 20; modified = 6 }

abbrev file_c : JobQueueEntry
file_c = record { name = 99 ∷ []; size = 30; modified = 7 }

abbrev waiting : JobQueue
waiting = record { progress = (100 ∷ []) ∷ []; queued = file_a ∷ file_b ∷ file_c ∷ [] }

queue_runs :
    (jobs 2 2 waiting ≡ ([], (98 ∷ []) ∷ (99 ∷ []) ∷ [], 2))
    × ((bring_to_front (99 ∷ []) waiting).queued ≡ file_c ∷ file_a ∷ file_b ∷ [])
unfolding jobs bring_to_front find_job
queue_runs = (refl, refl)

jobs-page_example :
    ((jobs 2 3 waiting).0 ++ (jobs 2 3 waiting).1 ≡ take 3 (drop ((2 - 1) * 3) (all_jobs waiting)))
    × ((jobs 2 3 waiting).2 ≡ min ((2 - 1) * 3) (length (all_jobs waiting)))
jobs-page_example = jobs-page 2 3 waiting

-- Of four, one taker has three and waits for no one; a second has to wait for two.
abbrev taken : World
taken = record { sem = record { max = 4; available = 1 }; held = 3 ∷ []; waiting = [] }

takes_three : try_take 3 (fresh 4).sem ≡ some taken.sem
unfolding try_take new_semaphore clamp
takes_three = refl

abbrev taken_run : Steps (fresh 4) taken
taken_run = step here (took 3 taken.sem takes_three)

-- One more waits for four, the capacity shrinks to 2, which lowers what it waits for, and grows to 4
-- again; the holder gives back, and the one that waited gets through with two, and gives back.
abbrev asked : World
asked = record { sem = taken.sem; held = 3 ∷ []; waiting = (4, 4) ∷ [] }

abbrev shrunk : World
shrunk = record { sem = set_capacity 2 asked.sem; held = 3 ∷ []; waiting = (4, 4) ∷ [] }

abbrev lowered : World
lowered = record { sem = shrunk.sem; held = 3 ∷ []; waiting = (4, 2) ∷ [] }

abbrev grown : World
grown = record { sem = set_capacity 4 lowered.sem; held = 3 ∷ []; waiting = (4, 2) ∷ [] }

abbrev through : World
through = record { sem = record { max = 4; available = 0 }; held = 4 ∷ 3 ∷ []; waiting = [] }

abbrev returned : World
returned = record { sem = give 3 (give 4 through.sem); held = []; waiting = [] }

through_run : Changes (fresh 4) through
unfolding try_take new_semaphore clamp set_capacity
through_run =
    step
      (resize 4 (
        step (resize 2 (step (step here (took 3 taken.sem takes_three)) (waits 4 refl)))
          (woken_waits 4 4 [] [] refl refl)))
      (woken_took 4 2 [] [] through.sem refl refl)

returned_run : Changes (fresh 4) returned
returned_run = step (step through_run (gave 4 [] (3 ∷ []) refl)) (gave 3 [] [] refl)

IsKept-Changes_example : IsKept returned
IsKept-Changes_example = IsKept-Changes 4 returned returned_run

try_take-Changes_example :
    try_take 9 returned.sem
    ≡ some
        (record { max = returned.sem.max; available = returned.sem.max - min 9 returned.sem.max })
try_take-Changes_example = try_take-Changes 4 9 returned returned_run refl

abbrev row : MultiSemaphore
row =
    some (record { max = 4; available = 3 }) ∷ none ∷ some (record { max = 9; available = 9 }) ∷ []

-- One that waits at the last semaphore holds the first.
row_waits :
    take_row 3
      (some (record { max = 4; available = 3 }) ∷ some (record { max = 9; available = 2 }) ∷ [])
    ≡ (
      false,
      some (record { max = 4; available = 0 }) ∷ some (record { max = 9; available = 2 }) ∷ [],
    )
unfolding try_take clamp take_row take_first
row_waits = refl
