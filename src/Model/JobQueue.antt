-- ===== src/Model/JobQueue.antt =====
-- lib/model/queue.go: the files that a folder is pulling and those that wait. The calls hold the
-- lock throughout, so each is one function on the state. A string is the list of its bytes.
use syncthing_mem.Base.{
  ℕ, suc, ◌+◌, ◌-◌, ◌*◌, Bool, Option, none, some, List, [], ◌∷◌, ◌++◌, map, length, take, drop,
  ltb, leb, if◌then◌else◌, Text, text_eq,
}
pub mod Order
pub mod Pages

-- `size` and `modified` are int64, by their bits: no call computes with them.
pub record JobQueueEntry : Type 0 where
  pub name : Text
  pub size : ℕ
  pub modified : ℕ

pub record JobQueue : Type 0 where
  pub progress : List Text
  pub queued : List JobQueueEntry

abbrev pub new_job_queue : JobQueue
new_job_queue = record { progress = []; queued = [] }

unfoldable pub push : Text → ℕ → ℕ → JobQueue → JobQueue
push file size modified q = record q {
  queued = q.queued ++ record { name = file; size = size; modified = modified } ∷ [];
}

-- No name stands for `("", false)`.
unfoldable pub pop : JobQueue → Option Text × JobQueue
pop q = elim q.queued [
  | [] ↦ (none, q)
  | e ∷ rest ↦ (some e.name, record { progress = q.progress ++ e.name ∷ []; queued = rest })
]

-- The loop over the queue: the first entry with the name, and its index.
unfoldable pub find_job : Text → List JobQueueEntry → Option (ℕ × JobQueueEntry)
find_job file [] = none
find_job file (e ∷ rest) =
    let later = find_job file rest in
    if text_eq e.name file
    then some (0, e)
    else elim later [ none ↦ none | some (i, found) ↦ some (suc i, found) ]

-- The entries before the selected one move one step to the right, over it.
unfoldable pub bring_to_front : Text → JobQueue → JobQueue
bring_to_front file q = elim (find_job file q.queued) [
  | none ↦ q
  | some (i, cur) ↦
      if ltb 0 i then record q { queued = cur ∷ (take i q.queued ++ drop (suc i) q.queued) } else q
]

-- The loop over the files in progress: the first with the name goes.
unfoldable pub remove_first : Text → List Text → List Text
remove_first file [] = []
remove_first file (f ∷ rest) =
    let kept = remove_first file rest in if text_eq f file then rest else f ∷ kept

unfoldable pub done : Text → JobQueue → JobQueue
done file q = record q { progress = remove_first file q.progress }

abbrev pub names : List JobQueueEntry → List Text
names = map (λ (e : JobQueueEntry). e.name)

-- A page of the files in progress followed by those that wait, and how many came before it. Pages
-- count from 1, as the callers have it.
unfoldable pub jobs : ℕ → ℕ → JobQueue → List Text × List Text × ℕ
jobs page perpage q =
    let to_skip = (page - 1) * perpage in
    let plen = length q.progress in
    let qlen = length q.queued in
    if leb (plen + qlen) to_skip
    then ([], [], plen + qlen)
    else if leb (to_skip + perpage) plen
    then (take perpage (drop to_skip q.progress), [], to_skip)
    else let progress = if ltb to_skip plen then drop to_skip q.progress else [] in
      let skip = if ltb to_skip plen then 0 else to_skip - plen in
      let room = perpage - length progress in
      let count = if ltb (qlen - skip) room then qlen - skip else room in
      (progress, names (take count (drop skip q.queued)), to_skip)

unfoldable pub reset : JobQueue → JobQueue
reset q = new_job_queue

unfoldable pub len_queued : JobQueue → ℕ
len_queued q = length q.queued

unfoldable pub len_progress : JobQueue → ℕ
len_progress q = length q.progress
