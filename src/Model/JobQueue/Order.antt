-- ===== src/Model/JobQueue/Order.antt =====
-- lib/model/queue.go: in what order the files leave the queue, and what a pull that is done leaves.
use syncthing_mem.Base.{
  ℕ, zero, suc, ◌≡◌, refl, ap, ◌⊎◌, inl, inr, Bool, true, false, Option, none, some, List, [], ◌∷◌,
  ◌++◌, map, length, take, drop, ltb, if◌then◌else◌, arith, append-nil, append_assoc, Bool-cases,
  Text, text_eq, text_eq_refl, text_eq_sound,
}
use syncthing_mem.Model.JobQueue.{
  JobQueue, JobQueueEntry, names, pop, find_job, bring_to_front, remove_first, done,
}

-- Whether a name is in a list.
abbrev pub lists : Text → List Text → Bool
lists file [] = false
lists file (f ∷ rest) = if text_eq f file then true else lists file rest

-- As many calls of `Pop`, and the names that they return.
abbrev pub pops : ℕ → JobQueue → List (Option Text) × JobQueue
pops zero q = ([], q)
pops (suc n) q = let (file, q') = pop q in let (files, q'') = pops n q' in (file ∷ files, q'')

-- The queue is first in, first out: as many calls of `Pop` as files wait return their names in
-- order, and leave them all in progress, behind those that were.
pops-fifo :
    (progress : List Text) (queued : List JobQueueEntry)
    → pops (length queued) (record { progress = progress; queued = queued })
      ≡ (map some (names queued), record { progress = progress ++ names queued; queued = [] })
unfolding pop
pops-fifo progress [] = rw (append-nil progress)
pops-fifo progress (e ∷ queued) =
    rw (
      pops-fifo (progress ++ e.name ∷ []) queued,
      append_assoc progress (e.name ∷ []) (names queued),
    )

-- The first entry with the name, if there is one, and the list without it.
abbrev pub picked : Text → List JobQueueEntry → List JobQueueEntry
picked file [] = []
picked file (e ∷ rest) = if text_eq e.name file then e ∷ [] else picked file rest

abbrev pub without : Text → List JobQueueEntry → List JobQueueEntry
without file [] = []
without file (e ∷ rest) = if text_eq e.name file then rest else e ∷ without file rest

record IsFound (file : Text) (queued : List JobQueueEntry) (i : ℕ) (e : JobQueueEntry)
    : Type 0 where
  found : find_job file queued ≡ some (i, e)
  first : picked file queued ≡ e ∷ []
  others : take i queued ++ drop (suc i) queued ≡ without file queued
  at_head : i ≡ 0 → queued ≡ e ∷ without file queued

record IsMissing (file : Text) (queued : List JobQueueEntry) : Type 0 where
  missing : find_job file queued ≡ none
  no_first : picked file queued ≡ []
  same : without file queued ≡ queued

find_job_lem :
    (file : Text) (queued : List JobQueueEntry)
    → IsMissing file queued ⊎ ((i : ℕ) × (e : JobQueueEntry) × IsFound file queued i e)
unfolding find_job
find_job_lem file [] = inl (record { missing = refl; no_first = refl; same = refl })
find_job_lem file (f ∷ rest) = elim (Bool-cases (text_eq f.name file)) [
  | inl here ↦
      inr (
        0,
        f,
        record { found = rw here; first = rw here; others = rw here; at_head = λ z. rw here },
      )
  | inr there ↦ elim (find_job_lem file rest) [
    | inl m ↦ inl (record {
      missing = rw (there, m.missing);
      no_first = rw (there, m.no_first);
      same = rw (there, m.same);
    })
    | inr (i, e, l) ↦ inr (
      suc i,
      e,
      record {
        found = rw (there, l.found);
        first = rw (there, l.first);
        others = rw (there, l.others);
        at_head = λ z. absurd (omega arith);
      },
    )
  ]
]

-- `BringToFront` puts the first entry with the name, if there is one, before all others, which keep
-- their order.
bring_to_front_lem :
    (file : Text) (q : JobQueue)
    → bring_to_front file q ≡ record q { queued = picked file q.queued ++ without file q.queued }
unfolding bring_to_front
bring_to_front_lem file q = elim (find_job_lem file q.queued) [
  | inl m ↦ rw (m.missing, bring_to_front, m.no_first, m.same)
  | inr (zero, e, l) ↦
      rw (l.found, bring_to_front, l.first)
        (λ i. record { progress = q.progress; queued = l.at_head refl i })
  | inr (suc i, e, l) ↦
      let far : ltb 0 (suc i) ≡ true = ground arith in
      rw (l.found, bring_to_front, l.first, far, l.others)
]

-- A file that waits and is brought to the front is what the next `Pop` returns.
pop-bring_to_front :
    (file : Text) (q : JobQueue)
    → lists file (names q.queued) ≡ true
    → (pop (bring_to_front file q)).0 ≡ some file
unfolding pop
pop-bring_to_front file q h = rw (bring_to_front_lem file q) (go q.queued (without file q.queued) h)
  where
    go :
        (queued tail : List JobQueueEntry)
        → lists file (names queued) ≡ true
        → (pop (record { progress = q.progress; queued = picked file queued ++ tail })).0
          ≡ some file
    go [] tail g = cc
    go (e ∷ rest) tail g = elim (Bool-cases (text_eq e.name file)) [
      | inl here ↦ rw here (ap some (text_eq_sound e.name file here))
      | inr there ↦ rw there (go rest tail (rw there at g))
    ]

remove-append :
    (file : Text) (progress : List Text)
    → lists file progress ≡ false
    → remove_first file (progress ++ file ∷ []) ≡ progress
unfolding remove_first
remove-append file [] h = rw (text_eq_refl file)
remove-append file (f ∷ progress) h = elim (Bool-cases (text_eq f file)) [
  | inl here ↦ absurd (ground arith)
  | inr there ↦ rw (there, remove-append file progress (rw there at h))
]

-- A file that was not in progress, taken from the queue and done with, leaves the files in progress
-- as they were, and the others in the queue.
done-pop :
    (q : JobQueue) (e : JobQueueEntry) (rest : List JobQueueEntry)
    → q.queued ≡ e ∷ rest
    → lists e.name q.progress ≡ false
    → done e.name (pop q).1 ≡ record q { queued = rest }
unfolding pop done
done-pop q e rest h absent = rw h (rw (remove-append e.name q.progress absent))
