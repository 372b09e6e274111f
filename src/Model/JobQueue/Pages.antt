-- ===== src/Model/JobQueue/Pages.antt =====
-- lib/model/queue.go, `Jobs`: the pages against the list of all files.
use syncthing_mem.Base.{
  ℕ, ◌+◌, ◌-◌, ◌*◌, ◌≤◌, ◌<◌, ◌≡◌, refl, ap, ◌∙◌, inl, inr, List, [], ◌++◌, length, take, drop, min,
  ltb, leb, if◌then◌else◌, arith, Bool-cases, leb→le, ltb→ge, Text, take-append, drop-append,
  take-map, drop-map, take-min, take-nil, take_of_length-le, drop_of_length-le, length-drop,
  length-map, length-append,
}
use syncthing_mem.Model.JobQueue.{JobQueue, JobQueueEntry, names, jobs}

-- All files, those in progress first.
abbrev pub all_jobs : JobQueue → List Text
all_jobs q = q.progress ++ names q.queued

-- A slice of all files, in its two parts.
slice :
    (skip room : ℕ) (q : JobQueue)
    → take room (drop skip (all_jobs q))
      ≡ take room (drop skip q.progress)
        ++ names
            (take (room - (length q.progress - skip)) (drop (skip - length q.progress) q.queued))
slice skip room q =
    let n = room - (length q.progress - skip) in
    rw
      (
        drop-append skip q.progress (names q.queued),
        take-append room (drop skip q.progress) (drop (skip - length q.progress) (names q.queued)),
        length-drop skip q.progress,
      )
      (ap (λ d. take room (drop skip q.progress) ++ d)
        (ap (take n) (drop-map (λ (e : JobQueueEntry). e.name) (skip - length q.progress) q.queued)
          ∙ take-map (λ (e : JobQueueEntry). e.name) n (drop (skip - length q.progress) q.queued)))

-- The page that begins in `front` and goes on in the queue.
fill :
    (perpage skip : ℕ) (front : List Text) (queued : List JobQueueEntry)
    → length front ≤ perpage
    → front
        ++ names (
            take
              (if ltb (length queued - skip) (perpage - length front)
                then length queued - skip
                else perpage - length front)
              (drop skip queued))
      ≡ take perpage front ++ names (take (perpage - length front) (drop skip queued))
fill perpage skip front queued h =
    let room = perpage - length front in
    let count : (if ltb (length queued - skip) room then length queued - skip else room)
        ≡ min room (length (drop skip queued)) =
      rw (length-drop skip queued) (ground arith) in
    rw (count, take-min room (drop skip queued), take_of_length-le perpage front h)

-- What `Jobs` returns, for pages that count from 1: the two lists together are the page's slice of
-- all files, and the number is that of the files before it.
pub jobs-page :
    (page perpage : ℕ) (q : JobQueue)
    → ((jobs page perpage q).0 ++ (jobs page perpage q).1
        ≡ take perpage (drop ((page - 1) * perpage) (all_jobs q)))
      × ((jobs page perpage q).2 ≡ min ((page - 1) * perpage) (length (all_jobs q)))
unfolding jobs
jobs-page page perpage q =
    let skip = (page - 1) * perpage in
    let plen = length q.progress in
    let qlen = length q.queued in
    let total : length (all_jobs q) ≡ plen + qlen = omega (
      arith,
      length-append {0} q.progress (names q.queued),
      length-map (λ (e : JobQueueEntry). e.name) q.queued,
    ) in
    rw (slice skip perpage q) (elim (Bool-cases (leb (plen + qlen) skip)) [
      | inl past ↦
          let le = leb→le _ _ past in
          let front : drop skip q.progress ≡ [] = drop_of_length-le skip q.progress (omega arith) in
          let back : drop (skip - plen) q.queued ≡ [] =
            drop_of_length-le (skip - plen) q.queued (omega arith) in
          rw (past, front, back)
            (
              rw (
                take-nil {A = Text} perpage,
                take-nil {A = JobQueueEntry} (perpage - (plen - skip)),
              ),
              omega arith,
            )
      | inr here ↦ elim (Bool-cases (leb (skip + perpage) plen)) [
        | inl front ↦
            let le = leb→le _ _ front in
            let none_left : perpage - (plen - skip) ≡ 0 = omega arith in
            rw (here, front, none_left) (refl, omega arith)
        | inr both ↦
            let beyond : plen < skip + perpage = ground arith in
            let inside : skip < plen + qlen = ground arith in
            elim (Bool-cases (ltb skip plen)) [
              | inl some_progress ↦
                  let no_more : skip - plen ≡ 0 = ground arith in
                  let p =
                    fill perpage 0 (drop skip q.progress) q.queued
                      (omega (arith, length-drop skip q.progress)) in
                  let r : perpage - length (drop skip q.progress) ≡ perpage - (plen - skip) =
                    omega (arith, length-drop skip q.progress) in
                  rw (here, both, some_progress, no_more)
                    (
                      p
                          ∙ ap
                              (λ (m : ℕ).
                                take perpage (drop skip q.progress) ++ names (take m q.queued))
                              r,
                      omega arith,
                    )
              | inr no_progress ↦
                  let front : drop skip q.progress ≡ [] =
                    drop_of_length-le skip q.progress (ltb→ge _ _ no_progress) in
                  let p = fill perpage (skip - plen) [] q.queued (omega arith) in
                  let r : perpage - 0 ≡ perpage - (plen - skip) = ground arith in
                  rw (here, both, no_progress, front)
                    (
                      p
                          ∙ ap
                              (λ (m : ℕ).
                                take perpage [] ++ names (take m (drop (skip - plen) q.queued)))
                              r,
                      omega arith,
                    )
            ]
      ]
    ])
