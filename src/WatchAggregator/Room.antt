-- ===== src/WatchAggregator/Room.antt =====
-- lib/watchaggregator/aggregator.go: the counts and the events of the tree over a pass of `aggregateEvent`.
use syncthing_mem.Base.{
  ℕ, suc, ◌+◌, ◌-◌, ◌≤◌, ◌<◌, ◌≡◌, refl, Option, none, some, List, [], ◌∷◌, ◌++◌, length, arith,
  ◌==◌, if◌then◌else◌, if_ind, Option-cases, inl, inr, Text, look, pos, negsuc, pos_part, neg_part,
  ◌≤ℤ◌,
}
use syncthing_mem.WatchAggregator.{
  EventType, types_eq, merge_types, AggregatedEvent, EventDir, event_dir, events, dirs, dir_count,
  child_count, look_dir, EventCounter, add, total_count,
}
use syncthing_mem.WatchAggregator.Aggregate.{
  Pass, tracked, added, again, panics, modified, new_event_at, track_modified, replace_dir,
  track_new, track_last, child_or_new, put_child, within_child, walk_round, walk,
}
use syncthing_mem.WatchAggregator.Valid.{
  BelowIsOk, length-put_new, length-put_old, look_dir-DirsAreOk,
}
use syncthing_mem.WatchAggregator.Counts.{
  event_count, dirs_event_count-put_new, dirs_event_count-put_old, dirs_event_count-delete,
  event_count_pos, total_count-add, total_count-recount,
}

-- The counts are not less than the number of events of the directory and `k` elsewhere.
abbrev pub HasRoom : ℕ → EventDir → EventCounter → Type 0
HasRoom k d c = pos (event_count d + k) ≤ℤ total_count c

-- After a pass with the counts `c`, which come to `n` at most.
abbrev pub PassCounts : ℕ → ℕ → EventCounter → Pass → Type 0
PassCounts k n c (tracked d c') = HasRoom k d c' × (total_count c' ≤ℤ pos n)
PassCounts k n c (added d c') = HasRoom k d c' × (total_count c' ≤ℤ pos (suc n))
PassCounts k n c (again d p) = HasRoom k d c
PassCounts k n c panics = Unit {0}

PassCounts-within_child :
    (j k n : ℕ) (name : Text) (dir : EventDir) (c : EventCounter) (pass : Pass)
    → ((d : EventDir) → event_count (put_child name dir d) + j ≡ event_count d + k)
    → PassCounts k n c pass
    → PassCounts j n c (within_child name dir pass)
unfolding within_child
PassCounts-within_child j k n name dir c (tracked d c') e (h, few) = (omega (arith, e d), few)
PassCounts-within_child j k n name dir c (added d c') e (h, few) = (omega (arith, e d), few)
PassCounts-within_child j k n name dir c (again d p) e h = omega (arith, e d)
PassCounts-within_child j k n name dir c panics e h = tt

module _ (per_dir : ℕ) (typ : EventType) (ev_time now : ℕ) (n : ℕ) where
  track_modified-PassCounts :
      (k : ℕ) (name : Text) (ev : AggregatedEvent) (dir : EventDir) (c : EventCounter)
      → HasRoom k dir c
      → total_count c ≤ℤ pos n
      → look name (events dir) ≡ some ev
      → PassCounts k n c (track_modified typ ev_time name ev dir c)
  unfolding track_modified event_count
  track_modified-PassCounts k name ev (event_dir es ds) c room few h =
      let same = length-put_old name (modified typ ev_time ev) ev es h in
      let counts = total_count-recount ev.ev_type (merge_types typ ev.ev_type) c in
      (omega arith, omega arith)

  -- The counts go up by one, or stay.
  pub counted_new :
      (merged : EventType) (c : EventCounter)
      → (total_count c
          ≤ℤ total_count
              (add merged (pos 1) (if types_eq typ merged then c else add typ (negsuc 0) c)))
        × (pos_part (
                total_count
                  (add merged (pos 1) (if types_eq typ merged then c else add typ (negsuc 0) c)))
              + neg_part (total_count c)
            ≤ suc (
                pos_part (total_count c)
                + neg_part (
                    total_count (
                      add merged
                        (pos 1)
                        (if types_eq typ merged then c else add typ (negsuc 0) c)))))
  counted_new merged c =
      if_ind
        (λ d.
          (total_count c ≤ℤ total_count (add merged (pos 1) d))
          × (pos_part (total_count (add merged (pos 1) d)) + neg_part (total_count c)
              ≤ suc (pos_part (total_count c) + neg_part (total_count (add merged (pos 1) d)))))
        (types_eq typ merged) _ _
        (λ _. let up = total_count-add merged (pos 1) c in (omega arith, omega arith))
        (λ _.
          let down = total_count-add typ (negsuc 0) c in
          let up = total_count-add merged (pos 1) (add typ (negsuc 0) c) in
          (omega arith, omega arith))

  replace_dir-PassCounts :
      (k : ℕ) (name : Text) (child : EventDir) (o : Option ℕ) (q : Option EventType)
      (dir : EventDir) (c : EventCounter)
      → HasRoom k dir c
      → total_count c ≤ℤ pos n
      → look name (events dir) ≡ none
      → look_dir name (dirs dir) ≡ some child
      → 0 < event_count child
      → PassCounts k n c (replace_dir typ ev_time name o q dir c)
  unfolding replace_dir event_count
  replace_dir-PassCounts k name child none q dir c room few h g child_pos = tt
  replace_dir-PassCounts k name child (some t) none dir c room few h g child_pos = tt
  replace_dir-PassCounts k name child (some t) (some s) (event_dir es ds) c room few h g child_pos =
      let more = length-put_new name (new_event_at t ev_time (merge_types typ s)) es h in
      let fewer = dirs_event_count-delete name child ds g in
      let (up, by_one) = counted_new (merge_types typ s) c in (omega arith, omega arith)

  track_new-PassCounts :
      (k limit : ℕ) (walked : List Text) (name : Text) (o : Option EventDir) (dir : EventDir)
      (c : EventCounter)
      → BelowIsOk per_dir dir
      → HasRoom k dir c
      → total_count c ≤ℤ pos n
      → look name (events dir) ≡ none
      → look_dir name (dirs dir) ≡ o
      → PassCounts k n c (track_new limit typ ev_time now walked name o dir c)
  unfolding track_new event_count BelowIsOk
  track_new-PassCounts k limit walked name none (event_dir es ds) c b room few h g =
      if_ind (PassCounts k n c) (length es + dir_count ds == limit) _ _ (λ _. room)
        (λ _.
          let more = length-put_new name (new_event_at ev_time ev_time typ) es h in
          let up = total_count-add typ (pos 1) c in (omega arith, omega arith))
  track_new-PassCounts k limit walked name (some child) (event_dir es ds) c b room few h g =
      let (l, _, below) = look_dir-DirsAreOk per_dir name ds child b g in
      replace_dir-PassCounts k name child _ _ (event_dir es ds) c room few h g
        (event_count_pos per_dir child l below)

  track_last-PassCounts :
      (k limit : ℕ) (walked : List Text) (name : Text) (o : Option AggregatedEvent) (dir : EventDir)
      (c : EventCounter)
      → BelowIsOk per_dir dir
      → HasRoom k dir c
      → total_count c ≤ℤ pos n
      → look name (events dir) ≡ o
      → PassCounts k n c (track_last limit typ ev_time now walked name o dir c)
  unfolding track_last
  track_last-PassCounts k limit walked name (some ev) dir c b room few h =
      track_modified-PassCounts k name ev dir c room few h
  track_last-PassCounts k limit walked name none dir c b room few h =
      track_new-PassCounts k limit walked name _ dir c b room few h refl

  event_count-put_child :
      (name : Text) (o : Option EventDir) (dir d : EventDir)
      → look_dir name (dirs dir) ≡ o
      → event_count (put_child name dir d) + event_count (child_or_new o)
        ≡ event_count dir + event_count d
  unfolding event_count
  event_count-put_child name none (event_dir es ds) d g =
      omega (arith, dirs_event_count-put_new name d ds g)
  event_count-put_child name (some old) (event_dir es ds) d g =
      omega (arith, dirs_event_count-put_old name d old ds g)

  walk_round-PassCounts :
      (k j limit : ℕ) (walked : List Text) (name : Text) (o : Option AggregatedEvent) (pass : Pass)
      (dir : EventDir) (c : EventCounter)
      → HasRoom k dir c
      → total_count c ≤ℤ pos n
      → look name (events dir) ≡ o
      → event_count (child_or_new (look_dir name (dirs dir))) + j ≡ event_count dir + k
      → PassCounts j n c pass
      → PassCounts k n c (walk_round limit typ ev_time walked name o pass dir c)
  unfolding walk_round
  walk_round-PassCounts k j limit walked name (some ev) pass dir c room few h e ih =
      track_modified-PassCounts k name ev dir c room few h
  walk_round-PassCounts k j limit walked name none pass dir c room few h e ih =
      if_ind (PassCounts k n c) (child_count dir == limit) _ _ (λ _. room)
        (λ _.
          PassCounts-within_child k j n name dir c pass
            (λ d. let put_back = event_count-put_child name _ dir d refl in omega arith) ih)

  child_or_new-le :
      (name : Text) (dir : EventDir)
      → event_count (child_or_new (look_dir name (dirs dir))) ≤ event_count dir
  unfolding event_count
  child_or_new-le name (event_dir es ds) = elim (Option-cases (look_dir name ds)) [
    | inl gone ↦ rw gone (omega arith)
    | inr (d, here) ↦ rw here (omega (arith, dirs_event_count-delete name d ds here))
  ]

  child-BelowIsOk :
      (name : Text) (o : Option EventDir) (dir : EventDir)
      → BelowIsOk per_dir dir
      → look_dir name (dirs dir) ≡ o
      → BelowIsOk per_dir (child_or_new o)
  unfolding BelowIsOk
  child-BelowIsOk name none dir b g = tt
  child-BelowIsOk name (some d) (event_dir es ds) b g =
      let (_, _, below) = look_dir-DirsAreOk per_dir name ds d b g in below

  -- A pass keeps room for the events of the tree, and counts at most one more.
  pub walk-PassCounts :
      (k limit : ℕ) (walked : List Text) (name : Text) (rest : List Text) (dir : EventDir)
      (c : EventCounter)
      → BelowIsOk per_dir dir
      → HasRoom k dir c
      → total_count c ≤ℤ pos n
      → PassCounts k n c (walk per_dir limit typ ev_time now walked name rest dir c)
  unfolding walk
  walk-PassCounts k limit walked name [] dir c b room few =
      track_last-PassCounts k limit walked name _ dir c b room few refl
  walk-PassCounts k limit walked name (next ∷ rest) dir c b room few =
      let child = child_or_new (look_dir name (dirs dir)) in
      let part = child_or_new-le name dir in
      let j = event_count dir + k - event_count child in
      walk_round-PassCounts k j limit walked name _ _ dir c room few refl (omega arith) (
        walk-PassCounts j per_dir (walked ++ name ∷ []) next rest child c
          (child-BelowIsOk name _ dir b refl) (omega arith) few)
