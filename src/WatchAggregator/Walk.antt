-- ===== src/WatchAggregator/Walk.antt =====
-- lib/watchaggregator/aggregator.go: what a pass of `aggregateEvent` leaves of the tree.
use syncthing_mem.Base.{
  ℕ, ◌+◌, ◌≤◌, ◌<◌, ◌≡◌, refl, false, Option, none, some, List, [], ◌∷◌, ◌++◌, length, arith, ◌==◌,
  ==→eq, if_ind, Text, look, length-append,
}
use syncthing_mem.WatchAggregator.{
  EventType, merge_types, AggregatedEvent, EventDir, event_dir, events, dirs, dir_count,
  child_count, look_dir, first_mod_time, event_type, EventCounter,
}
use syncthing_mem.WatchAggregator.Aggregate.{
  Pass, tracked, added, again, panics, track_modified, replace_dir, track_new, track_last,
  child_or_new, put_child, modified, new_event_at, within_child, walk_round, walk,
}
use syncthing_mem.WatchAggregator.Valid.{
  BelowIsOk, DirsAreOk, IsOk, first_mod_time-some, event_type-some, look_dir-DirsAreOk,
  put_dir-DirsAreOk, delete_dir-DirsAreOk, look-length_pos, length-put_new, length-put_old,
  dir_count-put_new, dir_count-put_old, dir_count-delete_dir,
}

-- A predicate of the directory that a pass leaves; a panic leaves none.
abbrev pub PassIs : (EventDir → Type 0) → Pass → Type 0
PassIs P (tracked d c) = P d
PassIs P (added d c) = P d
PassIs P (again d p) = P d
PassIs P panics = ⊥

-- The call is made again only for a directory above the name.
abbrev pub Climbs : ℕ → Pass → Type 0
Climbs n (again d p) = length p ≤ n
Climbs n _ = Unit {0}

PassIs-within_child :
    (P Q : EventDir → Type 0) (name : Text) (dir : EventDir) (pass : Pass)
    → ((d : EventDir) → P d → Q (put_child name dir d))
    → PassIs P pass
    → PassIs Q (within_child name dir pass)
unfolding within_child
PassIs-within_child P Q name dir (tracked d c) step h = step d h
PassIs-within_child P Q name dir (added d c) step h = step d h
PassIs-within_child P Q name dir (again d p) step h = step d h
PassIs-within_child P Q name dir panics step h = h

Climbs-within_child :
    (n : ℕ) (name : Text) (dir : EventDir) (pass : Pass)
    → Climbs n pass
    → Climbs n (within_child name dir pass)
unfolding within_child
Climbs-within_child n name dir (tracked d c) h = h
Climbs-within_child n name dir (added d c) h = h
Climbs-within_child n name dir (again d p) h = h
Climbs-within_child n name dir panics h = h

-- A directory that may be empty, within its limit.
module _ (per_dir : ℕ) (per_dir_pos : 0 < per_dir) (typ : EventType) (ev_time now : ℕ) where
  abbrev Fits : ℕ → EventDir → Type 0
  Fits limit d = (child_count d ≤ limit) × BelowIsOk per_dir d

  track_modified-IsOk :
      (limit : ℕ) (name : Text) (ev : AggregatedEvent) (dir : EventDir) (c : EventCounter)
      → Fits limit dir
      → look name (events dir) ≡ some ev
      → PassIs (IsOk per_dir limit) (track_modified typ ev_time name ev dir c)
  unfolding track_modified BelowIsOk
  track_modified-IsOk limit name ev (event_dir es ds) c (p, b) h =
      let same = length-put_old name (modified typ ev_time ev) ev es h in
      (omega (arith, look-length_pos name es h), omega arith, b)

  replace_dir-IsOk :
      (limit : ℕ) (name : Text) (child : EventDir) (o : Option ℕ) (q : Option EventType)
      (dir : EventDir) (c : EventCounter)
      → Fits limit dir
      → look name (events dir) ≡ none
      → look_dir name (dirs dir) ≡ some child
      → (t : ℕ) × (o ≡ some t)
      → (t : EventType) × (q ≡ some t)
      → PassIs (IsOk per_dir limit) (replace_dir typ ev_time name o q dir c)
  unfolding replace_dir BelowIsOk
  replace_dir-IsOk limit name child none q dir c fits h g (t, o) r = absurd (cc)
  replace_dir-IsOk limit name child (some t) none dir c fits h g o (s, q) = absurd (cc)
  replace_dir-IsOk limit name child (some t) (some s) (event_dir es ds) c (p, b) h g _ _ =
      let more = length-put_new name (new_event_at t ev_time (merge_types typ s)) es h in
      let fewer = dir_count-delete_dir name child ds g in
      (omega arith, omega arith, delete_dir-DirsAreOk per_dir name ds b)

  track_new-IsOk :
      (limit : ℕ) (walked : List Text) (name : Text) (o : Option EventDir) (dir : EventDir)
      (c : EventCounter)
      → 0 < limit
      → Fits limit dir
      → look name (events dir) ≡ none
      → look_dir name (dirs dir) ≡ o
      → PassIs (IsOk per_dir limit) (track_new limit typ ev_time now walked name o dir c)
  unfolding track_new BelowIsOk
  track_new-IsOk limit walked name none (event_dir es ds) c pos_limit (p, b) h g =
      if_ind (PassIs (IsOk per_dir limit)) (length es + dir_count ds == limit) _ _
        (λ full. let e = ==→eq _ _ full in (omega arith, p, b))
        (λ room.
          let more = length-put_new name (new_event_at ev_time ev_time typ) es h in
          (omega arith, ground arith, b))
  track_new-IsOk limit walked name (some child) (event_dir es ds) c pos_limit (p, b) h g =
      let (l, _, below) = look_dir-DirsAreOk per_dir name ds child b g in
      replace_dir-IsOk limit name child _ _ (event_dir es ds) c (p, b) h g
        (first_mod_time-some per_dir now child l below) (event_type-some per_dir child l below)

  track_last-IsOk :
      (limit : ℕ) (walked : List Text) (name : Text) (o : Option AggregatedEvent) (dir : EventDir)
      (c : EventCounter)
      → 0 < limit
      → Fits limit dir
      → look name (events dir) ≡ o
      → PassIs (IsOk per_dir limit) (track_last limit typ ev_time now walked name o dir c)
  unfolding track_last
  track_last-IsOk limit walked name (some ev) dir c pos_limit fits h =
      track_modified-IsOk limit name ev dir c fits h
  track_last-IsOk limit walked name none dir c pos_limit fits h =
      track_new-IsOk limit walked name _ dir c pos_limit fits h refl

  -- A child that is put back, or put in for the first time where there is room.
  put_child-IsOk :
      (limit : ℕ) (name : Text) (o : Option EventDir) (dir d : EventDir)
      → Fits limit dir
      → (child_count dir == limit) ≡ false
      → look_dir name (dirs dir) ≡ o
      → IsOk per_dir per_dir d
      → IsOk per_dir limit (put_child name dir d)
  unfolding BelowIsOk
  put_child-IsOk limit name none (event_dir es ds) d (p, b) room g h =
      let more = dir_count-put_new name d ds g in
      (omega arith, ground arith, put_dir-DirsAreOk per_dir name d ds h b)
  put_child-IsOk limit name (some old) (event_dir es ds) d (p, b) room g h =
      let same = dir_count-put_old name d old ds g in
      let put_back = dir_count-delete_dir name old ds g in
      (omega arith, omega arith, put_dir-DirsAreOk per_dir name d ds h b)

  child-Fits :
      (name : Text) (o : Option EventDir) (dir : EventDir)
      → BelowIsOk per_dir dir
      → look_dir name (dirs dir) ≡ o
      → Fits per_dir (child_or_new o)
  unfolding BelowIsOk DirsAreOk
  child-Fits name none dir b g = (omega arith, tt)
  child-Fits name (some d) (event_dir es ds) b g =
      let (_, most, below) = look_dir-DirsAreOk per_dir name ds d b g in (most, below)

  walk_round-IsOk :
      (limit : ℕ) (walked : List Text) (name : Text) (o : Option AggregatedEvent) (pass : Pass)
      (dir : EventDir) (c : EventCounter)
      → 0 < limit
      → Fits limit dir
      → look name (events dir) ≡ o
      → PassIs (IsOk per_dir per_dir) pass
      → PassIs (IsOk per_dir limit) (walk_round limit typ ev_time walked name o pass dir c)
  unfolding walk_round
  walk_round-IsOk limit walked name (some ev) pass dir c pos_limit fits h ih =
      track_modified-IsOk limit name ev dir c fits h
  walk_round-IsOk limit walked name none pass dir c pos_limit (p, b) h ih =
      if_ind (PassIs (IsOk per_dir limit)) (child_count dir == limit) _ _
        (λ full. let e = ==→eq _ _ full in (omega arith, p, b))
        (λ room.
          PassIs-within_child (IsOk per_dir per_dir) (IsOk per_dir limit) name dir pass
            (λ d. put_child-IsOk limit name _ dir d (p, b) room refl) ih)

  -- A pass does not panic, and what it leaves is not empty and within its limits.
  pub walk-IsOk :
      (limit : ℕ) (walked : List Text) (name : Text) (rest : List Text) (dir : EventDir)
      (c : EventCounter)
      → 0 < limit
      → child_count dir ≤ limit
      → BelowIsOk per_dir dir
      → PassIs (IsOk per_dir limit) (walk per_dir limit typ ev_time now walked name rest dir c)
  unfolding walk
  walk-IsOk limit walked name [] dir c pos_limit p b =
      track_last-IsOk limit walked name _ dir c pos_limit (p, b) refl
  walk-IsOk limit walked name (next ∷ rest) dir c pos_limit p b =
      let (q, below) = child-Fits name _ dir b refl in
      walk_round-IsOk limit walked name _ _ dir c pos_limit (p, b) refl
        (walk-IsOk per_dir (walked ++ name ∷ []) next rest _ c per_dir_pos q below)

module _ (per_dir : ℕ) (typ : EventType) (ev_time now : ℕ) where
  track_modified-Climbs :
      (n : ℕ) (name : Text) (ev : AggregatedEvent) (dir : EventDir) (c : EventCounter)
      → Climbs n (track_modified typ ev_time name ev dir c)
  unfolding track_modified
  track_modified-Climbs n name ev dir c = tt

  replace_dir-Climbs :
      (n : ℕ) (name : Text) (o : Option ℕ) (q : Option EventType) (dir : EventDir)
      (c : EventCounter)
      → Climbs n (replace_dir typ ev_time name o q dir c)
  unfolding replace_dir
  replace_dir-Climbs n name none q dir c = tt
  replace_dir-Climbs n name (some t) none dir c = tt
  replace_dir-Climbs n name (some t) (some s) dir c = tt

  track_last-Climbs :
      (limit : ℕ) (walked : List Text) (name : Text) (o : Option AggregatedEvent)
      (p : Option EventDir) (dir : EventDir) (c : EventCounter)
      → look_dir name (dirs dir) ≡ p
      → Climbs (length walked) (track_last limit typ ev_time now walked name o dir c)
  unfolding track_last track_new
  track_last-Climbs limit walked name (some ev) p dir c e =
      track_modified-Climbs (length walked) name ev dir c
  track_last-Climbs limit walked name none none dir c e =
      rw e (
        if_ind (Climbs (length walked)) (child_count dir == limit) _ _ (λ _. omega arith) (λ _. tt))
  track_last-Climbs limit walked name none (some d) dir c e =
      rw e (replace_dir-Climbs (length walked) name (first_mod_time now d) (event_type d) dir c)

  walk_round-Climbs :
      (n limit : ℕ) (walked : List Text) (name : Text) (o : Option AggregatedEvent) (pass : Pass)
      (dir : EventDir) (c : EventCounter)
      → length walked ≤ n
      → Climbs n pass
      → Climbs n (walk_round limit typ ev_time walked name o pass dir c)
  unfolding walk_round
  walk_round-Climbs n limit walked name (some ev) pass dir c h ih =
      track_modified-Climbs n name ev dir c
  walk_round-Climbs n limit walked name none pass dir c h ih =
      if_ind (Climbs n) (child_count dir == limit) _ _ (λ _. h)
        (λ _. Climbs-within_child n name dir pass ih)

  -- The name of the next call has fewer segments.
  pub walk-Climbs :
      (n limit : ℕ) (walked : List Text) (name : Text) (rest : List Text) (dir : EventDir)
      (c : EventCounter)
      → n ≡ length walked + length rest
      → Climbs n (walk per_dir limit typ ev_time now walked name rest dir c)
  unfolding walk
  walk-Climbs n limit walked name [] dir c h =
      let e : n ≡ length walked = omega arith in
      rw e (track_last-Climbs limit walked name _ _ dir c refl)
  walk-Climbs n limit walked name (next ∷ rest) dir c h =
      walk_round-Climbs n limit walked name _ _ dir c (omega arith) (
        walk-Climbs n per_dir (walked ++ name ∷ []) next rest _ c
          (omega (arith, length-append {0} walked (name ∷ []))))
