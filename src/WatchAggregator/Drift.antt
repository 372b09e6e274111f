-- ===== src/WatchAggregator/Drift.antt =====
-- lib/watchaggregator/aggregator.go: the counts when an event takes the place of a directory.
use syncthing_mem.Base.{
  ℕ, suc, ◌+◌, ◌≤◌, ◌≡◌, false, ◌||◌, Option, none, some, [], arith, if_ind, Text, look, pos, ◌≤ℤ◌,
  ◌==ℤ◌,
}
use syncthing_mem.WatchAggregator.{
  EventType, merge_types, EventDir, event_dir, events, dirs, look_dir, first_mod_time, event_type,
  EventCounter, total_count, Aggregator, reset_notify_timer_if_needed, reset_notify_timer,
}
use syncthing_mem.WatchAggregator.Aggregate.{
  EventName, is_dot, Pass, tracked, added, again, panics, Ending, new_event_at, replace_dir, walk,
  track_last, track_new, end_pass, aggregate, aggregate_event,
}
use syncthing_mem.WatchAggregator.Valid.{
  BelowIsOk, first_mod_time-some, event_type-some, look_dir-DirsAreOk, length-put_new,
}
use syncthing_mem.WatchAggregator.Counts.{event_count, dirs_event_count-delete}
use syncthing_mem.WatchAggregator.Room.{counted_new}
use syncthing_mem.WatchAggregator.Invariant.{Ends, IsValid}

-- The events of `child` are gone, up to one, and the counts are not lower.
abbrev pub Drifts : EventDir → Aggregator → Aggregator → Type 0
Drifts child a b =
    (event_count b.root + event_count child ≤ suc (event_count a.root))
    × (total_count a.counts ≤ℤ total_count b.counts)

abbrev PassDrifts : EventDir → EventDir → EventCounter → Pass → Type 0
PassDrifts child dir c (added d c') =
    (event_count d + event_count child ≤ suc (event_count dir)) × (total_count c ≤ℤ total_count c')
PassDrifts child dir c _ = ⊥

module _ (max_files per_dir : ℕ) (typ : EventType) (ev_time now : ℕ) where
  replace_dir-PassDrifts :
      (name : Text) (child : EventDir) (o : Option ℕ) (q : Option EventType) (dir : EventDir)
      (c : EventCounter)
      → look name (events dir) ≡ none
      → look_dir name (dirs dir) ≡ some child
      → (t : ℕ) × (o ≡ some t)
      → (t : EventType) × (q ≡ some t)
      → PassDrifts child dir c (replace_dir typ ev_time name o q dir c)
  unfolding replace_dir event_count
  replace_dir-PassDrifts name child none q dir c h g (t, e) r = absurd (cc)
  replace_dir-PassDrifts name child (some t) none dir c h g e (r, f) = absurd (cc)
  replace_dir-PassDrifts name child (some t) (some r) (event_dir es ds) c h g e f =
      let more = length-put_new name (new_event_at t ev_time (merge_types typ r)) es h in
      let fewer = dirs_event_count-delete name child ds g in
      let (up, _) = counted_new per_dir typ ev_time now 0 (merge_types typ r) c in (omega arith, up)

  track_last-PassDrifts :
      (limit : ℕ) (name : Text) (child : EventDir) (dir : EventDir) (c : EventCounter)
      → BelowIsOk per_dir dir
      → look name (events dir) ≡ none
      → look_dir name (dirs dir) ≡ some child
      → PassDrifts child dir c
          (track_last limit typ ev_time now [] name (look name (events dir)) dir c)
  unfolding track_last track_new BelowIsOk
  track_last-PassDrifts limit name child (event_dir es ds) c b h g =
      let (l, _, below) = look_dir-DirsAreOk per_dir name ds child b g in
      rw (h, g)
        (replace_dir-PassDrifts name child (first_mod_time now child) (event_type child)
          (event_dir es ds) c h g (first_mod_time-some per_dir now child l below)
          (event_type-some per_dir child l below))

  end_pass-Drifts :
      (call : EventName → Aggregator → Ending) (a : Aggregator) (child : EventDir) (pass : Pass)
      → PassDrifts child a.root a.counts pass
      → Ends (Drifts child a) (end_pass call a pass)
  unfolding end_pass reset_notify_timer_if_needed reset_notify_timer
  end_pass-Drifts call a child (tracked d c) h = absurd h
  end_pass-Drifts call a child (added d c) h =
      if_ind (Drifts child a) a.timer_needs_reset _ _ (λ _. h) (λ _. h)
  end_pass-Drifts call a child (again d p) h = absurd h
  end_pass-Drifts call a child panics h = absurd h

  -- On a valid aggregator with counts below maxFiles, an event at a name other than "." that the root
  -- tracks as a directory, and not as an event: afterwards the events are fewer by those of the
  -- directory, but for one, and the counts come to no less than before.
  pub aggregate_event-Drifts :
      (s : Text) (a : Aggregator) (child : EventDir)
      → IsValid max_files per_dir a
      → (is_dot (s, []) || (total_count a.counts ==ℤ pos max_files)) ≡ false
      → look s (events a.root) ≡ none
      → look_dir s (dirs a.root) ≡ some child
      → Ends (Drifts child a) (aggregate_event max_files per_dir typ ev_time now (s, []) a)
  unfolding aggregate_event aggregate walk
  aggregate_event-Drifts s a child v usual h g =
      if_ind (Ends (Drifts child a)) (is_dot (s, []) || (total_count a.counts ==ℤ pos max_files)) _
        _ (λ other. absurd (cc))
        (λ _.
          end_pass-Drifts _ a child _
            (track_last-PassDrifts max_files s child a.root a.counts v.below h g))
