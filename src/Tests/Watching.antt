-- ===== src/Tests/Watching.antt =====
-- lib/watchaggregator/aggregator.go at a folder with a directory of two changed files.
use mathlib.Core.List.{Perm}
use syncthing_mem.Base.{◌≡◌, refl, true, false, [], ◌∷◌, ◌++◌, arith, Text, pos, ◌+ℤ◌, int_laws}
use syncthing_mem.WatchAggregator.{
  EventType, non_remove, remove, mixed, AggregatedEvent, EventDir, event_dir, no_dirs, sub_dir,
  first_mod_time, event_type, Aggregator, total_count, reset_notify_timer,
  reset_notify_timer_if_needed,
}
use syncthing_mem.WatchAggregator.Aggregate.{
  EventName, done, replace_dir, track_new, track_last, walk, end_pass, aggregate, aggregate_event,
  new_event,
}
use syncthing_mem.WatchAggregator.Valid.{BelowIsOk}
use syncthing_mem.WatchAggregator.Counts.{event_count}
use syncthing_mem.WatchAggregator.Invariant.{Ends, IsValid, aggregate_event-IsValid}
use syncthing_mem.WatchAggregator.Lossless.{
  Gains, Noticed, aggregate_event-Gains, new_event-Noticed,
}
use syncthing_mem.WatchAggregator.Drift.{Drifts, aggregate_event-Drifts}
use syncthing_mem.WatchAggregator.Timer.{
  OldEvents, is_old, pop_events, pop_old_events_to, pop_round, only_removes, pop_for_timer,
  act_on_timer, batch, batches,
}
use syncthing_mem.WatchAggregator.Loop.{
  Input, timer_fired, interval_sent, new_aggregator, main_loop, GoesOn, new_aggregator-GoesOn,
}
use syncthing_mem.WatchAggregator.Timer.Due.{Acts, act_on_timer-Acts}
use syncthing_mem.WatchAggregator.Timer.Batches.{paths, flat, batches-Perm}

abbrev d : Text
d = b'd' ∷ []

abbrev f : Text
f = b'f' ∷ []

abbrev g : Text
g = b'g' ∷ []

abbrev at_five : EventType → AggregatedEvent
at_five t = record { first_mod_time = 5; last_mod_time = 5; ev_type = t }

abbrev changed : EventDir
changed = event_dir ((f, at_five non_remove) ∷ (g, at_five non_remove) ∷ []) no_dirs

abbrev watching : Aggregator
watching = record {
  notify_delay = 10;
  notify_timeout = 60;
  timer_needs_reset = true;
  timer_resets = [];
  counts = record { removes = pos 0; non_removes = pos 2 };
  root = event_dir [] (sub_dir d changed no_dirs);
}

watching-IsValid : IsValid 4 2 watching
unfolding BelowIsOk event_count
watching-IsValid = record {
  root_fits = omega arith;
  below = (omega arith, omega arith, tt, tt);
  counted = omega int_laws;
  few = omega int_laws;
}

-- An event at the directory takes the place of the two below it, and three are counted.
abbrev replaced : Aggregator
replaced = record watching {
  timer_needs_reset = false;
  timer_resets = 10 ∷ [];
  counts = record { removes = pos 0; non_removes = pos 3 };
  root =
      event_dir ((d, record { first_mod_time = 5; last_mod_time = 7; ev_type = non_remove }) ∷ [])
        no_dirs;
}

new_event_runs : new_event 4 2 non_remove 7 (d, []) [] watching ≡ done replaced
unfolding new_event aggregate_event aggregate walk track_last track_new replace_dir first_mod_time
    event_type end_pass reset_notify_timer_if_needed reset_notify_timer ◌+ℤ◌
new_event_runs = refl

-- When that event has been popped nothing is left, and two are counted still.
left_over : (act_on_timer 100 replaced).0.root ≡ event_dir [] no_dirs
unfolding act_on_timer pop_for_timer pop_round pop_old_events_to pop_events is_old only_removes
    reset_notify_timer ◌+ℤ◌
left_over = refl

left_over_counts : total_count (act_on_timer 100 replaced).0.counts ≡ pos 2
unfolding act_on_timer pop_for_timer pop_round pop_old_events_to pop_events is_old only_removes
    reset_notify_timer ◌+ℤ◌
left_over_counts = refl

abbrev deep : EventName
deep = (d, (b'h' ∷ []) ∷ [])

aggregate_event-IsValid_example : Ends (IsValid 4 2) (aggregate_event 4 2 remove 7 7 deep watching)
aggregate_event-IsValid_example =
    aggregate_event-IsValid 4 2 (omega arith) (omega arith) remove 7 7 deep watching
      watching-IsValid

aggregate_event-Gains_example :
    Ends (Gains remove deep watching) (aggregate_event 4 2 remove 7 7 deep watching)
aggregate_event-Gains_example =
    aggregate_event-Gains 4 2 (omega arith) (omega arith) remove 7 7 deep watching watching-IsValid

new_event-Noticed_example :
    Ends
      (Noticed deep ((f, []) ∷ []) watching)
      (new_event 4 2 remove 7 deep ((f, []) ∷ []) watching)
new_event-Noticed_example =
    new_event-Noticed 4 2 (omega arith) (omega arith) remove 7 deep ((f, []) ∷ []) watching
      watching-IsValid

aggregate_event-Drifts_example :
    Ends (Drifts changed watching) (aggregate_event 4 2 non_remove 7 7 (d, []) watching)
unfolding ◌+ℤ◌
aggregate_event-Drifts_example =
    aggregate_event-Drifts 4 2 non_remove 7 7 d watching changed watching-IsValid refl refl refl

act_on_timer-Acts_example : Acts 4 2 watching 12 (act_on_timer 12 watching)
act_on_timer-Acts_example = act_on_timer-Acts 4 2 watching 12 watching-IsValid

abbrev handed : OldEvents
handed = (d ∷ [], at_five remove) ∷ (f ∷ [], at_five mixed) ∷ (g ∷ [], at_five non_remove) ∷ []

batches-Perm_example :
    (flat (batches handed) ≡ batch non_remove handed ++ (batch mixed handed ++ batch remove handed))
    × Perm (flat (batches handed)) (paths handed)
batches-Perm_example = batches-Perm handed (refl, (refl, (refl, tt)))

new_aggregator-GoesOn_example : GoesOn 4 2 (
    main_loop 4 2
      (Input.changed remove deep 1 ∷ timer_fired 90 ∷ interval_sent 10 ∷ [])
      (record { aggregator = new_aggregator 10 60; in_progress = []; actions = [] }))
new_aggregator-GoesOn_example =
    new_aggregator-GoesOn 4 2 (omega arith) (omega arith) 10 60
      (Input.changed remove deep 1 ∷ timer_fired 90 ∷ interval_sent 10 ∷ [])
