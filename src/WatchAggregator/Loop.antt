-- ===== src/WatchAggregator/Loop.antt =====
-- lib/watchaggregator/aggregator.go: `mainLoop` as a recursion on what its channels deliver, in the
-- order in which it is taken. The delay that `notify` sends back is one of these.
use syncthing_mem.Base.{
  ℕ, ◌<◌, false, ◌>>=◌, Option, none, some, List, [], ◌∷◌, ◌++◌, arith, int_laws,
}
use syncthing_mem.WatchAggregator.{
  EventType, Aggregator, new_event_dir, no_counts, reset_notify_timer,
}
use syncthing_mem.WatchAggregator.Aggregate.{
  EventName, Ending, done, panicked, out_of_fuel, new_event,
}
use syncthing_mem.WatchAggregator.Valid.{BelowIsOk}
use syncthing_mem.WatchAggregator.Counts.{event_count}
use syncthing_mem.WatchAggregator.Invariant.{Ends, IsValid, new_event-IsValid}
use syncthing_mem.WatchAggregator.Timer.{
  Action, act_on_timer, update_config, ProgressEvent, update_in_progress_set,
}
use syncthing_mem.WatchAggregator.Timer.Due.{act_on_timer-Acts}

-- What the channels deliver, with the time where the clock is read.
pub data Input : Type 0 where
  changed : EventType → EventName → ℕ → Input
  progressed : ProgressEvent → Input
  timer_fired : ℕ → Input
  interval_sent : ℕ → Input
  configured : (delay max_delay : ℕ) → Input

-- newAggregator
unfoldable pub new_aggregator : ℕ → ℕ → Aggregator
new_aggregator delay max_delay = update_config delay max_delay (record {
  notify_delay = 0;
  notify_timeout = 0;
  timer_needs_reset = false;
  timer_resets = [];
  counts = no_counts;
  root = new_event_dir;
})

-- The local state of the loop, with what was handed to `notify`.
pub record Loop : Type 0 where
  pub aggregator : Aggregator
  pub in_progress : List EventName
  pub actions : List Action

abbrev with_aggregator : Loop → Ending → Option Loop
with_aggregator l (done a) = some (record l { aggregator = a })
with_aggregator l panicked = none
with_aggregator l out_of_fuel = none

abbrev acted : Loop → Aggregator × Action → Option Loop
acted l (a, action) = some (record l { aggregator = a; actions = l.actions ++ action ∷ [] })

module _ (max_files per_dir : ℕ) where
  -- One round of the loop; `none` if it does not return.
  unfoldable pub round : Input → Loop → Option Loop
  round (changed typ name now) l =
      with_aggregator l (new_event max_files per_dir typ now name l.in_progress l.aggregator)
  round (progressed e) l = some (record l { in_progress = update_in_progress_set e l.in_progress })
  round (timer_fired now) l = acted l (act_on_timer now l.aggregator)
  round (interval_sent d) l = some (record l { aggregator = reset_notify_timer d l.aggregator })
  round (configured delay max_delay) l =
      some (record l { aggregator = update_config delay max_delay l.aggregator })

  unfoldable pub main_loop : List Input → Loop → Option Loop
  main_loop [] l = some l
  main_loop (i ∷ is) l = round i l >>= main_loop is

-- The loop goes on, with a valid aggregator.
abbrev pub GoesOn : ℕ → ℕ → Option Loop → Type 0
GoesOn max_files per_dir none = ⊥
GoesOn max_files per_dir (some l) = IsValid max_files per_dir l.aggregator

module _ (max_files per_dir : ℕ) (pos_max : 0 < max_files) (pos_per : 0 < per_dir) where
  with_aggregator-GoesOn :
      (l : Loop) (o : Ending)
      → Ends (IsValid max_files per_dir) o
      → GoesOn max_files per_dir (with_aggregator l o)
  with_aggregator-GoesOn l (done a) h = h
  with_aggregator-GoesOn l panicked h = h
  with_aggregator-GoesOn l out_of_fuel h = h

  round-GoesOn :
      (i : Input) (l : Loop)
      → IsValid max_files per_dir l.aggregator
      → GoesOn max_files per_dir (round max_files per_dir i l)
  unfolding round update_config reset_notify_timer
  round-GoesOn (changed typ name now) l v = with_aggregator-GoesOn l _ (
      new_event-IsValid max_files per_dir pos_max pos_per typ now name l.in_progress l.aggregator v)
  round-GoesOn (progressed e) l v = v
  round-GoesOn (timer_fired now) l v =
      (act_on_timer-Acts max_files per_dir l.aggregator now v).valid
  round-GoesOn (interval_sent d) l v = record {
    root_fits = v.root_fits;
    below = v.below;
    counted = v.counted;
    few = v.few;
  }
  round-GoesOn (configured delay max_delay) l v = record {
    root_fits = v.root_fits;
    below = v.below;
    counted = v.counted;
    few = v.few;
  }

  then-GoesOn :
      (is : List Input) (o : Option Loop)
      → GoesOn max_files per_dir o
      → ((l : Loop)
          → IsValid max_files per_dir l.aggregator
          → GoesOn max_files per_dir (main_loop max_files per_dir is l))
      → GoesOn max_files per_dir (o >>= main_loop max_files per_dir is)
  then-GoesOn is none h ih = h
  then-GoesOn is (some l) h ih = ih l h

  -- Whatever the channels deliver, no round of the loop panics or fails to return, and the aggregator
  -- is valid after them.
  main_loop-GoesOn :
      (is : List Input) (l : Loop)
      → IsValid max_files per_dir l.aggregator
      → GoesOn max_files per_dir (main_loop max_files per_dir is l)
  unfolding main_loop
  main_loop-GoesOn [] l v = v
  main_loop-GoesOn (i ∷ is) l v =
      then-GoesOn is (round max_files per_dir i l) (round-GoesOn i l v) (main_loop-GoesOn is)

  -- With limits above zero, whatever the channels deliver to the main loop of a new aggregator, and in
  -- what order, no round panics or fails to return, and the aggregator is valid after them.
  pub new_aggregator-GoesOn :
      (delay max_delay : ℕ) (is : List Input)
      → GoesOn max_files per_dir (
          main_loop max_files per_dir is (record {
            aggregator = new_aggregator delay max_delay;
            in_progress = [];
            actions = [];
          }))
  unfolding new_aggregator update_config BelowIsOk event_count
  new_aggregator-GoesOn delay max_delay is = main_loop-GoesOn is _ (record {
    root_fits = omega arith;
    below = tt;
    counted = omega int_laws;
    few = omega int_laws;
  })
