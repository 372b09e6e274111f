-- ===== src/WatchAggregator/Timer.antt =====
-- lib/watchaggregator/aggregator.go: `actOnTimer` with `popOldEventsTo` and `isOld`, the batches and
-- the next delay of `notify`, the timeouts of `updateConfig`, and the set of what is being pulled. The
-- map `oldEvents` is the list of its entries: the paths of one tree differ, so that each write adds
-- one. A path is the list of its segments. The goroutine of `notify` is an action of `actOnTimer`.
pub mod Popping
pub mod Due
pub mod Sizes
pub mod Batches
use syncthing_mem.Base.{
  ℕ, suc, ◌+◌, ◌-◌, ◌*◌, ◌/◌, ◌^◌, max, Bool, true, false, not, ◌&&◌, ◌||◌, Option, none, some,
  List, [], ◌∷◌, ◌++◌, length, ltb, ◌==◌, if◌then◌else◌, Text, ℤ, pos, negsuc, ◌==ℤ◌,
}
use syncthing_mem.WatchAggregator.{
  EventType, non_remove, remove, mixed, types_eq, AggregatedEvent, EventDir, event_dir, Dirs,
  no_dirs, sub_dir, child_count, EventCounter, add, total_count, Aggregator, reset_notify_timer,
}
use syncthing_mem.WatchAggregator.Aggregate.{EventName, name_eq, has_name}

abbrev pub OldEvents : Type 0
OldEvents = List (List Text × AggregatedEvent)

-- isOld, with `2*currTime.Sub(t) > d` for times and a delay that are not negative.
unfoldable pub is_old : Aggregator → AggregatedEvent → ℕ → Bool → Bool
is_old a ev curr_time delay_rem =
    ((not delay_rem || types_eq ev.ev_type non_remove)
      && ltb (a.notify_delay + 2 * ev.last_mod_time) (2 * curr_time))
    || ltb (a.notify_timeout + ev.first_mod_time) curr_time

-- What a call of popOldEventsTo changes: the map `to`, the counts and what it goes through.
pub record Popped (A : Type 0) : Type 0 where
  pub to : OldEvents
  pub counts : EventCounter
  pub left : A

abbrev pub keep_event :
    Text
    → AggregatedEvent
    → Popped (List (Text × AggregatedEvent))
    → Popped (List (Text × AggregatedEvent))
keep_event name ev p = record p { left = (name, ev) ∷ p.left }

abbrev pub keep_dir : Text → EventDir → Popped Dirs → Popped Dirs
keep_dir name d p = record {
  to = p.to;
  counts = p.counts;
  left = if child_count d == 0 then p.left else sub_dir name d p.left;
}

abbrev pub keep_events : Dirs → Popped (List (Text × AggregatedEvent)) → Popped EventDir
keep_events ds p = record { to = p.to; counts = p.counts; left = event_dir p.left ds }

-- popOldEventsTo, for a test of the events that are old.
module _ (old : AggregatedEvent → Bool) where
  -- the loop over the events
  unfoldable pub pop_events :
      List Text
      → OldEvents
      → EventCounter
      → List (Text × AggregatedEvent)
      → Popped (List (Text × AggregatedEvent))
  pop_events path to c [] = record { to = to; counts = c; left = [] }
  pop_events path to c ((name, ev) ∷ es) =
      let gone =
        pop_events path (to ++ (path ++ name ∷ [], ev) ∷ []) (add ev.ev_type (negsuc 0) c) es in
      let kept = keep_event name ev (pop_events path to c es) in if old ev then gone else kept

  unfoldable mutual
    unfolding pop_events

    pub pop_old_events_to : List Text → OldEvents → EventCounter → EventDir → Popped EventDir
    pop_old_events_to path to c (event_dir es ds) =
        let below = pop_dirs path to c ds in
        keep_events below.left (pop_events path below.to below.counts es)

    -- the loop over the child directories
    pub pop_dirs : List Text → OldEvents → EventCounter → Dirs → Popped Dirs
    pop_dirs path to c no_dirs = record { to = to; counts = c; left = no_dirs }
    pop_dirs path to c (sub_dir name d ds) =
        let child = pop_old_events_to (path ++ name ∷ []) to c d in
        keep_dir name child.left (pop_dirs path child.to child.counts ds)

-- What actOnTimer does but for the aggregator: nothing, or the start of `notify`.
pub data Action : Type 0 where
  none_started : Action
  notify_started : OldEvents → Action

abbrev pub popped_into : Aggregator → Popped EventDir → Aggregator
popped_into a p = record a { counts = p.counts; root = p.left }

-- The events popped at a timer: the old ones, and the removals if nothing else is left.
unfoldable pub pop_round : Bool → OldEvents → ℕ → Aggregator → Popped EventDir
pop_round delay_rem to now a =
    pop_old_events_to (λ ev. is_old a ev now delay_rem) [] to a.counts a.root

unfoldable pub only_removes : Aggregator → EventCounter → Bool
only_removes a c =
    not (a.notify_delay == a.notify_timeout)
    && (c.non_removes ==ℤ pos 0)
    && not (c.removes ==ℤ pos 0)

unfoldable pub pop_for_timer : ℕ → Aggregator → Popped EventDir
pop_for_timer now a =
    let first = pop_round true [] now a in
    let one_second = pop_round false first.to now (popped_into a first) in
    if only_removes a first.counts then one_second else first

abbrev pub end_of_timer : Aggregator → OldEvents → Aggregator × Action
end_of_timer a [] = (reset_notify_timer a.notify_delay a, none_started)
end_of_timer a (e ∷ es) = (a, notify_started (e ∷ es))

-- actOnTimer
unfoldable pub act_on_timer : ℕ → Aggregator → Aggregator × Action
act_on_timer now a =
    if total_count a.counts ==ℤ pos 0
    then (record a { timer_needs_reset = true }, none_started)
    else (let p = pop_for_timer now a in end_of_timer (popped_into a p) p.to)

-- notify: the paths of the events of one type
unfoldable pub batch : EventType → OldEvents → List (List Text)
batch t [] = []
batch t ((path, ev) ∷ old) =
    let rest = batch t old in if types_eq ev.ev_type t then path ∷ rest else rest

abbrev pub send_batch : List (List Text) → List (List (List Text)) → List (List (List Text))
send_batch [] sent = sent
send_batch (p ∷ ps) sent = (p ∷ ps) ∷ sent

-- The batches that notify sends, in order, where nothing ends the aggregator.
unfoldable pub batches : OldEvents → List (List (List Text))
batches old =
    send_batch (batch non_remove old)
      (send_batch (batch mixed old) (send_batch (batch remove old) []))

-- time.Millisecond
abbrev pub buffer : ℕ
buffer = 10 ^ 6

-- The delay that notify asks for when sending took `duration`.
unfoldable pub next_delay : ℕ → ℕ → ℕ
next_delay notify_delay duration =
    if ltb duration (notify_delay / 10)
    then notify_delay
    else if ltb notify_delay (duration + buffer)
    then buffer
    else notify_delay - duration

-- time.Second
abbrev pub one_second : ℕ
one_second = 10 ^ 9

-- notifyTimeout, for a delay in nanoseconds.
unfoldable pub notify_timeout_of : ℕ → ℕ
notify_timeout_of delay =
    if ltb delay (10 * one_second)
    then delay * 6
    else if ltb delay (60 * one_second)
    then 60 * one_second
    else delay

-- updateConfig, by the delay and the timeout that a folder is configured with, in nanoseconds. The
-- conversion of a delay to whole seconds drops the rest.
unfoldable pub update_config : ℕ → ℕ → Aggregator → Aggregator
update_config delay max_delay a = record a {
  notify_delay = delay / one_second * one_second;
  notify_timeout = if ltb 0 max_delay then max max_delay delay else notify_timeout_of delay;
}

pub data ProgressEvent : Type 0 where
  item_started item_finished : EventName → ProgressEvent

abbrev without_name : EventName → List EventName → List EventName
without_name n [] = []
without_name n (m ∷ ms) = let rest = without_name n ms in if name_eq m n then rest else m ∷ rest

-- updateInProgressSet
unfoldable pub update_in_progress_set : ProgressEvent → List EventName → List EventName
update_in_progress_set (item_started n) in_progress =
    if has_name n in_progress then in_progress else n ∷ in_progress
update_in_progress_set (item_finished n) in_progress = without_name n in_progress
