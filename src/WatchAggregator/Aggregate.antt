-- ===== src/WatchAggregator/Aggregate.antt =====
-- lib/watchaggregator/aggregator.go: `newEvent` and `aggregateEvent`. One pass of
-- `aggregateEvent` down the tree is `walk`; it ends with an event tracked or with the call of
-- itself for a directory above. `maxFiles` and `maxFilesPerDir` are parameters, as in the tests.
use syncthing_mem.Base.{
  ℕ, zero, suc, Bool, true, false, ◌&&◌, ◌||◌, Option, none, some, List, [], ◌∷◌, ◌++◌, length,
  ◌==◌, if◌then◌else◌, Text, text_eq, look, put, pos, negsuc, ◌==ℤ◌,
}
use syncthing_mem.WatchAggregator.{
  EventType, types_eq, merge_types, AggregatedEvent, EventDir, event_dir, Dirs, no_dirs, events,
  dirs, new_event_dir, child_count, look_dir, put_dir, delete_dir, first_mod_time, event_type,
  EventCounter, no_counts, add, total_count, Aggregator, reset_notify_timer_if_needed,
}

-- A name: its first segment and the others.
abbrev pub EventName : Type 0
EventName = Text × List Text

-- "."
abbrev pub whole_folder : Text
whole_folder = b'.' ∷ []

-- filepath.Dir of a name with the segments given before the last one.
abbrev pub dir_name : List Text → EventName
dir_name [] = (whole_folder, [])
dir_name (s ∷ ss) = (s, ss)

abbrev texts_eq : List Text → List Text → Bool
texts_eq [] [] = true
texts_eq [] (y ∷ ys) = false
texts_eq (x ∷ xs) [] = false
texts_eq (x ∷ xs) (y ∷ ys) = text_eq x y && texts_eq xs ys

abbrev pub name_eq : EventName → EventName → Bool
name_eq (s, ss) (t, ts) = text_eq s t && texts_eq ss ts

abbrev pub has_name : EventName → List EventName → Bool
has_name n [] = false
has_name n (m ∷ ms) = name_eq m n || has_name n ms

abbrev pub is_dot : EventName → Bool
is_dot n = name_eq n (whole_folder, [])

-- How a pass ends, with the directory after it: an event was tracked already, an event is added, or
-- the call is made again for the directory with the segments given.
pub data Pass : Type 0 where
  tracked : EventDir → EventCounter → Pass
  added : EventDir → EventCounter → Pass
  again : EventDir → List Text → Pass
  panics : Pass

-- A modification of what an event stands for: its type and time, and the counts.
abbrev pub modified : EventType → ℕ → AggregatedEvent → AggregatedEvent
modified typ ev_time ev = record ev {
  last_mod_time = ev_time;
  ev_type = merge_types typ ev.ev_type;
}

abbrev pub recount : EventType → EventType → EventCounter → EventCounter
recount old merged c = if types_eq old merged then c else add merged (pos 1) (add old (negsuc 0) c)

unfoldable pub track_modified :
    EventType → ℕ → Text → AggregatedEvent → EventDir → EventCounter → Pass
track_modified typ ev_time name ev dir c =
    tracked (event_dir (put name (modified typ ev_time ev) (events dir)) (dirs dir))
      (recount ev.ev_type (merge_types typ ev.ev_type) c)

-- The end of a pass that adds an event, from `firstModTime` on.
abbrev pub put_event : Text → AggregatedEvent → Dirs → EventDir → EventDir
put_event name ev ds dir = event_dir (put name ev (events dir)) ds

abbrev pub new_event_at : ℕ → ℕ → EventType → AggregatedEvent
new_event_at first ev_time typ = record {
  first_mod_time = first;
  last_mod_time = ev_time;
  ev_type = typ;
}

-- The event takes the place of a directory whose first time and type are given, or of a panic.
unfoldable pub replace_dir :
    EventType → ℕ → Text → Option ℕ → Option EventType → EventDir → EventCounter → Pass
replace_dir typ ev_time name none t dir c = panics
replace_dir typ ev_time name (some first) none dir c = panics
replace_dir typ ev_time name (some first) (some below) dir c =
    added
      (put_event name (new_event_at first ev_time (merge_types typ below))
        (delete_dir name (dirs dir)) dir)
      (add (merge_types typ below) (pos 1)
        (if types_eq typ (merge_types typ below) then c else add typ (negsuc 0) c))

-- What follows the loop, for a name that no event in its directory has: by the directory of the name.
unfoldable pub track_new :
    (limit : ℕ)
    → EventType
    → ℕ
    → ℕ
    → List Text
    → Text
    → Option EventDir
    → EventDir
    → EventCounter
    → Pass
track_new limit typ ev_time now walked name none dir c =
    if child_count dir == limit
    then again dir walked
    else added (put_event name (new_event_at ev_time ev_time typ) (dirs dir) dir)
        (add typ (pos 1) c)
track_new limit typ ev_time now walked name (some child) dir c =
    replace_dir typ ev_time name (first_mod_time now child) (event_type child) dir c

-- The event at the last segment: it is there, or it is new.
unfoldable pub track_last :
    (limit : ℕ)
    → EventType
    → ℕ
    → ℕ
    → List Text
    → Text
    → Option AggregatedEvent
    → EventDir
    → EventCounter
    → Pass
track_last limit typ ev_time now walked name (some ev) dir c =
    track_modified typ ev_time name ev dir c
track_last limit typ ev_time now walked name none dir c =
    track_new limit typ ev_time now walked name (look_dir name (dirs dir)) dir c

-- The directory below, made if it is not there.
abbrev pub child_or_new : Option EventDir → EventDir
child_or_new none = new_event_dir
child_or_new (some d) = d

abbrev pub put_child : Text → EventDir → EventDir → EventDir
put_child name dir d = event_dir (events dir) (put_dir name d (dirs dir))

-- The directory after a pass through a child of it.
unfoldable pub within_child : Text → EventDir → Pass → Pass
within_child name dir (tracked d c) = tracked (put_child name dir d) c
within_child name dir (added d c) = added (put_child name dir d) c
within_child name dir (again d p) = again (put_child name dir d) p
within_child name dir panics = panics

-- One round of the loop over the segments before the last, with the rest of the pass given.
unfoldable pub walk_round :
    (limit : ℕ)
    → EventType
    → ℕ
    → List Text
    → Text
    → Option AggregatedEvent
    → Pass
    → EventDir
    → EventCounter
    → Pass
walk_round limit typ ev_time walked name (some ev) below dir c =
    track_modified typ ev_time name ev dir c
walk_round limit typ ev_time walked name none below dir c =
    if child_count dir == limit then again dir walked else within_child name dir below

module _ (max_files_per_dir : ℕ) where
  -- A pass below a directory: `limit` is localMaxFilesPerDir, `walked` the segments above `name`.
  unfoldable pub walk :
      (limit : ℕ)
      → EventType
      → ℕ
      → ℕ
      → List Text
      → Text
      → List Text
      → EventDir
      → EventCounter
      → Pass
  walk limit typ ev_time now walked name [] dir c =
      track_last limit typ ev_time now walked name (look name (events dir)) dir c
  walk limit typ ev_time now walked name (next ∷ rest) dir c =
      walk_round limit typ ev_time walked name (look name (events dir))
        (walk max_files_per_dir typ ev_time now (walked ++ name ∷ []) next rest
          (child_or_new (look_dir name (dirs dir))) c)
        dir c

-- The whole folder is to be scanned: one event at ".".
unfoldable pub scan_folder : EventType → ℕ → ℕ → Aggregator → Aggregator
scan_folder typ first ev_time a = reset_notify_timer_if_needed (record a {
  root = event_dir ((whole_folder, new_event_at first ev_time typ) ∷ []) no_dirs;
  counts = add typ (pos 1) no_counts;
})

-- What aggregateEvent comes to: the aggregator after it, a panic, or more rounds than are given.
pub data Ending : Type 0 where
  done : Aggregator → Ending
  panicked : Ending
  out_of_fuel : Ending

-- The same for a folder with children, by the first time and the type of what they stand for.
unfoldable pub scan_merged : EventType → ℕ → Option ℕ → Option EventType → Aggregator → Ending
scan_merged typ ev_time none below a = panicked
scan_merged typ ev_time (some first) none a = panicked
scan_merged typ ev_time (some first) (some below) a =
    done (scan_folder (merge_types typ below) first ev_time a)

unfoldable pub scan_all : EventType → ℕ → ℕ → Aggregator → Ending
scan_all typ ev_time now a =
    if child_count a.root == 0
    then done (scan_folder typ ev_time ev_time a)
    else scan_merged typ ev_time (first_mod_time now a.root) (event_type a.root) a

-- The end of the call by the pass; `again` makes the next call.
unfoldable pub end_pass : (EventName → Aggregator → Ending) → Aggregator → Pass → Ending
end_pass call a (tracked d c) = done (record a { root = d; counts = c })
end_pass call a (added d c) =
    done (reset_notify_timer_if_needed (record a { root = d; counts = c }))
end_pass call a (again d p) = call (dir_name p) (record a { root = d })
end_pass call a panics = panicked

module _ (max_files max_files_per_dir : ℕ) where
  -- aggregateEvent, with as many calls of itself as the fuel allows.
  unfoldable pub aggregate : (fuel : ℕ) → EventType → ℕ → ℕ → EventName → Aggregator → Ending
  aggregate zero typ ev_time now name a = out_of_fuel
  aggregate (suc fuel) typ ev_time now (s, ss) a =
      let walked =
        end_pass (aggregate fuel typ ev_time now) a
          (walk max_files_per_dir max_files typ ev_time now [] s ss a.root a.counts) in
      if is_dot (s, ss) || (total_count a.counts ==ℤ pos max_files)
      then scan_all typ ev_time now a
      else walked

  -- One call for each segment, and one for ".".
  unfoldable pub aggregate_event : EventType → ℕ → ℕ → EventName → Aggregator → Ending
  aggregate_event typ ev_time now name a =
      aggregate (suc (suc (length name.1))) typ ev_time now name a

  unfoldable pub new_event_after :
      Option AggregatedEvent → Bool → EventType → ℕ → EventName → Aggregator → Ending
  new_event_after (some ev) busy typ now name a = done a
  new_event_after none true typ now name a = done a
  new_event_after none false typ now name a = aggregate_event typ now now name a

  -- newEvent; `in_progress` is the set of what is being pulled.
  unfoldable pub new_event : EventType → ℕ → EventName → List EventName → Aggregator → Ending
  unfolding new_event_after
  new_event typ now name in_progress a =
      new_event_after (look whole_folder (events a.root)) (has_name name in_progress) typ now name a
