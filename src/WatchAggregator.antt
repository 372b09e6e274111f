-- ===== src/WatchAggregator.antt =====
-- lib/watchaggregator/aggregator.go and the event types of lib/fs/filesystem.go: the tree of what has
-- changed below a folder since the last scan. A name is the list of its segments, as `strings.Split`
-- cuts the clean relative path that a watch reports; it holds a segment at least, so its first one
-- stands apart. A map of Go is a list of entries. `none` is a panic. Times and durations are in
-- nanoseconds, and the clock is read once in a call.
pub mod Aggregate
pub mod Valid
pub mod Walk
pub mod Counts
pub mod Room
pub mod Invariant
pub mod Covers
pub mod Kept
pub mod Passes
pub mod Lossless
pub mod Drift
pub mod Timer
pub mod Loop
use syncthing_mem.Base.{
  ℕ, suc, ◌+◌, ◌&&◌, Bool, true, false, not, ◌||◌, Option, none, some, List, [], ◌∷◌, length, ltb,
  ◌==◌, if◌then◌else◌, Text, text_eq, ◌>>=◌, ℤ, pos, ◌+ℤ◌,
}

-- EventType, a set of two bits; the zero value has none of them.
pub record EventType : Type 0 where
  pub non_removes : Bool
  pub removes : Bool

abbrev pub no_type : EventType
no_type = record { non_removes = false; removes = false }

abbrev pub non_remove : EventType
non_remove = record { non_removes = true; removes = false }

abbrev pub remove : EventType
remove = record { non_removes = false; removes = true }

abbrev pub mixed : EventType
mixed = record { non_removes = true; removes = true }

abbrev bool_eq : Bool → Bool → Bool
bool_eq true b = b
bool_eq false b = not b

abbrev pub types_eq : EventType → EventType → Bool
types_eq a b = bool_eq a.non_removes b.non_removes && bool_eq a.removes b.removes

-- Merge
abbrev pub merge_types : EventType → EventType → EventType
merge_types a b = record {
  non_removes = a.non_removes || b.non_removes;
  removes = a.removes || b.removes;
}

pub record AggregatedEvent : Type 0 where
  pub first_mod_time : ℕ
  pub last_mod_time : ℕ
  pub ev_type : EventType

-- eventDir, and the map of its child directories.
mutual
  pub data EventDir : Type 0 where
    event_dir : List (Text × AggregatedEvent) → Dirs → EventDir

  pub data Dirs : Type 0 where
    no_dirs : Dirs
    sub_dir : Text → EventDir → Dirs → Dirs

abbrev pub events : EventDir → List (Text × AggregatedEvent)
events (event_dir es ds) = es

abbrev pub dirs : EventDir → Dirs
dirs (event_dir es ds) = ds

abbrev pub new_event_dir : EventDir
new_event_dir = event_dir [] no_dirs

abbrev pub dir_count : Dirs → ℕ
dir_count no_dirs = 0
dir_count (sub_dir name d ds) = suc (dir_count ds)

abbrev pub child_count : EventDir → ℕ
child_count dir = length (events dir) + dir_count (dirs dir)

-- Reading, writing and deleting an entry of the map `dirs`.
abbrev pub look_dir : Text → Dirs → Option EventDir
look_dir name no_dirs = none
look_dir name (sub_dir n d ds) = if text_eq n name then some d else look_dir name ds

abbrev pub put_dir : Text → EventDir → Dirs → Dirs
put_dir name e no_dirs = sub_dir name e no_dirs
put_dir name e (sub_dir n d ds) =
    let rest = put_dir name e ds in if text_eq n name then sub_dir name e ds else sub_dir n d rest

abbrev pub delete_dir : Text → Dirs → Dirs
delete_dir name no_dirs = no_dirs
delete_dir name (sub_dir n d ds) =
    let rest = delete_dir name ds in if text_eq n name then rest else sub_dir n d rest

abbrev earlier : ℕ → ℕ → ℕ
earlier s t = if ltb s t then s else t

-- firstModTime: the loop over the events
abbrev pub events_first : List (Text × AggregatedEvent) → ℕ → ℕ
events_first [] t = t
events_first ((name, ev) ∷ es) t = events_first es (earlier ev.first_mod_time t)

unfoldable mutual
  pub first_mod_time : ℕ → EventDir → Option ℕ
  first_mod_time now (event_dir es ds) =
      let times = dirs_first now ds now in
      if length es + dir_count ds == 0 then none else (times >>= λ t. some (events_first es t))

  -- the loop over the child directories
  pub dirs_first : ℕ → Dirs → ℕ → Option ℕ
  dirs_first now no_dirs t = some t
  dirs_first now (sub_dir name d ds) t =
      first_mod_time now d >>= λ s. dirs_first now ds (earlier s t)

-- eventType: the loop over the events, which stops at Mixed
abbrev pub events_type : List (Text × AggregatedEvent) → EventType → EventType
events_type [] t = t
events_type ((name, ev) ∷ es) t =
    let rest = events_type es (merge_types t ev.ev_type) in
    if types_eq (merge_types t ev.ev_type) mixed then mixed else rest

unfoldable mutual
  pub event_type : EventDir → Option EventType
  event_type (event_dir es ds) =
      let types = dirs_type ds no_type in
      if length es + dir_count ds == 0
      then none
      else (types >>= λ t. some (if types_eq t mixed then mixed else events_type es t))

  -- the loop over the child directories, which stops at Mixed
  pub dirs_type : Dirs → EventType → Option EventType
  dirs_type no_dirs t = some t
  dirs_type (sub_dir name d ds) t = event_type d >>= λ s.
      if types_eq (merge_types t s) mixed then some mixed else dirs_type ds (merge_types t s)

pub record EventCounter : Type 0 where
  pub removes : ℤ
  pub non_removes : ℤ

abbrev pub no_counts : EventCounter
no_counts = record { removes = pos 0; non_removes = pos 0 }

abbrev pub add : EventType → ℤ → EventCounter → EventCounter
add typ n c =
    if typ.removes
    then record c { removes = c.removes +ℤ n }
    else record c { non_removes = c.non_removes +ℤ n }

abbrev pub total_count : EventCounter → ℤ
total_count c = c.removes +ℤ c.non_removes

-- aggregator, less the configuration and the channels. `timer_resets` holds the durations of the
-- calls of `notifyTimer.Reset`, the last one first.
pub record Aggregator : Type 0 where
  pub notify_delay : ℕ
  pub notify_timeout : ℕ
  pub timer_needs_reset : Bool
  pub timer_resets : List ℕ
  pub counts : EventCounter
  pub root : EventDir

unfoldable pub reset_notify_timer : ℕ → Aggregator → Aggregator
reset_notify_timer duration a = record a {
  timer_needs_reset = false;
  timer_resets = duration ∷ a.timer_resets;
}

unfoldable pub reset_notify_timer_if_needed : Aggregator → Aggregator
unfolding reset_notify_timer
reset_notify_timer_if_needed a =
    if a.timer_needs_reset then reset_notify_timer a.notify_delay a else a
