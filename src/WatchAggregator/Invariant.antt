-- ===== src/WatchAggregator/Invariant.antt =====
-- lib/watchaggregator/aggregator.go: what holds between the calls of `newEvent`.
use syncthing_mem.Base.{
  ℕ, zero, suc, ◌≤◌, ◌<◌, ◌≡◌, Bool, true, false, ◌||◌, Option, none, some, List, [], ◌∷◌, length,
  arith, ◌==◌, if_ind, Text, look, ℤ, pos, negsuc, pos_part, neg_part, ◌≤ℤ◌, ◌==ℤ◌, int_laws,
}
use syncthing_mem.WatchAggregator.{
  EventType, merge_types, AggregatedEvent, events, child_count, no_counts, total_count, Aggregator,
  reset_notify_timer, reset_notify_timer_if_needed,
}
use syncthing_mem.WatchAggregator.Aggregate.{
  EventName, whole_folder, dir_name, is_dot, has_name, Pass, tracked, added, again, panics, Ending,
  done, panicked, out_of_fuel, scan_folder, scan_merged, scan_all, end_pass, aggregate,
  aggregate_event, new_event_after, new_event,
}
use syncthing_mem.WatchAggregator.Valid.{BelowIsOk, IsOk, first_mod_time-some, event_type-some}
use syncthing_mem.WatchAggregator.Walk.{PassIs, Climbs, walk-IsOk, walk-Climbs}
use syncthing_mem.WatchAggregator.Counts.{event_count, total_count-add}
use syncthing_mem.WatchAggregator.Room.{HasRoom, PassCounts, walk-PassCounts}

-- The call returns an aggregator with the property: it neither panics nor goes on for ever.
abbrev pub Ends : (Aggregator → Type 0) → Ending → Type 0
Ends P (done a) = P a
Ends P panicked = ⊥
Ends P out_of_fuel = ⊥

module _ (max_files per_dir : ℕ) where
  -- The tree is within its limits, no directory below the root is empty, and the counts stand for all
  -- events and come to `maxFiles` at most.
  pub record IsValid (a : Aggregator) : Type 0 where
    pub root_fits : child_count a.root ≤ max_files
    pub below : BelowIsOk per_dir a.root
    pub counted : HasRoom 0 a.root a.counts
    pub few : total_count a.counts ≤ℤ pos max_files

  reset-IsValid : (a : Aggregator) → IsValid a → IsValid (reset_notify_timer_if_needed a)
  unfolding reset_notify_timer_if_needed reset_notify_timer
  reset-IsValid a v =
      if_ind IsValid a.timer_needs_reset _ _
        (λ _. record { root_fits = v.root_fits; below = v.below; counted = v.counted; few = v.few })
        (λ _. v)

  module _ (pos_max : 0 < max_files) (pos_per : 0 < per_dir) (typ : EventType)
      (ev_time now : ℕ) where
    scan_folder-IsValid :
        (t : EventType) (first : ℕ) (a : Aggregator) → IsValid (scan_folder t first ev_time a)
    unfolding scan_folder BelowIsOk event_count
    scan_folder-IsValid t first a =
        let one = total_count-add t (pos 1) no_counts in
        let nothing : pos_part (total_count no_counts) ≡ neg_part (total_count no_counts) =
          omega int_laws in
        reset-IsValid _
          (record { root_fits = omega arith; below = tt; counted = omega arith; few = omega arith })

    scan_merged-IsValid :
        (o : Option ℕ) (q : Option EventType) (a : Aggregator)
        → (t : ℕ) × (o ≡ some t)
        → (t : EventType) × (q ≡ some t)
        → Ends IsValid (scan_merged typ ev_time o q a)
    unfolding scan_merged
    scan_merged-IsValid none q a (t, e) r = absurd (cc)
    scan_merged-IsValid (some t) none a e (s, r) = absurd (cc)
    scan_merged-IsValid (some t) (some s) a e r = scan_folder-IsValid (merge_types typ s) t a

    scan_all-IsValid : (a : Aggregator) → IsValid a → Ends IsValid (scan_all typ ev_time now a)
    unfolding scan_all
    scan_all-IsValid a v =
        if_ind (Ends IsValid) (child_count a.root == 0) _ _ (λ _. scan_folder-IsValid typ ev_time a)
          (λ some_child.
            let h : 0 < child_count a.root = ground arith in
            scan_merged-IsValid _ _ a (first_mod_time-some per_dir now a.root h v.below)
              (event_type-some per_dir a.root h v.below))

    end_pass-IsValid :
        (n m : ℕ) (call : EventName → Aggregator → Ending) (a : Aggregator) (pass : Pass)
        → ((p : List Text) (b : Aggregator)
            → length p ≤ n
            → IsValid b
            → Ends IsValid (call (dir_name p) b))
        → IsValid a
        → suc m ≤ max_files
        → PassIs (IsOk per_dir max_files) pass
        → PassCounts 0 m a.counts pass
        → Climbs n pass
        → Ends IsValid (end_pass call a pass)
    unfolding end_pass
    end_pass-IsValid n m call a (tracked d c) ih v h (_, fits, below) (room, few) climbs = record {
      root_fits = fits;
      below = below;
      counted = room;
      few = omega arith;
    }
    end_pass-IsValid n m call a (added d c) ih v h (_, fits, below) (room, few) climbs =
        reset-IsValid _
          (record { root_fits = fits; below = below; counted = room; few = omega arith })
    end_pass-IsValid n m call a (again d p) ih v h (_, fits, below) room climbs =
        ih p _ climbs (record { root_fits = fits; below = below; counted = room; few = v.few })
    end_pass-IsValid n m call a panics ih v h ok counts climbs = ok

    aggregate-IsValid :
        (fuel : ℕ) (p : List Text) (a : Aggregator)
        → length p < fuel
        → IsValid a
        → Ends IsValid (aggregate max_files per_dir fuel typ ev_time now (dir_name p) a)
    unfolding aggregate
    aggregate-IsValid zero p a h v = absurd (omega arith)
    aggregate-IsValid (suc fuel) [] a h v = scan_all-IsValid a v
    aggregate-IsValid (suc fuel) (s ∷ ss) a h v =
        if_ind (Ends IsValid) (is_dot (s, ss) || (total_count a.counts ==ℤ pos max_files)) _ _
          (λ _. scan_all-IsValid a v)
          (λ below.
            let (m, most, less) = one_left (is_dot (s, ss)) (total_count a.counts) v.few below in
            end_pass-IsValid (length ss) m (aggregate max_files per_dir fuel typ ev_time now) a _
              (λ q b short w. aggregate-IsValid fuel q b (omega arith) w) v less
              (walk-IsOk per_dir pos_per typ ev_time now max_files [] s ss a.root a.counts pos_max
                v.root_fits v.below)
              (walk-PassCounts per_dir typ ev_time now m 0 max_files [] s ss a.root a.counts v.below
                v.counted most)
              (walk-Climbs per_dir typ ev_time now (length ss) max_files [] s ss a.root a.counts
                (omega arith)))
      where
        one_left :
            (b : Bool) (z : ℤ)
            → z ≤ℤ pos max_files
            → (b || (z ==ℤ pos max_files)) ≡ false
            → (m : ℕ) × (z ≤ℤ pos m) × (suc m ≤ max_files)
        one_left true z few e = absurd (cc)
        one_left false (pos k) few e = (k, omega arith, ground arith)
        one_left false (negsuc k) few e = (0, omega arith, omega arith)

    -- With limits above zero, aggregateEvent on a valid aggregator returns without a panic, after one
    -- call at most for each segment of the name and one for ".", and leaves it valid.
    pub aggregate_event-IsValid :
        (name : EventName) (a : Aggregator)
        → IsValid a
        → Ends IsValid (aggregate_event max_files per_dir typ ev_time now name a)
    unfolding aggregate_event
    aggregate_event-IsValid (s, ss) a v =
        aggregate-IsValid (suc (suc (length ss))) (s ∷ ss) a (omega arith) v

  new_event_after-IsValid :
      (pos_max : 0 < max_files) (pos_per : 0 < per_dir) (o : Option AggregatedEvent) (busy : Bool)
      (typ : EventType) (now : ℕ) (name : EventName) (a : Aggregator)
      → IsValid a
      → Ends IsValid (new_event_after max_files per_dir o busy typ now name a)
  unfolding new_event_after
  new_event_after-IsValid pos_max pos_per (some ev) busy typ now name a v = v
  new_event_after-IsValid pos_max pos_per none true typ now name a v = v
  new_event_after-IsValid pos_max pos_per none false typ now name a v =
      aggregate_event-IsValid pos_max pos_per typ now now name a v

  -- newEvent keeps the invariant and returns.
  pub new_event-IsValid :
      (pos_max : 0 < max_files) (pos_per : 0 < per_dir) (typ : EventType) (now : ℕ)
      (name : EventName) (in_progress : List EventName) (a : Aggregator)
      → IsValid a
      → Ends IsValid (new_event max_files per_dir typ now name in_progress a)
  unfolding new_event
  new_event-IsValid pos_max pos_per typ now name in_progress a v =
      new_event_after-IsValid pos_max pos_per (look whole_folder (events a.root))
        (has_name name in_progress) typ now name a v
