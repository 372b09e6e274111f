-- ===== src/WatchAggregator/Timer/Sizes.antt =====
-- lib/watchaggregator/aggregator.go: the sizes of the tree and the counts after `popOldEventsTo`.
use syncthing_mem.Base.{
  ℕ, suc, ◌+◌, ◌≤◌, ◌≡◌, refl, ap, Bool, List, [], ◌∷◌, ◌++◌, length, length-append, arith, ◌==◌,
  if_ind, Bool-cases, inl, inr, Text, negsuc,
}
use syncthing_mem.WatchAggregator.{
  AggregatedEvent, EventDir, event_dir, Dirs, no_dirs, sub_dir, dir_count, child_count,
  EventCounter, add, Aggregator,
}
use syncthing_mem.WatchAggregator.Valid.{BelowIsOk, DirsAreOk}
use syncthing_mem.WatchAggregator.Counts.{event_count, dirs_event_count}
use syncthing_mem.WatchAggregator.Invariant.{IsValid}
use syncthing_mem.WatchAggregator.Timer.{
  OldEvents, Popped, pop_events, pop_old_events_to, pop_dirs, popped_into,
}
use syncthing_mem.WatchAggregator.Timer.Popping.{
  chosen, but, all_events, dirs_events, events_at, pop_old_events_to-Pops,
}

length-events_at :
    (path : List Text) (es : List (Text × AggregatedEvent)) → length (events_at path es) ≡ length es
length-events_at path [] = refl
length-events_at path ((n, ev) ∷ es) = ap suc (length-events_at path es)

mutual
  unfolding event_count all_events

  -- The number of events is that of their list.
  pub event_count-length :
      (path : List Text) (d : EventDir) → event_count d ≡ length (all_events path d)
  event_count-length path (event_dir es ds) = omega (
    arith,
    length-append {0} (dirs_events path ds) (events_at path es),
    dirs_event_count-length path ds,
    length-events_at path es,
  )

  dirs_event_count-length :
      (path : List Text) (ds : Dirs) → dirs_event_count ds ≡ length (dirs_events path ds)
  dirs_event_count-length path no_dirs = refl
  dirs_event_count-length path (sub_dir name d ds) = omega (
    arith,
    length-append {0} (all_events (path ++ name ∷ []) d) (dirs_events path ds),
    event_count-length (path ++ name ∷ []) d,
    dirs_event_count-length path ds,
  )

module _ (old : AggregatedEvent → Bool) (per_dir : ℕ) where
  pop_events-le :
      (path : List Text) (to : OldEvents) (c : EventCounter) (es : List (Text × AggregatedEvent))
      → length (pop_events old path to c es).left ≤ length es
  unfolding pop_events
  pop_events-le path to c [] = omega arith
  pop_events-le path to c ((name, ev) ∷ es) =
      if_ind (λ (p : Popped (List (Text × AggregatedEvent))). length p.left ≤ suc (length es))
        (old ev) _ _
        (λ _. omega (
          arith,
          pop_events-le path (to ++ (path ++ name ∷ [], ev) ∷ []) (add ev.ev_type (negsuc 0) c) es,
        ))
        (λ _. omega (arith, pop_events-le path to c es))

  mutual
    unfolding pop_old_events_to BelowIsOk

    pop_old_events_to-BelowIsOk :
        (path : List Text) (to : OldEvents) (c : EventCounter) (d : EventDir)
        → BelowIsOk per_dir d
        → (child_count (pop_old_events_to old path to c d).left ≤ child_count d)
          × BelowIsOk per_dir (pop_old_events_to old path to c d).left
    pop_old_events_to-BelowIsOk path to c (event_dir es ds) b =
        let below = pop_dirs old path to c ds in
        let (fewer, ok) = pop_dirs-DirsAreOk path to c ds b in
        (omega (arith, pop_events-le path below.to below.counts es), ok)

    pop_dirs-DirsAreOk :
        (path : List Text) (to : OldEvents) (c : EventCounter) (ds : Dirs)
        → DirsAreOk per_dir ds
        → (dir_count (pop_dirs old path to c ds).left ≤ dir_count ds)
          × DirsAreOk per_dir (pop_dirs old path to c ds).left
    pop_dirs-DirsAreOk path to c no_dirs b = (omega arith, tt)
    pop_dirs-DirsAreOk path to c (sub_dir name d ds) (h, most, below, k) =
        let child = pop_old_events_to old (path ++ name ∷ []) to c d in
        let (fewer, ok) = pop_old_events_to-BelowIsOk (path ++ name ∷ []) to c d below in
        let (fewer_dirs, rest) = pop_dirs-DirsAreOk path child.to child.counts ds k in
        if_ind (λ l. (dir_count l ≤ suc (dir_count ds)) × DirsAreOk per_dir l)
          (child_count child.left == 0) _ _ (λ _. (omega arith, rest))
          (λ stays. (omega arith, (ground arith, omega arith, ok, rest)))

length-chosen :
    (p : AggregatedEvent → Bool) (l : OldEvents)
    → length (chosen p l) + length (chosen (but p) l) ≡ length l
length-chosen p [] = refl
length-chosen p ((path, ev) ∷ l) = elim (Bool-cases (p ev)) [
  | inl yes_old ↦ rw yes_old (omega (arith, length-chosen p l))
  | inr not_old ↦ rw not_old (omega (arith, length-chosen p l))
]

module _ (max_files per_dir : ℕ) where
  pub pop-IsValid :
      (old : AggregatedEvent → Bool) (to : OldEvents) (a : Aggregator)
      → IsValid max_files per_dir a
      → IsValid max_files per_dir (popped_into a (pop_old_events_to old [] to a.counts a.root))
  pop-IsValid old to a v =
      let facts = pop_old_events_to-Pops old [] to a.counts a.root in
      let p = pop_old_events_to old [] to a.counts a.root in
      let (fewer, ok) = pop_old_events_to-BelowIsOk old per_dir [] to a.counts a.root v.below in
      let before = event_count-length [] a.root in
      let after = event_count-length [] p.left in
      let left = ap length facts.others in
      let parts = length-chosen old (all_events [] a.root) in
      let low = facts.lowered in
      let counted = v.counted in
      let few = v.few in
      let fits = v.root_fits in
      record { root_fits = omega arith; below = ok; counted = omega arith; few = omega arith }
