-- ===== src/WatchAggregator/Lossless.antt =====
-- lib/watchaggregator/aggregator.go: what is to be scanned, before and after `newEvent` and
-- `aggregateEvent`.
use mathlib.Core.Path.{subst}
use syncthing_mem.Base.{
  ℕ, zero, suc, ◌<◌, ◌≡◌, ◌⊎◌, refl, sym, ap, ◌∙◌, Bool, true, false, ◌||◌, Option, none, some,
  List, [], ◌∷◌, ◌++◌, length, arith, ◌==◌, if_ind, inl, inr, Text, look, pos, ◌==ℤ◌,
}
use syncthing_mem.WatchAggregator.{
  EventType, no_type, merge_types, AggregatedEvent, EventDir, event_dir, no_dirs, sub_dir, events,
  dirs, child_count, look_dir, event_type, total_count, Aggregator, reset_notify_timer,
  reset_notify_timer_if_needed,
}
use syncthing_mem.WatchAggregator.Aggregate.{
  EventName, whole_folder, dir_name, is_dot, has_name, Pass, tracked, added, again, panics, Ending,
  done, panicked, out_of_fuel, child_or_new, scan_folder, scan_merged, scan_all, end_pass,
  aggregate, aggregate_event, new_event_after, new_event,
}
use syncthing_mem.WatchAggregator.Covers.{
  includes, covers, covers_at, covers-new_event_dir, event_type-covers, includes-merge_types_left,
  includes-merge_types_right, includes_refl,
}
use syncthing_mem.WatchAggregator.Kept.{Keeps, covers-append}
use syncthing_mem.WatchAggregator.Passes.{PassKeeps, walk-PassKeeps}
use syncthing_mem.WatchAggregator.Invariant.{Ends, IsValid, aggregate_event-IsValid}

-- A name is to be scanned as changed in the way of a type: the whole folder is, or the first event at
-- the name or above it is of the type.
abbrev pub Scans : EventType → Aggregator → EventName → Type 0
Scans t a (s, ss) = (covers t a.root whole_folder [] ≡ true) ⊎ (covers t a.root s ss ≡ true)

-- What holds if the call returns.
abbrev Returns : (Aggregator → Type 0) → Ending → Type 0
Returns P (done a) = P a
Returns P _ = Unit {0}

-- Nothing is lost, and the name is to be scanned.
abbrev pub Gains : EventType → EventName → Aggregator → Aggregator → Type 0
Gains typ name a b =
    Scans typ b name × ((t : EventType) (m : EventName) → Scans t a m → Scans t b m)

root-reset : (a : Aggregator) → (reset_notify_timer_if_needed a).root ≡ a.root
unfolding reset_notify_timer_if_needed reset_notify_timer
root-reset a =
    if_ind (λ (b : Aggregator). b.root ≡ a.root) a.timer_needs_reset _ _ (λ _. refl) (λ _. refl)

Scans-Keeps :
    (t : EventType) (a b : Aggregator) (m : EventName)
    → Keeps a.root b.root
    → Scans t a m
    → Scans t b m
Scans-Keeps t a b (s, ss) keeps (inl c) = inl (keeps t whole_folder [] c)
Scans-Keeps t a b (s, ss) keeps (inr c) = inr (keeps t s ss c)

-- A directory above the name is to be scanned, and so is the name.
Scans-above :
    (t : EventType) (b : Aggregator) (p more : List Text) (s : Text) (ss : List Text)
    → s ∷ ss ≡ p ++ more
    → Scans t b (dir_name p)
    → Scans t b (s, ss)
Scans-above t b [] more s ss e (inl c) = inl c
Scans-above t b [] more s ss e (inr c) = inl c
Scans-above t b (x ∷ xs) more s ss e (inl c) = inl c
Scans-above t b (x ∷ xs) more s ss e (inr c) =
    let first : x ≡ s = cc in
    let others : xs ++ more ≡ ss = cc in
    inr (
      subst (λ y. covers t b.root y ss ≡ true) first
        (subst (λ ys. covers t b.root x ys ≡ true) others (covers-append t b.root x xs more c)))

-- What the folder stands for is of its type.
Scans-type :
    (t r : EventType) (a : Aggregator) (m : EventName)
    → event_type a.root ≡ some r
    → Scans t a m
    → includes r t ≡ true
Scans-type t r a (s, ss) e (inl c) = event_type-covers a.root r t whole_folder [] e c
Scans-type t r a (s, ss) e (inr c) = event_type-covers a.root r t s ss e c

covers-empty :
    (t : EventType) (root : EventDir) (s : Text) (ss : List Text)
    → (child_count root == 0) ≡ true
    → covers t root s ss ≡ true
    → ⊥
covers-empty t (event_dir [] no_dirs) s ss h c = let nothing = covers-new_event_dir t s ss in cc
covers-empty t (event_dir [] (sub_dir n d ds)) s ss h c = absurd (ground arith)
covers-empty t (event_dir (e ∷ es) ds) s ss h c = absurd (ground arith)

Scans-empty :
    (t : EventType) (a : Aggregator) (m : EventName)
    → (child_count a.root == 0) ≡ true
    → Scans t a m
    → ⊥
Scans-empty t a (s, ss) h (inl c) = covers-empty t a.root whole_folder [] h c
Scans-empty t a (s, ss) h (inr c) = covers-empty t a.root s ss h c

module _ (typ : EventType) (ev_time now : ℕ) where
  scan_folder-Scans :
      (t r : EventType) (first : ℕ) (a : Aggregator) (m : EventName)
      → includes r t ≡ true
      → Scans t (scan_folder r first ev_time a) m
  unfolding scan_folder covers
  scan_folder-Scans t r first a (s, ss) h =
      inl (ap (λ d. covers t d whole_folder []) (root-reset _) ∙ h)

  scan_merged-Gains :
      (name : EventName) (o : Option ℕ) (q : Option EventType) (a : Aggregator)
      → event_type a.root ≡ q
      → Returns (Gains typ name a) (scan_merged typ ev_time o q a)
  unfolding scan_merged
  scan_merged-Gains name none q a e = tt
  scan_merged-Gains name (some first) none a e = tt
  scan_merged-Gains name (some first) (some r) a e = (
    scan_folder-Scans typ (merge_types typ r) first a name
        (includes-merge_types_left typ r typ (includes_refl typ)),
    λ t m c.
        scan_folder-Scans t (merge_types typ r) first a m
          (includes-merge_types_right typ r t (Scans-type t r a m e c)),
  )

  scan_all-Gains :
      (name : EventName) (a : Aggregator) → Returns (Gains typ name a) (scan_all typ ev_time now a)
  unfolding scan_all
  scan_all-Gains name a =
      if_ind (Returns (Gains typ name a)) (child_count a.root == 0) _ _
        (λ h. (
          scan_folder-Scans typ typ ev_time a name (includes_refl typ),
          λ t m c. absurd (Scans-empty t a m h c),
        ))
        (λ _. scan_merged-Gains name _ _ a refl)

  end_pass-Gains :
      (s : Text) (ss : List Text) (call : EventName → Aggregator → Ending) (a : Aggregator)
      (pass : Pass)
      → ((p : List Text) (b : Aggregator)
          → Returns (Gains typ (dir_name p) b) (call (dir_name p) b))
      → PassKeeps typ a.root s ss (s ∷ ss) pass
      → Returns (Gains typ (s, ss) a) (end_pass call a pass)
  unfolding end_pass
  end_pass-Gains s ss call a (tracked d c) ih (keeps, new) =
      (inr new, λ t m k. Scans-Keeps t a (record a { root = d; counts = c }) m keeps k)
  end_pass-Gains s ss call a (added d c) ih (keeps, new) =
      let b = record a { root = d; counts = c } in
      let same = root-reset b in
      (
        inr (ap (λ r. covers typ r s ss) same ∙ new),
        λ t m k.
            Scans-Keeps t a (reset_notify_timer_if_needed b) m
              (subst (Keeps a.root) (sym same) keeps) k,
      )
  end_pass-Gains s ss call a (again d p) ih (keeps, (more, above)) =
      let b = record a { root = d } in climbed (call (dir_name p) b) (ih p b)
    where
      climbed :
          (o : Ending)
          → Returns (Gains typ (dir_name p) (record a { root = d })) o
          → Returns (Gains typ (s, ss) a) o
      climbed (done z) (new, kept) = (
        Scans-above typ z p more s ss above new,
        λ t m k. kept t m (Scans-Keeps t a (record a { root = d }) m keeps k),
      )
      climbed panicked g = tt
      climbed out_of_fuel g = tt
  end_pass-Gains s ss call a panics ih k = tt

  module _ (max_files per_dir : ℕ) where
    aggregate-Gains :
        (fuel : ℕ) (p : List Text) (a : Aggregator)
        → Returns
            (Gains typ (dir_name p) a)
            (aggregate max_files per_dir fuel typ ev_time now (dir_name p) a)
    unfolding aggregate
    aggregate-Gains zero p a = tt
    aggregate-Gains (suc fuel) [] a = scan_all-Gains (whole_folder, []) a
    aggregate-Gains (suc fuel) (s ∷ ss) a =
        if_ind (Returns (Gains typ (s, ss) a))
          (is_dot (s, ss) || (total_count a.counts ==ℤ pos max_files)) _ _
          (λ _. scan_all-Gains (s, ss) a)
          (λ _.
            end_pass-Gains s ss (aggregate max_files per_dir fuel typ ev_time now) a _
              (aggregate-Gains fuel)
              (walk-PassKeeps typ ev_time now per_dir max_files [] s ss (s ∷ ss) a.root a.counts
                refl))

-- A call that returns, returns with what holds if it returns.
Ends-Returns : (P Q : Aggregator → Type 0) (o : Ending) → Ends P o → Returns Q o → Ends Q o
Ends-Returns P Q (done a) e r = r
Ends-Returns P Q panicked e r = e
Ends-Returns P Q out_of_fuel e r = e

Ends-map :
    (P Q : Aggregator → Type 0) (o : Ending) → ((a : Aggregator) → P a → Q a) → Ends P o → Ends Q o
Ends-map P Q (done a) f e = f a e
Ends-map P Q panicked f e = e
Ends-map P Q out_of_fuel f e = e

covers_at-no_type :
    (t : EventType) (x : Option AggregatedEvent) (b b' : Bool)
    → (b ≡ true → b' ≡ true)
    → covers_at t x b ≡ true
    → covers_at no_type x b' ≡ true
covers_at-no_type t (some ev) b b' h c = refl
covers_at-no_type t none b b' h c = h c

covers-no_type :
    (t : EventType) (d : EventDir) (s : Text) (ss : List Text)
    → covers t d s ss ≡ true
    → covers no_type d s ss ≡ true
unfolding covers
covers-no_type t d s [] c = covers_at-no_type t (look s (events d)) false false (λ h. h) c
covers-no_type t d s (u ∷ us) c =
    covers_at-no_type t (look s (events d)) _ _
      (covers-no_type t (child_or_new (look_dir s (dirs d))) u us) c

Scans-no_type : (t : EventType) (b : Aggregator) (m : EventName) → Scans t b m → Scans no_type b m
Scans-no_type t b (s, ss) (inl c) = inl (covers-no_type t b.root whole_folder [] c)
Scans-no_type t b (s, ss) (inr c) = inr (covers-no_type t b.root s ss c)

-- newEvent: a name that is not being pulled is to be scanned afterwards, and nothing is lost.
abbrev pub Noticed : EventName → List EventName → Aggregator → Aggregator → Type 0
Noticed name in_progress a b =
    (has_name name in_progress ≡ false → Scans no_type b name)
    × ((t : EventType) (m : EventName) → Scans t a m → Scans t b m)

module _ (max_files per_dir : ℕ) (pos_max : 0 < max_files) (pos_per : 0 < per_dir) where
  -- With limits above zero, after aggregateEvent on a valid aggregator the name is to be scanned as changed in the way of the
  -- event, and whatever was to be scanned before it still is, as changed in the same way at least.
  pub aggregate_event-Gains :
      (typ : EventType) (ev_time now : ℕ) (name : EventName) (a : Aggregator)
      → IsValid max_files per_dir a
      → Ends (Gains typ name a) (aggregate_event max_files per_dir typ ev_time now name a)
  unfolding aggregate_event
  aggregate_event-Gains typ ev_time now (s, ss) a v =
      Ends-Returns (IsValid max_files per_dir) (Gains typ (s, ss) a) _
        (aggregate_event-IsValid max_files per_dir pos_max pos_per typ ev_time now (s, ss) a v)
        (aggregate-Gains typ ev_time now max_files per_dir (suc (suc (length ss))) (s ∷ ss) a)

  new_event_after-Noticed :
      (o : Option AggregatedEvent) (busy : Bool) (typ : EventType) (now : ℕ) (name : EventName)
      (in_progress : List EventName) (a : Aggregator)
      → look whole_folder (events a.root) ≡ o
      → has_name name in_progress ≡ busy
      → IsValid max_files per_dir a
      → Ends (Noticed name in_progress a) (new_event_after max_files per_dir o busy typ now name a)
  unfolding new_event_after covers
  new_event_after-Noticed (some ev) busy typ now (s, ss) in_progress a h g v =
      (λ _. inl (ap (λ o. covers_at no_type o false) h), λ t m k. k)
  new_event_after-Noticed none true typ now name in_progress a h g v =
      (λ e. absurd (cc), λ t m k. k)
  new_event_after-Noticed none false typ now name in_progress a h g v =
      Ends-map (Gains typ name a) (Noticed name in_progress a) _
        (λ b (new, kept). (λ _. Scans-no_type typ b name new, kept))
        (aggregate_event-Gains typ now now name a v)

  -- With limits above zero, after newEvent on a valid aggregator a name that is not being pulled is to be scanned, and
  -- whatever was to be scanned before it still is, as changed in the same way at least.
  pub new_event-Noticed :
      (typ : EventType) (now : ℕ) (name : EventName) (in_progress : List EventName) (a : Aggregator)
      → IsValid max_files per_dir a
      → Ends (Noticed name in_progress a) (new_event max_files per_dir typ now name in_progress a)
  unfolding new_event
  new_event-Noticed typ now name in_progress a v =
      new_event_after-Noticed (look whole_folder (events a.root)) (has_name name in_progress) typ
        now name in_progress a refl refl v
