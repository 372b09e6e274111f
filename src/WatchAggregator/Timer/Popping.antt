-- ===== src/WatchAggregator/Timer/Popping.antt =====
-- lib/watchaggregator/aggregator.go: which events `popOldEventsTo` takes from the tree, and what
-- it does to the counts.
use mathlib.Core.List.{Perm, perm_middle}
use mathlib.Core.List.Perm
use syncthing_mem.Base.{
  ℕ, ◌+◌, ◌≡◌, refl, sym, ap, ◌∙◌, Bool, true, false, not, List, [], ◌∷◌, ◌++◌, append_assoc,
  append-nil, length, length-append, arith, ◌==◌, if◌then◌else◌, if_ind, if_both, Bool-cases, inl,
  inr, Text, negsuc, pos_part, neg_part,
}
use syncthing_mem.WatchAggregator.{
  AggregatedEvent, EventDir, event_dir, Dirs, no_dirs, sub_dir, child_count, EventCounter, add,
  total_count,
}
use syncthing_mem.WatchAggregator.Counts.{total_count-add}
use syncthing_mem.WatchAggregator.Timer.{
  OldEvents, Popped, keep_dir, pop_events, pop_old_events_to, pop_dirs,
}

-- The events of a list that pass a test.
abbrev pub chosen : (AggregatedEvent → Bool) → OldEvents → OldEvents
chosen p [] = []
chosen p ((path, ev) ∷ l) = let rest = chosen p l in if p ev then (path, ev) ∷ rest else rest

abbrev pub but : (AggregatedEvent → Bool) → AggregatedEvent → Bool
but p ev = not (p ev)

pub chosen-append :
    (p : AggregatedEvent → Bool) (l m : OldEvents) → chosen p (l ++ m) ≡ chosen p l ++ chosen p m
chosen-append p [] m = refl
chosen-append p ((path, ev) ∷ l) m =
    if_both (λ x y. x ≡ y ++ chosen p m) (p ev) _ _ _ _
      (λ _. ap (◌∷◌ (path, ev)) (chosen-append p l m)) (λ _. chosen-append p l m)

-- A list is what passes a test and what does not.
pub chosen-Perm :
    (p : AggregatedEvent → Bool) (l : OldEvents) → Perm (chosen p l ++ chosen (but p) l) l
chosen-Perm p [] = Perm.nil
chosen-Perm p ((path, ev) ∷ l) = by_test (p ev) (chosen p l) (chosen (but p) l) (chosen-Perm p l)
  where
    by_test :
        (b : Bool) (x y : OldEvents)
        → Perm (x ++ y) l
        → Perm
            ((if b then (path, ev) ∷ x else x) ++ (if not b then (path, ev) ∷ y else y))
            ((path, ev) ∷ l)
    by_test true x y h = Perm.cons (path, ev) h
    by_test false x y h = Perm.trans (perm_middle x y) (Perm.cons (path, ev) h)

abbrev pub events_at : List Text → List (Text × AggregatedEvent) → OldEvents
events_at path [] = []
events_at path ((name, ev) ∷ es) = (path ++ name ∷ [], ev) ∷ events_at path es

unfoldable mutual
  -- All events of a directory, with their paths.
  pub all_events : List Text → EventDir → OldEvents
  all_events path (event_dir es ds) = dirs_events path ds ++ events_at path es

  pub dirs_events : List Text → Dirs → OldEvents
  dirs_events path no_dirs = []
  dirs_events path (sub_dir name d ds) = all_events (path ++ name ∷ []) d ++ dirs_events path ds

-- The counts are lower by a number.
abbrev pub Lowered : ℕ → EventCounter → EventCounter → Type 0
Lowered k c c' =
    pos_part (total_count c') + k + neg_part (total_count c)
    ≡ neg_part (total_count c') + pos_part (total_count c)

module _ (old : AggregatedEvent → Bool) where
  -- The map has the old events of a list besides, the counts are lower by their number, and the others
  -- are left.
  pub record Pops {A : Type 0} (listed : A → OldEvents) (to : OldEvents) (c : EventCounter)
      (all : OldEvents) (p : Popped A) : Type 0 where
    pub to_old : p.to ≡ to ++ chosen old all
    pub lowered : Lowered (length (chosen old all)) c p.counts
    pub others : listed p.left ≡ chosen (but old) all

  pop_events-Pops :
      (path : List Text) (to : OldEvents) (c : EventCounter) (es : List (Text × AggregatedEvent))
      → Pops (events_at path) to c (events_at path es) (pop_events old path to c es)
  unfolding pop_events
  pop_events-Pops path to c [] = record {
    to_old = sym (append-nil to);
    lowered = omega arith;
    others = refl;
  }
  pop_events-Pops path to c ((name, ev) ∷ es) = elim (Bool-cases (old ev)) [
    | inl gone ↦
        let entry : List Text × AggregatedEvent = (path ++ name ∷ [], ev) in
        let ih = pop_events-Pops path (to ++ entry ∷ []) (add ev.ev_type (negsuc 0) c) es in
        let fewer = total_count-add ev.ev_type (negsuc 0) c in
        let low = ih.lowered in
        record {
          to_old =
              rw gone (ih.to_old ∙ append_assoc to (entry ∷ []) (chosen old (events_at path es)));
          lowered = rw gone (omega arith);
          others = rw gone ih.others;
        }
    | inr stays ↦
        let ih = pop_events-Pops path to c es in
        record {
          to_old = rw stays ih.to_old;
          lowered = rw stays ih.lowered;
          others = rw stays (ap (◌∷◌ (path ++ name ∷ [], ev)) ih.others);
        }
  ]

  all_events-empty :
      (path : List Text) (d : EventDir) → (child_count d == 0) ≡ true → all_events path d ≡ []
  unfolding all_events
  all_events-empty path (event_dir [] no_dirs) h = refl
  all_events-empty path (event_dir [] (sub_dir n d ds)) h = absurd (ground arith)
  all_events-empty path (event_dir (e ∷ es) ds) h = absurd (ground arith)

  -- A directory that goes has no events.
  dirs_events-keep :
      (path : List Text) (name : Text) (d : EventDir) (p : Popped Dirs)
      → dirs_events path (keep_dir name d p).left
        ≡ all_events (path ++ name ∷ []) d ++ dirs_events path p.left
  unfolding all_events
  dirs_events-keep path name d p =
      if_ind (λ l. dirs_events path l ≡ all_events (path ++ name ∷ []) d ++ dirs_events path p.left)
        (child_count d == 0) _ _
        (λ empty.
          ap (λ l. l ++ dirs_events path p.left)
            (sym (all_events-empty (path ++ name ∷ []) d empty)))
        (λ _. refl)

  -- Two lists after one another: the first has been popped.
  pops_both :
      (to to' to'' x y : OldEvents) (c c' c'' : EventCounter)
      → to' ≡ to ++ chosen old x
      → to'' ≡ to' ++ chosen old y
      → Lowered (length (chosen old x)) c c'
      → Lowered (length (chosen old y)) c' c''
      → (to'' ≡ to ++ chosen old (x ++ y)) × Lowered (length (chosen old (x ++ y))) c c''
  pops_both to to' to'' x y c c' c'' e e' low low' =
      let apart = chosen-append old x y in
      let count = ap length apart ∙ length-append (chosen old x) (chosen old y) in
      (
        e'
            ∙ ap (λ l. l ++ chosen old y) e
            ∙ append_assoc to (chosen old x) (chosen old y)
            ∙ ap (λ l. to ++ l) (sym apart),
        omega arith,
      )

  mutual
    unfolding pop_old_events_to all_events

    pub pop_old_events_to-Pops :
        (path : List Text) (to : OldEvents) (c : EventCounter) (d : EventDir)
        → Pops (all_events path) to c (all_events path d) (pop_old_events_to old path to c d)
    pop_old_events_to-Pops path to c (event_dir es ds) =
        let first = pop_dirs-Pops path to c ds in
        let below = pop_dirs old path to c ds in
        let then_events = pop_events-Pops path below.to below.counts es in
        let p = pop_events old path below.to below.counts es in
        let (to_old, lowered) =
          pops_both to below.to p.to (dirs_events path ds) (events_at path es) c below.counts
            p.counts first.to_old then_events.to_old first.lowered then_events.lowered in
        record {
          to_old = to_old;
          lowered = lowered;
          others =
              ap (λ l. l ++ events_at path p.left) first.others
              ∙ ap (λ l. chosen (but old) (dirs_events path ds) ++ l) then_events.others
              ∙ sym (chosen-append (but old) (dirs_events path ds) (events_at path es));
        }

    pop_dirs-Pops :
        (path : List Text) (to : OldEvents) (c : EventCounter) (ds : Dirs)
        → Pops (dirs_events path) to c (dirs_events path ds) (pop_dirs old path to c ds)
    pop_dirs-Pops path to c no_dirs = record {
      to_old = sym (append-nil to);
      lowered = omega arith;
      others = refl;
    }
    pop_dirs-Pops path to c (sub_dir name d ds) =
        let first = pop_old_events_to-Pops (path ++ name ∷ []) to c d in
        let child = pop_old_events_to old (path ++ name ∷ []) to c d in
        let then_dirs = pop_dirs-Pops path child.to child.counts ds in
        let p = pop_dirs old path child.to child.counts ds in
        let (to_old, lowered) =
          pops_both to child.to p.to (all_events (path ++ name ∷ []) d) (dirs_events path ds) c
            child.counts p.counts first.to_old then_dirs.to_old first.lowered then_dirs.lowered in
        record {
          to_old = to_old;
          lowered = lowered;
          others =
              dirs_events-keep path name child.left p
              ∙ ap (λ l. l ++ dirs_events path p.left) first.others
              ∙ ap (λ l. chosen (but old) (all_events (path ++ name ∷ []) d) ++ l) then_dirs.others
              ∙ sym (
                  chosen-append (but old) (all_events (path ++ name ∷ []) d) (dirs_events path ds));
        }
