-- ===== src/WatchAggregator/Covers.antt =====
-- lib/watchaggregator/aggregator.go: what the tree stands for, the names that are to be scanned and how
-- they changed, against the type of a directory.
use mathlib.Core.Path.{subst}
use syncthing_mem.Base.{
  ◌+◌, ◌≡◌, ◌⊎◌, refl, Bool, true, false, not, ◌&&◌, ◌||◌, Option, none, some, List, [], ◌∷◌,
  length, arith, ◌==◌, if◌then◌else◌, if_ind, inl, inr, Text, text_eq, look, ◌>>=◌,
}
use syncthing_mem.WatchAggregator.{
  EventType, no_type, mixed, types_eq, merge_types, AggregatedEvent, EventDir, event_dir, Dirs,
  no_dirs, sub_dir, events, dirs, new_event_dir, dir_count, look_dir, events_type, event_type,
  dirs_type,
}
use syncthing_mem.WatchAggregator.Aggregate.{child_or_new}

-- Every bit of the second type is one of the first.
abbrev pub includes : EventType → EventType → Bool
includes t u = (not u.non_removes || t.non_removes) && (not u.removes || t.removes)

-- The event at a segment, if there is one, is of the type; what is below counts if there is none.
abbrev pub covers_at : EventType → Option AggregatedEvent → Bool → Bool
covers_at t (some ev) below = includes ev.ev_type t
covers_at t none below = below

-- The first event at a name or above it, in a directory, is of the type.
unfoldable pub covers : EventType → EventDir → Text → List Text → Bool
covers t dir s [] = covers_at t (look s (events dir)) false
covers t dir s (u ∷ us) =
    covers_at t (look s (events dir)) (covers t (child_or_new (look_dir s (dirs dir))) u us)

pub includes_refl : (t : EventType) → includes t t ≡ true
includes_refl t = ground arith

pub includes-merge_types_left :
    (t u v : EventType) → includes t v ≡ true → includes (merge_types t u) v ≡ true
includes-merge_types_left t u v h = ground arith

pub includes-merge_types_right :
    (t u v : EventType) → includes u v ≡ true → includes (merge_types t u) v ≡ true
includes-merge_types_right t u v h = ground arith

includes-mixed : (t : EventType) → includes mixed t ≡ true
includes-mixed t = ground arith

pub covers-new_event_dir :
    (t : EventType) (s : Text) (ss : List Text) → covers t new_event_dir s ss ≡ false
unfolding covers
covers-new_event_dir t s [] = refl
covers-new_event_dir t s (u ∷ us) = covers-new_event_dir t u us

-- The type of all events of a list includes each, and what it started from.
events_type-includes :
    (es : List (Text × AggregatedEvent)) (t u : EventType)
    → includes t u ≡ true
    → includes (events_type es t) u ≡ true
events_type-includes [] t u h = h
events_type-includes ((n, ev) ∷ es) t u h =
    if_ind (λ r. includes r u ≡ true) (types_eq (merge_types t ev.ev_type) mixed) _ _
      (λ _. includes-mixed u)
      (λ _.
        events_type-includes es (merge_types t ev.ev_type) u
          (includes-merge_types_left t ev.ev_type u h))

events_type-look :
    (es : List (Text × AggregatedEvent)) (t u : EventType) (s : Text) (ev : AggregatedEvent)
    → look s es ≡ some ev
    → includes ev.ev_type u ≡ true
    → includes (events_type es t) u ≡ true
events_type-look [] t u s ev = λ h. cc
events_type-look ((n, e) ∷ es) t u s ev =
    if_ind
      (λ o.
        o ≡ some ev
        → includes ev.ev_type u ≡ true
        → includes (events_type ((n, e) ∷ es) t) u ≡ true)
      (text_eq n s) _ _
      (λ _ (h : some e ≡ some ev) k.
        if_ind (λ r. includes r u ≡ true) (types_eq (merge_types t e.ev_type) mixed) _ _
          (λ _. includes-mixed u)
          (λ _.
            let same : ev ≡ e = cc in
            events_type-includes es (merge_types t e.ev_type) u (
              includes-merge_types_right t e.ev_type u
                (subst (λ (x : AggregatedEvent). includes x.ev_type u ≡ true) same k))))
      (λ _ h k.
        if_ind (λ r. includes r u ≡ true) (types_eq (merge_types t e.ev_type) mixed) _ _
          (λ _. includes-mixed u) (λ _. events_type-look es (merge_types t e.ev_type) u s ev h k))

-- The inversion of one round of the loop over the child directories.
some_of_round :
    (o : Option EventType) (t r : EventType) (ds : Dirs)
    → (o >>= λ s.
        if types_eq (merge_types t s) mixed then some mixed else dirs_type ds (merge_types t s))
      ≡ some r
    → (s : EventType) × (o ≡ some s) × ((r ≡ mixed) ⊎ (dirs_type ds (merge_types t s) ≡ some r))
some_of_round none t r ds = λ e. absurd (cc)
some_of_round (some s) t r ds =
    if_ind
      (λ x.
        x ≡ some r
        → (s' : EventType) × (◌≡◌ {A = Option EventType} (some s) (some s'))
          × ((r ≡ mixed) ⊎ (dirs_type ds (merge_types t s') ≡ some r)))
      (types_eq (merge_types t s) mixed) _ _ (λ _ e. (s, refl, inl (cc))) (λ _ e. (s, refl, inr e))

-- What the loop over the events makes of the type that the loop over the directories ends with.
abbrev pub finished : List (Text × AggregatedEvent) → EventType → EventType
finished es t = if types_eq t mixed then mixed else events_type es t

some_of_event_type :
    (b : Bool) (o : Option EventType) (es : List (Text × AggregatedEvent)) (r : EventType)
    → (if b then none else (o >>= λ t. some (finished es t))) ≡ some r
    → (t : EventType) × (o ≡ some t) × (r ≡ finished es t)
some_of_event_type true o es r e = absurd (cc)
some_of_event_type false none es r e = absurd (cc)
some_of_event_type false (some t) es r e = (t, refl, cc)

finished-includes :
    (es : List (Text × AggregatedEvent)) (t u : EventType)
    → includes t u ≡ true
    → includes (finished es t) u ≡ true
finished-includes es t u h =
    if_ind (λ r. includes r u ≡ true) (types_eq t mixed) _ _ (λ _. includes-mixed u)
      (λ _. events_type-includes es t u h)

finished-look :
    (es : List (Text × AggregatedEvent)) (t u : EventType) (s : Text) (ev : AggregatedEvent)
    → look s es ≡ some ev
    → includes ev.ev_type u ≡ true
    → includes (finished es t) u ≡ true
finished-look es t u s ev h k =
    if_ind (λ r. includes r u ≡ true) (types_eq t mixed) _ _ (λ _. includes-mixed u)
      (λ _. events_type-look es t u s ev h k)

-- The loop over the directories includes what it started from.
dirs_type-includes :
    (ds : Dirs) (t r u : EventType)
    → dirs_type ds t ≡ some r
    → includes t u ≡ true
    → includes r u ≡ true
unfolding dirs_type
dirs_type-includes no_dirs t r u e h =
    let same : t ≡ r = cc in subst (λ x. includes x u ≡ true) same h
dirs_type-includes (sub_dir n d ds) t r u e h =
    let (s, _, rest) = some_of_round (event_type d) t r ds e in
    elim rest [
      | inl m ↦ rw m (includes-mixed u)
      | inr go ↦ dirs_type-includes ds (merge_types t s) r u go (includes-merge_types_left t s u h)
    ]

finished-covers_at :
    (es : List (Text × AggregatedEvent)) (q t : EventType) (s : Text) (o : Option AggregatedEvent)
    (below : Bool)
    → look s es ≡ o
    → covers_at t o below ≡ true
    → (below ≡ true → includes q t ≡ true)
    → includes (finished es q) t ≡ true
finished-covers_at es q t s none below h c deeper = finished-includes es q t (deeper c)
finished-covers_at es q t s (some ev) below h c deeper = finished-look es q t s ev h c

mutual
  unfolding covers event_type dirs_type

  -- The type of a directory includes what its events stand for.
  pub event_type-covers :
      (d : EventDir) (r t : EventType) (s : Text) (ss : List Text)
      → event_type d ≡ some r
      → covers t d s ss ≡ true
      → includes r t ≡ true
  event_type-covers (event_dir es ds) r t s [] e c =
      let (q, loop, same) =
        some_of_event_type (length es + dir_count ds == 0) (dirs_type ds no_type) es r e in
      rw same (finished-covers_at es q t s (look s es) false refl c (λ h. cc))
  event_type-covers (event_dir es ds) r t s (u ∷ us) e c =
      let (q, loop, same) =
        some_of_event_type (length es + dir_count ds == 0) (dirs_type ds no_type) es r e in
      rw same (
        finished-covers_at es q t s (look s es) (covers t (child_or_new (look_dir s ds)) u us) refl
          c (dirs_type-covers ds no_type q t s u us loop))

  dirs_type-covers :
      (ds : Dirs) (t0 r t : EventType) (s u : Text) (us : List Text)
      → dirs_type ds t0 ≡ some r
      → covers t (child_or_new (look_dir s ds)) u us ≡ true
      → includes r t ≡ true
  dirs_type-covers no_dirs t0 r t s u us e =
      λ c. let nothing = covers-new_event_dir t u us in absurd (cc)
  dirs_type-covers (sub_dir n d ds) t0 r t s u us e =
      let (q, at, rest) = some_of_round (event_type d) t0 r ds e in
      if_ind (λ o. covers t (child_or_new o) u us ≡ true → includes r t ≡ true) (text_eq n s)
        (some d) (look_dir s ds)
        (λ _ (c : covers t (child_or_new (some d)) u us ≡ true).
          let part = event_type-covers d q t u us at c in
          elim rest [
            | inl m ↦ rw m (includes-mixed t)
            | inr go ↦
                dirs_type-includes ds (merge_types t0 q) r t go
                  (includes-merge_types_right t0 q t part)
          ])
        (λ _ (c : covers t (child_or_new (look_dir s ds)) u us ≡ true). elim rest [
          | inl m ↦ rw m (includes-mixed t)
          | inr go ↦ dirs_type-covers ds (merge_types t0 q) r t s u us go c
        ])
