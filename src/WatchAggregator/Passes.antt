-- ===== src/WatchAggregator/Passes.antt =====
-- lib/watchaggregator/aggregator.go: what a pass of `aggregateEvent` does to what the tree stands for, on
-- each branch.
use mathlib.Core.Path.{subst}
use syncthing_mem.Base.{
  ℕ, ◌≡◌, refl, sym, ◌∙◌, Bool, true, Option, none, some, List, [], ◌∷◌, ◌++◌, append_assoc, ◌==◌,
  if_ind, Text, look,
}
use syncthing_mem.WatchAggregator.{
  EventType, merge_types, AggregatedEvent, EventDir, event_dir, events, dirs, child_count, look_dir,
  delete_dir, event_type, EventCounter,
}
use syncthing_mem.WatchAggregator.Aggregate.{
  Pass, tracked, added, again, panics, modified, new_event_at, track_modified, replace_dir,
  track_new, track_last, child_or_new, within_child, walk_round, walk,
}
use syncthing_mem.WatchAggregator.Covers.{
  includes, covers, covers_at, covers-new_event_dir, event_type-covers, includes-merge_types_left,
  includes-merge_types_right, includes_refl,
}
use syncthing_mem.WatchAggregator.Kept.{
  look_dir-delete_other, deeper, covers_lem, Keeps, put-covers, put-Keeps, put_child-Keeps,
  put_child-covers,
}

-- What a pass for a name does: it keeps all, and the name stands for the type or, if the call is made
-- again, is below the directory of that call.
abbrev pub PassKeeps : EventType → EventDir → Text → List Text → List Text → Pass → Type 0
PassKeeps typ dir s ss full (tracked d c) = Keeps dir d × (covers typ d s ss ≡ true)
PassKeeps typ dir s ss full (added d c) = Keeps dir d × (covers typ d s ss ≡ true)
PassKeeps typ dir s ss full (again d p) = Keeps dir d × ((more : List Text) × (full ≡ p ++ more))
PassKeeps typ dir s ss full panics = Unit {0}

includes-event :
    (t u : EventType) (o : Option AggregatedEvent) (ev : AggregatedEvent) (b : Bool)
    → o ≡ some ev
    → covers_at u o b ≡ true
    → includes (merge_types t ev.ev_type) u ≡ true
includes-event t u none ev b h c = absurd (cc)
includes-event t u (some e) ev b h c =
    let same : e ≡ ev = cc in
    includes-merge_types_right t ev.ev_type u
      (subst (λ (x : AggregatedEvent). includes x.ev_type u ≡ true) same c)

-- What a child stands for is of its type.
child-includes :
    (t : EventType) (child : EventDir) (below : EventType) (ss : List Text)
    (x : Option AggregatedEvent) (o : Option EventDir)
    → event_type child ≡ some below
    → x ≡ none
    → o ≡ some child
    → covers_at t x (deeper t o ss) ≡ true
    → includes below t ≡ true
child-includes t child below ss (some ev) o e h g c = absurd (cc)
child-includes t child below ss none none e h g c = absurd (cc)
child-includes t child below [] none (some d) e h g c = absurd (cc)
child-includes t child below (u ∷ us) none (some d) e h g c =
    let same : d ≡ child = cc in
    event_type-covers child below t u us e (subst (λ d'. covers t d' u us ≡ true) same c)

-- A name with neither an event nor a directory stands for nothing.
nothing :
    (t : EventType) (ss : List Text) (x : Option AggregatedEvent) (o : Option EventDir)
    → x ≡ none
    → o ≡ none
    → covers_at t x (deeper t o ss) ≡ true
    → ⊥
nothing t ss (some ev) o h g c = cc
nothing t ss none (some d) h g c = cc
nothing t [] none none h g c = cc
nothing t (u ∷ us) none none h g c = let no_event = covers-new_event_dir t u us in cc

within_child-PassKeeps :
    (typ : EventType) (name u : Text) (us full : List Text) (dir : EventDir) (pass : Pass)
    → look name (events dir) ≡ none
    → PassKeeps typ (child_or_new (look_dir name (dirs dir))) u us full pass
    → PassKeeps typ dir name (u ∷ us) full (within_child name dir pass)
unfolding within_child
within_child-PassKeeps typ name u us full dir (tracked d c) h (keeps, new) =
    (put_child-Keeps name dir d keeps, put_child-covers typ name u us dir d h new)
within_child-PassKeeps typ name u us full dir (added d c) h (keeps, new) =
    (put_child-Keeps name dir d keeps, put_child-covers typ name u us dir d h new)
within_child-PassKeeps typ name u us full dir (again d p) h (keeps, above) =
    (put_child-Keeps name dir d keeps, above)
within_child-PassKeeps typ name u us full dir panics h k = tt

module _ (typ : EventType) (ev_time now : ℕ) where
  track_modified-PassKeeps :
      (name : Text) (ss full : List Text) (ev : AggregatedEvent) (dir : EventDir) (c : EventCounter)
      → look name (events dir) ≡ some ev
      → PassKeeps typ dir name ss full (track_modified typ ev_time name ev dir c)
  unfolding track_modified
  track_modified-PassKeeps name ss full ev (event_dir es ds) c h = (
    put-Keeps name (modified typ ev_time ev) es ds ds (λ s _. refl)
        (λ t us k.
          includes-event typ t (look name es) ev (deeper t (look_dir name ds) us) h
            (sym (covers_lem t (event_dir es ds) name us) ∙ k)),
    put-covers typ name (modified typ ev_time ev) es ds ss
        ∙ includes-merge_types_left typ ev.ev_type typ (includes_refl typ),
  )

  replace_dir-PassKeeps :
      (name : Text) (full : List Text) (child : EventDir) (o : Option ℕ) (q : Option EventType)
      (dir : EventDir) (c : EventCounter)
      → look name (events dir) ≡ none
      → look_dir name (dirs dir) ≡ some child
      → event_type child ≡ q
      → PassKeeps typ dir name [] full (replace_dir typ ev_time name o q dir c)
  unfolding replace_dir
  replace_dir-PassKeeps name full child none q dir c h g e = tt
  replace_dir-PassKeeps name full child (some first) none dir c h g e = tt
  replace_dir-PassKeeps name full child (some first) (some below) (event_dir es ds) c h g e = (
    put-Keeps name (new_event_at first ev_time (merge_types typ below)) es ds (delete_dir name ds)
        (λ s other. look_dir-delete_other name s ds other)
        (λ t us k. includes-merge_types_right typ below t (
          child-includes t child below us (look name es) (look_dir name ds) e h g
            (sym (covers_lem t (event_dir es ds) name us) ∙ k))),
    put-covers typ name (new_event_at first ev_time (merge_types typ below)) es (delete_dir name ds)
          []
        ∙ includes-merge_types_left typ below typ (includes_refl typ),
  )

  track_last-PassKeeps :
      (limit : ℕ) (walked : List Text) (name : Text) (full : List Text) (o : Option AggregatedEvent)
      (p : Option EventDir) (dir : EventDir) (c : EventCounter)
      → full ≡ walked ++ name ∷ []
      → look name (events dir) ≡ o
      → look_dir name (dirs dir) ≡ p
      → PassKeeps typ dir name [] full (track_last limit typ ev_time now walked name o dir c)
  unfolding track_last track_new
  track_last-PassKeeps limit walked name full (some ev) p dir c f h g =
      track_modified-PassKeeps name [] full ev dir c h
  track_last-PassKeeps limit walked name full none none (event_dir es ds) c f h g = rw g (
      if_ind (PassKeeps typ (event_dir es ds) name [] full) (child_count (event_dir es ds) == limit)
        _ _ (λ _. ((λ t s ss k. k), (name ∷ [], f)))
        (λ _. (
          put-Keeps name (new_event_at ev_time ev_time typ) es ds ds (λ s _. refl)
              (λ t us k. absurd (
                nothing t us (look name es) (look_dir name ds) h g
                  (sym (covers_lem t (event_dir es ds) name us) ∙ k))),
          put-covers typ name (new_event_at ev_time ev_time typ) es ds [] ∙ includes_refl typ,
        )))
  track_last-PassKeeps limit walked name full none (some child) dir c f h g =
      rw g (replace_dir-PassKeeps name full child _ _ dir c h g refl)

  walk_round-PassKeeps :
      (limit : ℕ) (walked : List Text) (name u : Text) (us full : List Text)
      (o : Option AggregatedEvent) (pass : Pass) (dir : EventDir) (c : EventCounter)
      → full ≡ walked ++ name ∷ u ∷ us
      → look name (events dir) ≡ o
      → PassKeeps typ (child_or_new (look_dir name (dirs dir))) u us full pass
      → PassKeeps typ dir name (u ∷ us) full (walk_round limit typ ev_time walked name o pass dir c)
  unfolding walk_round
  walk_round-PassKeeps limit walked name u us full (some ev) pass dir c f h ih =
      track_modified-PassKeeps name (u ∷ us) full ev dir c h
  walk_round-PassKeeps limit walked name u us full none pass dir c f h ih =
      if_ind (PassKeeps typ dir name (u ∷ us) full) (child_count dir == limit) _ _
        (λ _. ((λ t s ss k. k), (name ∷ u ∷ us, f)))
        (λ _. within_child-PassKeeps typ name u us full dir pass h ih)

  -- A pass keeps what the tree stands for.
  pub walk-PassKeeps :
      (per_dir limit : ℕ) (walked : List Text) (name : Text) (rest full : List Text)
      (dir : EventDir) (c : EventCounter)
      → full ≡ walked ++ name ∷ rest
      → PassKeeps typ dir name rest full (walk per_dir limit typ ev_time now walked name rest dir c)
  unfolding walk
  walk-PassKeeps per_dir limit walked name [] full dir c f =
      track_last-PassKeeps limit walked name full _ _ dir c f refl refl
  walk-PassKeeps per_dir limit walked name (next ∷ rest) full dir c f =
      walk_round-PassKeeps limit walked name next rest full _ _ dir c f refl (
        walk-PassKeeps per_dir per_dir (walked ++ name ∷ []) next rest full _ c
          (f ∙ sym (append_assoc walked (name ∷ []) (next ∷ rest))))
