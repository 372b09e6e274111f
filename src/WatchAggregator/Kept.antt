-- ===== src/WatchAggregator/Kept.antt =====
-- lib/watchaggregator/aggregator.go: what one directory keeps of what another stands for, when an
-- event or a directory is put into it.
use mathlib.Core.Path.{subst}
use syncthing_mem.Base.{
  ◌≡◌, refl, sym, ap, ◌∙◌, Bool, true, false, Option, none, some, List, [], ◌∷◌, ◌++◌, Bool-cases,
  inl, inr, Text, text_eq, text_eq_refl, text_eq_sound, look, put, look-put, look-put_other,
}
use syncthing_mem.WatchAggregator.{
  EventType, AggregatedEvent, EventDir, event_dir, Dirs, no_dirs, sub_dir, events, dirs, look_dir,
  put_dir, delete_dir,
}
use syncthing_mem.WatchAggregator.Aggregate.{child_or_new, put_child}
use syncthing_mem.WatchAggregator.Covers.{includes, covers, covers_at}

-- The names of the map of directories.
apart : (j k l : Text) → text_eq k l ≡ false → text_eq j k ≡ true → text_eq j l ≡ false
apart j k l h e = rw (text_eq_sound j k e) h

look_dir-put_dir : (k : Text) (d : EventDir) (ds : Dirs) → look_dir k (put_dir k d ds) ≡ some d
look_dir-put_dir k d no_dirs = rw (text_eq_refl k)
look_dir-put_dir k d (sub_dir j e ds) = elim (Bool-cases (text_eq j k)) [
  | inl same ↦ rw (same, text_eq_refl k)
  | inr other ↦ rw (other, other, look_dir-put_dir k d ds)
]

look_dir-put_other :
    (k l : Text) (d : EventDir) (ds : Dirs)
    → text_eq k l ≡ false
    → look_dir l (put_dir k d ds) ≡ look_dir l ds
look_dir-put_other k l d no_dirs h = rw h
look_dir-put_other k l d (sub_dir j e ds) h = elim (Bool-cases (text_eq j k)) [
  | inl same ↦ rw (same, h, apart j k l h same)
  | inr other ↦ rw (other, look_dir-put_other k l d ds h)
]

pub look_dir-delete_other :
    (k l : Text) (ds : Dirs) → text_eq k l ≡ false → look_dir l (delete_dir k ds) ≡ look_dir l ds
look_dir-delete_other k l no_dirs h = refl
look_dir-delete_other k l (sub_dir j e ds) h = elim (Bool-cases (text_eq j k)) [
  | inl same ↦ rw (same, apart j k l h same, look_dir-delete_other k l ds h)
  | inr other ↦ rw (other, look_dir-delete_other k l ds h)
]

-- What the directory of a segment says of the segments below it.
abbrev pub deeper : EventType → Option EventDir → List Text → Bool
deeper t o [] = false
deeper t o (u ∷ us) = covers t (child_or_new o) u us

pub covers_lem :
    (t : EventType) (dir : EventDir) (s : Text) (ss : List Text)
    → covers t dir s ss ≡ covers_at t (look s (events dir)) (deeper t (look_dir s (dirs dir)) ss)
unfolding covers
covers_lem t dir s [] = refl
covers_lem t dir s (u ∷ us) = refl

-- All that one directory stands for, the other stands for.
abbrev pub Keeps : EventDir → EventDir → Type 0
Keeps dir d =
    (t : EventType) (s : Text) (ss : List Text) → covers t dir s ss ≡ true → covers t d s ss ≡ true

-- An event is put at a name, and the directory of that name may go.
pub put-covers :
    (t : EventType) (name : Text) (ev : AggregatedEvent) (es : List (Text × AggregatedEvent))
    (ds : Dirs) (ss : List Text)
    → covers t (event_dir (put name ev es) ds) name ss ≡ includes ev.ev_type t
put-covers t name ev es ds ss =
    covers_lem t (event_dir (put name ev es) ds) name ss
    ∙ ap (λ o. covers_at t o (deeper t (look_dir name ds) ss)) (look-put name ev es)

pub put-Keeps :
    (name : Text) (ev : AggregatedEvent) (es : List (Text × AggregatedEvent)) (ds ds' : Dirs)
    → ((s : Text) → text_eq name s ≡ false → look_dir s ds' ≡ look_dir s ds)
    → ((t : EventType) (ss : List Text)
        → covers t (event_dir es ds) name ss ≡ true
        → includes ev.ev_type t ≡ true)
    → Keeps (event_dir es ds) (event_dir (put name ev es) ds')
put-Keeps name ev es ds ds' others at_name t s ss c = elim (Bool-cases (text_eq name s)) [
  | inl same ↦
      let e = text_eq_sound name s same in
      subst (λ n. covers t (event_dir (put name ev es) ds') n ss ≡ true) e
        (put-covers t name ev es ds' ss
          ∙ at_name t ss (subst (λ n. covers t (event_dir es ds) n ss ≡ true) (sym e) c))
  | inr other ↦
      covers_lem t (event_dir (put name ev es) ds') s ss
      ∙ ap (λ o. covers_at t o (deeper t (look_dir s ds') ss)) (look-put_other name s ev es other)
      ∙ ap (λ o. covers_at t (look s es) (deeper t o ss)) (others s other)
      ∙ sym (covers_lem t (event_dir es ds) s ss)
      ∙ c
]

-- A directory is put in the place of one that it keeps.
deeper-Keeps :
    (o : Option EventDir) (d : EventDir)
    → Keeps (child_or_new o) d
    → (t : EventType) (x : Option AggregatedEvent) (ss : List Text)
    → covers_at t x (deeper t o ss) ≡ true
    → covers_at t x (deeper t (some d) ss) ≡ true
deeper-Keeps o d keeps t (some ev) ss c = c
deeper-Keeps o d keeps t none [] c = c
deeper-Keeps o d keeps t none (u ∷ us) c = keeps t u us c

pub put_child-Keeps :
    (name : Text) (dir d : EventDir)
    → Keeps (child_or_new (look_dir name (dirs dir))) d
    → Keeps dir (put_child name dir d)
put_child-Keeps name dir d keeps t s ss c = elim (Bool-cases (text_eq name s)) [
  | inl same ↦
      let e = text_eq_sound name s same in
      covers_lem t (put_child name dir d) s ss
      ∙ ap (λ o. covers_at t (look s (events dir)) (deeper t o ss))
          (subst (λ n. look_dir n (put_dir name d (dirs dir)) ≡ some d) e
            (look_dir-put_dir name d (dirs dir)))
      ∙ deeper-Keeps (look_dir s (dirs dir)) d
          (subst (λ n. Keeps (child_or_new (look_dir n (dirs dir))) d) e keeps) t
          (look s (events dir)) ss (sym (covers_lem t dir s ss) ∙ c)
  | inr other ↦
      covers_lem t (put_child name dir d) s ss
      ∙ ap (λ o. covers_at t (look s (events dir)) (deeper t o ss))
          (look_dir-put_other name s d (dirs dir) other)
      ∙ sym (covers_lem t dir s ss)
      ∙ c
]

pub put_child-covers :
    (t : EventType) (name u : Text) (us : List Text) (dir d : EventDir)
    → look name (events dir) ≡ none
    → covers t d u us ≡ true
    → covers t (put_child name dir d) name (u ∷ us) ≡ true
put_child-covers t name u us dir d h c =
    covers_lem t (put_child name dir d) name (u ∷ us)
    ∙ ap (λ x. covers_at t x (deeper t (look_dir name (put_dir name d (dirs dir))) (u ∷ us))) h
    ∙ ap (λ o. deeper t o (u ∷ us)) (look_dir-put_dir name d (dirs dir))
    ∙ c

covers_at_mono :
    (t : EventType) (x : Option AggregatedEvent) (b b' : Bool)
    → (b ≡ true → b' ≡ true)
    → covers_at t x b ≡ true
    → covers_at t x b' ≡ true
covers_at_mono t (some ev) b b' h c = c
covers_at_mono t none b b' h c = h c

-- What is above a name stands for it.
pub covers-append :
    (t : EventType) (dir : EventDir) (s : Text) (ss more : List Text)
    → covers t dir s ss ≡ true
    → covers t dir s (ss ++ more) ≡ true
covers-append t dir s [] more c =
    covers_lem t dir s more
    ∙ covers_at_mono t (look s (events dir)) false (deeper t (look_dir s (dirs dir)) more) (λ h. cc)
        (sym (covers_lem t dir s []) ∙ c)
covers-append t dir s (u ∷ us) more c =
    covers_lem t dir s (u ∷ us ++ more)
    ∙ covers_at_mono t (look s (events dir)) (deeper t (look_dir s (dirs dir)) (u ∷ us)) _
        (covers-append t (child_or_new (look_dir s (dirs dir))) u us more)
        (sym (covers_lem t dir s (u ∷ us)) ∙ c)
