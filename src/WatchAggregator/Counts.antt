-- ===== src/WatchAggregator/Counts.antt =====
-- lib/watchaggregator/aggregator.go: the counts against the number of events in the tree.
use syncthing_mem.Base.{
  ℕ, ◌+◌, ◌≤◌, ◌<◌, ◌≡◌, none, some, length, arith, if_ind, if_both, Text, text_eq, ℤ, pos, negsuc,
  pos_part, neg_part, int_laws,
}
use syncthing_mem.WatchAggregator.{
  EventType, types_eq, EventDir, event_dir, Dirs, no_dirs, sub_dir, dir_count, child_count,
  look_dir, put_dir, delete_dir, EventCounter, add, total_count,
}
use syncthing_mem.WatchAggregator.Aggregate.{recount}
use syncthing_mem.WatchAggregator.Valid.{BelowIsOk, DirsAreOk}

unfoldable mutual
  -- The number of events in a directory and below it.
  pub event_count : EventDir → ℕ
  event_count (event_dir es ds) = length es + dirs_event_count ds

  pub dirs_event_count : Dirs → ℕ
  dirs_event_count no_dirs = 0
  dirs_event_count (sub_dir name d ds) = event_count d + dirs_event_count ds

pub dirs_event_count-put_new :
    (name : Text) (d : EventDir) (ds : Dirs)
    → look_dir name ds ≡ none
    → dirs_event_count (put_dir name d ds) ≡ dirs_event_count ds + event_count d
unfolding event_count
dirs_event_count-put_new name d no_dirs = λ h. omega arith
dirs_event_count-put_new name d (sub_dir n e ds) =
    if_both
      (λ o l. o ≡ none → dirs_event_count l ≡ event_count e + dirs_event_count ds + event_count d)
      (text_eq n name) _ _ _ _ (λ _ h. cc)
      (λ _ (h : look_dir name ds ≡ none). omega (arith, dirs_event_count-put_new name d ds h))

pub dirs_event_count-put_old :
    (name : Text) (d old : EventDir) (ds : Dirs)
    → look_dir name ds ≡ some old
    → dirs_event_count (put_dir name d ds) + event_count old ≡ dirs_event_count ds + event_count d
unfolding event_count
dirs_event_count-put_old name d old no_dirs = λ h. cc
dirs_event_count-put_old name d old (sub_dir n e ds) =
    if_both
      (λ o l.
        o ≡ some old
        → dirs_event_count l + event_count old
          ≡ event_count e + dirs_event_count ds + event_count d)
      (text_eq n name) _ _ _ _
      (λ _ (h : some e ≡ some old). let same : event_count e ≡ event_count old = cc in omega arith)
      (λ _ (h : look_dir name ds ≡ some old).
        omega (arith, dirs_event_count-put_old name d old ds h))

dirs_event_count-delete_le :
    (name : Text) (ds : Dirs) → dirs_event_count (delete_dir name ds) ≤ dirs_event_count ds
unfolding event_count
dirs_event_count-delete_le name no_dirs = omega arith
dirs_event_count-delete_le name (sub_dir n e ds) =
    if_ind (λ l. dirs_event_count l ≤ event_count e + dirs_event_count ds) (text_eq n name) _ _
      (λ _. omega (arith, dirs_event_count-delete_le name ds))
      (λ _. omega (arith, dirs_event_count-delete_le name ds))

pub dirs_event_count-delete :
    (name : Text) (d : EventDir) (ds : Dirs)
    → look_dir name ds ≡ some d
    → dirs_event_count (delete_dir name ds) + event_count d ≤ dirs_event_count ds
unfolding event_count
dirs_event_count-delete name d no_dirs = λ h. cc
dirs_event_count-delete name d (sub_dir n e ds) =
    if_both
      (λ o l. o ≡ some d → dirs_event_count l + event_count d ≤ event_count e + dirs_event_count ds)
      (text_eq n name) _ _ _ _
      (λ _ (h : some e ≡ some d).
        let same : event_count e ≡ event_count d = cc in
        omega (arith, dirs_event_count-delete_le name ds))
      (λ _ (h : look_dir name ds ≡ some d). omega (arith, dirs_event_count-delete name d ds h))

module _ (per_dir : ℕ) where
  mutual
    unfolding event_count BelowIsOk

    -- A directory that is not empty, nor is one below it, holds an event.
    pub event_count_pos :
        (d : EventDir) → 0 < child_count d → BelowIsOk per_dir d → 0 < event_count d
    event_count_pos (event_dir es ds) h b = omega (arith, dirs_event_count_pos ds b)

    dirs_event_count_pos : (ds : Dirs) → DirsAreOk per_dir ds → dir_count ds ≤ dirs_event_count ds
    dirs_event_count_pos no_dirs b = omega arith
    dirs_event_count_pos (sub_dir name d ds) (h, _, b, k) =
        omega (arith, event_count_pos d h b, dirs_event_count_pos ds k)

-- The total after one addition, by its parts.
pub total_count-add :
    (typ : EventType) (n : ℤ) (c : EventCounter)
    → pos_part (total_count (add typ n c)) + neg_part (total_count c) + neg_part n
      ≡ neg_part (total_count (add typ n c)) + pos_part (total_count c) + pos_part n
total_count-add typ n c =
    if_ind
      (λ d.
        pos_part (total_count d) + neg_part (total_count c) + neg_part n
        ≡ neg_part (total_count d) + pos_part (total_count c) + pos_part n)
      typ.removes _ _ (λ _. omega int_laws) (λ _. omega int_laws)

pub total_count-recount :
    (old merged : EventType) (c : EventCounter)
    → pos_part (total_count (recount old merged c)) + neg_part (total_count c)
      ≡ neg_part (total_count (recount old merged c)) + pos_part (total_count c)
total_count-recount old merged c =
    if_ind
      (λ d.
        pos_part (total_count d) + neg_part (total_count c)
        ≡ neg_part (total_count d) + pos_part (total_count c))
      (types_eq old merged) _ _ (λ _. omega arith)
      (λ _. omega (
        arith,
        total_count-add old (negsuc 0) c,
        total_count-add merged (pos 1) (add old (negsuc 0) c),
      ))
