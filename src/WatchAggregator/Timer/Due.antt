-- ===== src/WatchAggregator/Timer/Due.antt =====
-- lib/watchaggregator/aggregator.go: what `actOnTimer` hands over and what it leaves.
use mathlib.Core.List.{Perm}
use mathlib.Core.List.Perm
use mathlib.Core.Path.{subst}
use syncthing_mem.Base.{
  ℕ, ◌+◌, ◌*◌, ◌≤◌, ◌≡◌, refl, sym, Bool, true, false, not, [], ◌∷◌, ◌++◌, append_assoc, length,
  arith, if_ind, pos, ◌==ℤ◌,
}
use syncthing_mem.WatchAggregator.{
  AggregatedEvent, EventDir, non_remove, types_eq, total_count, Aggregator, reset_notify_timer,
}
use syncthing_mem.WatchAggregator.Invariant.{IsValid}
use syncthing_mem.WatchAggregator.Timer.{
  OldEvents, Popped, Action, none_started, notify_started, popped_into, pop_round, only_removes,
  pop_for_timer, end_of_timer, act_on_timer, is_old,
}
use syncthing_mem.WatchAggregator.Timer.Popping.{
  chosen, but, chosen-Perm, all_events, pop_old_events_to-Pops,
}
use syncthing_mem.WatchAggregator.Timer.Sizes.{event_count-length, pop-IsValid}

-- An event that need not be scanned yet: it is not older than the timeout, and one that is no removal
-- has been modified in the last half of the delay.
abbrev pub NotDue : Aggregator → ℕ → AggregatedEvent → Type 0
NotDue a now ev =
    (now ≤ a.notify_timeout + ev.first_mod_time)
    × (types_eq ev.ev_type non_remove ≡ true → 2 * now ≤ a.notify_delay + 2 * ev.last_mod_time)

abbrev pub AllEvents : (AggregatedEvent → Type 0) → OldEvents → Type 0
AllEvents P [] = Unit {0}
AllEvents P ((path, ev) ∷ l) = P ev × AllEvents P l

is_old-NotDue :
    (a : Aggregator) (now : ℕ) (ev : AggregatedEvent)
    → is_old a ev now true ≡ false
    → NotDue a now ev
unfolding is_old
is_old-NotDue a now ev h = (ground arith, λ t. ground arith)

AllEvents-chosen :
    (P : AggregatedEvent → Type 0) (p : AggregatedEvent → Bool) (l : OldEvents)
    → AllEvents P l
    → AllEvents P (chosen p l)
AllEvents-chosen P p [] h = tt
AllEvents-chosen P p ((path, ev) ∷ l) (h, hs) =
    if_ind (AllEvents P) (p ev) _ _ (λ _. (h, AllEvents-chosen P p l hs))
      (λ _. AllEvents-chosen P p l hs)

AllEvents-but :
    (P : AggregatedEvent → Type 0) (p : AggregatedEvent → Bool) (l : OldEvents)
    → ((ev : AggregatedEvent) → p ev ≡ false → P ev)
    → AllEvents P (chosen (but p) l)
AllEvents-but P p [] h = tt
AllEvents-but P p ((path, ev) ∷ l) h =
    if_ind (AllEvents P) (not (p ev)) _ _ (λ e. (h ev (ground arith), AllEvents-but P p l h))
      (λ _. AllEvents-but P p l h)

module _ (max_files per_dir : ℕ) where
  -- What a round of popping comes to.
  record Hands (a : Aggregator) (now : ℕ) (p : Popped EventDir) : Type 0 where
    valid : IsValid max_files per_dir (popped_into a p)
    none_lost : Perm (p.to ++ all_events [] p.left) (all_events [] a.root)
    not_due : AllEvents (NotDue a now) (all_events [] p.left)

  first_round-Hands :
      (now : ℕ) (a : Aggregator)
      → IsValid max_files per_dir a
      → Hands a now (pop_round true [] now a)
  unfolding pop_round
  first_round-Hands now a v =
      let old = λ (ev : AggregatedEvent). is_old a ev now true in
      let facts = pop_old_events_to-Pops old [] [] a.counts a.root in
      let all = all_events [] a.root in
      record {
        valid = pop-IsValid max_files per_dir old [] a v;
        none_lost =
            subst (λ l. Perm (l ++ all_events [] (pop_round true [] now a).left) all)
              (sym facts.to_old)
              (subst (λ l. Perm (chosen old all ++ l) all) (sym facts.others)
                (chosen-Perm old all));
        not_due =
            subst (AllEvents (NotDue a now)) (sym facts.others)
              (AllEvents-but (NotDue a now) old all (is_old-NotDue a now));
      }

  second_round-Hands :
      (now : ℕ) (a : Aggregator) (first : Popped EventDir)
      → Hands a now first
      → Hands a now (pop_round false first.to now (popped_into a first))
  unfolding pop_round
  second_round-Hands now a first h =
      let old = λ (ev : AggregatedEvent). is_old (popped_into a first) ev now false in
      let facts = pop_old_events_to-Pops old [] first.to first.counts first.left in
      let left = all_events [] first.left in
      record {
        valid = pop-IsValid max_files per_dir old first.to (popped_into a first) h.valid;
        none_lost =
            subst
              (λ l.
                Perm (l ++ all_events [] (pop_round false first.to now (popped_into a first)).left)
                  (all_events [] a.root))
              (sym facts.to_old)
              (subst (λ l. Perm ((first.to ++ chosen old left) ++ l) (all_events [] a.root))
                (sym facts.others)
                (subst (λ l. Perm l (all_events [] a.root))
                  (sym (append_assoc first.to (chosen old left) (chosen (but old) left)))
                  (Perm.trans (Perm.append_left first.to (chosen-Perm old left)) h.none_lost)));
        not_due =
            subst (AllEvents (NotDue a now)) (sym facts.others)
              (AllEvents-chosen (NotDue a now) (but old) left h.not_due);
      }

  pop_for_timer-Hands :
      (now : ℕ) (a : Aggregator) → IsValid max_files per_dir a → Hands a now (pop_for_timer now a)
  unfolding pop_for_timer
  pop_for_timer-Hands now a v =
      let first = pop_round true [] now a in
      let h = first_round-Hands now a v in
      if_ind (Hands a now) (only_removes a first.counts) _ _ (λ _. second_round-Hands now a first h)
        (λ _. h)

  -- The events that are handed to `notify`.
  abbrev pub started : Action → OldEvents
  started none_started = []
  started (notify_started old) = old

  pub record Acts (a : Aggregator) (now : ℕ) (r : Aggregator × Action) : Type 0 where
    pub valid : IsValid max_files per_dir r.0
    pub none_lost : Perm (started r.1 ++ all_events [] r.0.root) (all_events [] a.root)
    pub not_due : AllEvents (NotDue a now) (all_events [] r.0.root)

  end_of_timer-Acts :
      (a : Aggregator) (now : ℕ) (p : Popped EventDir) (to : OldEvents)
      → p.to ≡ to
      → Hands a now p
      → Acts a now (end_of_timer (popped_into a p) to)
  unfolding reset_notify_timer
  end_of_timer-Acts a now p [] e h = record {
    valid = record {
      root_fits = h.valid.root_fits;
      below = h.valid.below;
      counted = h.valid.counted;
      few = h.valid.few;
    };
    none_lost = subst (λ l. Perm (l ++ all_events [] p.left) (all_events [] a.root)) e h.none_lost;
    not_due = h.not_due;
  }
  end_of_timer-Acts a now p (x ∷ xs) e h = record {
    valid = h.valid;
    none_lost = subst (λ l. Perm (l ++ all_events [] p.left) (all_events [] a.root)) e h.none_lost;
    not_due = h.not_due;
  }

  -- With counts of zero there is no event.
  no_events :
      (a : Aggregator)
      → IsValid max_files per_dir a
      → (total_count a.counts ==ℤ pos 0) ≡ true
      → all_events [] a.root ≡ []
  no_events a v h =
      let counted = v.counted in
      let size = event_count-length [] a.root in empty (all_events [] a.root) (ground arith)
    where
      empty : (l : OldEvents) → length l ≡ 0 → l ≡ []
      empty [] e = refl
      empty (x ∷ l) e = absurd (omega arith)

  -- actOnTimer of a valid aggregator keeps it valid; the events handed to `notify` and those left are
  -- those there were; and none is left that is due.
  pub act_on_timer-Acts :
      (a : Aggregator) (now : ℕ) → IsValid max_files per_dir a → Acts a now (act_on_timer now a)
  unfolding act_on_timer
  act_on_timer-Acts a now v =
      if_ind (Acts a now) (total_count a.counts ==ℤ pos 0) _ _
        (λ h. record {
          valid = record {
            root_fits = v.root_fits;
            below = v.below;
            counted = v.counted;
            few = v.few;
          };
          none_lost = Perm.refl (all_events [] a.root);
          not_due = subst (AllEvents (NotDue a now)) (sym (no_events a v h)) tt;
        })
        (λ _. end_of_timer-Acts a now (pop_for_timer now a) _ refl (pop_for_timer-Hands now a v))
