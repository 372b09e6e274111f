-- ===== src/WatchAggregator/Timer/Batches.antt =====
-- lib/watchaggregator/aggregator.go: the batches and the delays of `notify`, and the timeouts of a
-- folder.
use mathlib.Core.List.{Perm, perm_middle}
use mathlib.Core.List.Perm
use mathlib.Core.Path.{subst}
use syncthing_mem.Base.{
  ℕ, ◌+◌, ◌/◌, ◌≤◌, ◌<◌, ◌≡◌, refl, sym, ap, ◌∙◌, max, Bool, true, false, List, [], ◌∷◌, ◌++◌,
  append-nil, arith, if◌then◌else◌, Text,
}
use syncthing_mem.WatchAggregator.{
  EventType, non_remove, remove, mixed, no_type, types_eq, Aggregator,
}
use syncthing_mem.WatchAggregator.Timer.{
  OldEvents, batch, batches, send_batch, next_delay, buffer, one_second, notify_timeout_of,
  update_config,
}

abbrev pub paths : OldEvents → List (List Text)
paths [] = []
paths ((path, ev) ∷ old) = path ∷ paths old

abbrev pub flat : List (List (List Text)) → List (List Text)
flat [] = []
flat (b ∷ bs) = b ++ flat bs

-- Each event is of one of the types that a watch reports.
abbrev pub AreTyped : OldEvents → Type 0
AreTyped [] = Unit {0}
AreTyped ((path, ev) ∷ old) = (types_eq ev.ev_type no_type ≡ false) × AreTyped old

flat-send_batch :
    (b : List (List Text)) (sent : List (List (List Text)))
    → flat (send_batch b sent) ≡ b ++ flat sent
flat-send_batch [] sent = refl
flat-send_batch (p ∷ ps) sent = refl

-- A path in front of the batch of its type, by the two bits of the type.
three :
    (x y z l : List (List Text)) (path : List Text) (nr r : Bool)
    → types_eq (record { non_removes = nr; removes = r }) no_type ≡ false
    → Perm (x ++ (y ++ z)) l
    → let t : EventType = record { non_removes = nr; removes = r } in
      Perm
        ((if types_eq t non_remove then path ∷ x else x)
          ++ ((if types_eq t mixed then path ∷ y else y)
              ++ (if types_eq t remove then path ∷ z else z)))
        (path ∷ l)
three x y z l path true true h p = Perm.trans (perm_middle x (y ++ z)) (Perm.cons path p)
three x y z l path true false h p = Perm.cons path p
three x y z l path false true h p =
    Perm.trans (Perm.append_left x (perm_middle y z))
      (Perm.trans (perm_middle x (y ++ z)) (Perm.cons path p))
three x y z l path false false h p = absurd (cc)

three_batches :
    (old : OldEvents)
    → AreTyped old
    → Perm (batch non_remove old ++ (batch mixed old ++ batch remove old)) (paths old)
unfolding batch
three_batches [] h = Perm.nil
three_batches ((path, ev) ∷ old) (h, hs) =
    three (batch non_remove old) (batch mixed old) (batch remove old) (paths old) path
      ev.ev_type.non_removes ev.ev_type.removes h (three_batches old hs)

-- The batches hold the path of each event that is handed over, once: first those that are no
-- removals, then the mixed ones, then the removals.
pub batches-Perm :
    (old : OldEvents)
    → AreTyped old
    → (flat (batches old) ≡ batch non_remove old ++ (batch mixed old ++ batch remove old))
      × Perm (flat (batches old)) (paths old)
unfolding batches
batches-Perm old h =
    let mixed_and_removes =
      flat-send_batch (batch mixed old) (send_batch (batch remove old) [])
      ∙ ap (λ l. batch mixed old ++ l)
          (flat-send_batch (batch remove old) [] ∙ append-nil (batch remove old)) in
    let all =
      flat-send_batch (batch non_remove old)
        (send_batch (batch mixed old) (send_batch (batch remove old) []))
      ∙ ap (λ l. batch non_remove old ++ l) mixed_and_removes in
    (all, subst (λ l. Perm l (paths old)) (sym all) (three_batches old h))

-- notify asks for the next timer at the latest a notify delay after it began to send and a tenth, or a
-- millisecond after it ended; for at least a millisecond, if the delay is one, and for no more than
-- the delay or a millisecond.
pub next_delay_bounds :
    (notify_delay duration : ℕ)
    → (duration + next_delay notify_delay duration
        ≤ max (notify_delay + notify_delay / 10) (duration + buffer))
      × (buffer ≤ notify_delay → buffer ≤ next_delay notify_delay duration)
      × (next_delay notify_delay duration ≤ max notify_delay buffer)
unfolding next_delay
next_delay_bounds notify_delay duration = (ground arith, λ h. ground arith, ground arith)

-- With a configured delay of less than a second the notify delay is zero; whatever a folder is
-- configured with, the timeout is not less than the notify delay and the configured one.
pub update_config_bounds :
    (delay max_delay : ℕ) (a : Aggregator)
    → (delay < one_second → (update_config delay max_delay a).notify_delay ≡ 0)
      × ((update_config delay max_delay a).notify_delay ≤ delay)
      × (delay ≤ (update_config delay max_delay a).notify_timeout)
unfolding update_config notify_timeout_of
update_config_bounds delay max_delay a = (λ h. omega arith, omega arith, ground arith)
