-- ===== src/Model/Puller/Close.antt =====
-- lib/model/sharedpullerstate.go: `finalClose`, and what leaves the counters alone.
use syncthing_mem.Base.{
  ℕ, ◌+◌, ◌≡◌, refl, ◌∙◌, ◌⊎◌, inl, inr, ◌↔◌, Bool, true, false, not, ◌&&◌, Option, none, some,
  List, length, ltb, ◌==◌, Text, arith, if_ind,
}
use syncthing_mem.Protocol.FileInfo.{block_size_of}
use syncthing_mem.Model.Puller.{
  PullError, other, FileSystem, PullerState, add_writer, fail, temp_file, finalize_encrypted,
  closing_error, close_writer, is_some, fail_with, temp_added, temp_file_after, finalize_by,
  close_added, close_ready, final_close,
}

-- The counters, the blocks that are there, and the size of a block.
pub record Counters : Type 0 where
  pub copy_total : ℕ
  pub pull_total : ℕ
  pub copy_needed : ℕ
  pub pull_needed : ℕ
  pub available : List ℕ
  pub block_size : ℕ

abbrev pub counters : PullerState → Counters
counters s = record {
  copy_total = s.copy_total;
  pull_total = s.pull_total;
  copy_needed = s.copy_needed;
  pull_needed = s.pull_needed;
  available = s.available;
  block_size = block_size_of s.file;
}

-- What the errors and the file system change: neither the counters nor whether the state is closed.
abbrev pub Same : PullerState → PullerState → Type 0
Same s s' = (counters s' ≡ counters s) × (s'.closed ≡ s.closed) × (s'.err ≡ none → s.err ≡ none)

fail_with-Same :
    (before : Option PullError) (e : PullError) (s : PullerState)
    → s.err ≡ before
    → Same s (fail_with before e s)
unfolding fail_with
fail_with-Same none e s is = (refl, refl, λ _. is)
fail_with-Same (some before) e s is = (refl, refl, λ h. h)

pub fail-Same : (e : Option PullError) (s : PullerState) → Same s (fail e s)
unfolding fail
fail-Same none s = (refl, refl, λ h. h)
fail-Same (some e) s = fail_with-Same s.err e s refl

temp_added-Same : (o : Option PullError) (s : PullerState) → Same s (temp_added o s).1
unfolding temp_added
temp_added-Same none s = (refl, refl, λ h. h)
temp_added-Same (some e) s = fail-Same (some e) s

temp_file_after-Same :
    (o : Option PullError) (fs : FileSystem) (s : PullerState) → Same s (temp_file_after o fs s).1
unfolding temp_file_after
temp_file_after-Same (some e) fs s = (refl, refl, λ h. h)
temp_file_after-Same none fs s =
    if_ind (λ (r : Option PullError × PullerState). Same s r.1) s.writer (none, s)
      (temp_added (add_writer fs s) s) (λ _. (refl, refl, λ h. h))
      (λ _. temp_added-Same (add_writer fs s) s)

pub temp_file-Same : (fs : FileSystem) (s : PullerState) → Same s (temp_file fs s).1
unfolding temp_file
temp_file-Same fs s = temp_file_after-Same s.err fs s

finalize_by-Same :
    (o : Option Text) (fs : FileSystem) (s : PullerState) → Same s (finalize_by o fs s)
unfolding finalize_by block_size_of
finalize_by-Same (some e) fs s = fail-Same (some (other e)) s
finalize_by-Same none fs s = (refl, refl, λ h. h)

finalize-Same : (fs : FileSystem) (s : PullerState) → Same s (finalize_encrypted fs s)
unfolding finalize_encrypted
finalize-Same fs s =
    if_ind (Same s) (ltb 0 (length s.file.encrypted)) _ s
      (λ _.
        finalize_by-Same (fs.write_trailer (record (s.file) { name = fs.wire_name s.file.name })) fs
          s)
      (λ _. (refl, refl, λ h. h))

Same-trans : (s t u : PullerState) → Same s t → Same t u → Same s u
Same-trans s t u (c, d, e) (c', d', e') = (c' ∙ c, d' ∙ d, λ h. e (e' h))

-- A state that is closed has the counters of the one before, which had an error if this one has.
close_writer_lem :
    (fs : FileSystem) (s : PullerState)
    → ((close_writer fs s).0.0 ≡ true)
      × ((close_writer fs s).1.closed ≡ true)
      × (counters (close_writer fs s).1 ≡ counters s)
      × ((close_writer fs s).1.err ≡ none → s.err ≡ none)
unfolding close_writer
close_writer_lem fs s =
    let (c, d, e) =
      Same-trans s (finalize_encrypted fs s)
        (fail (closing_error fs.close) (finalize_encrypted fs s)) (finalize-Same fs s)
        (fail-Same (closing_error fs.close) (finalize_encrypted fs s)) in
    (refl, refl, c, e)

-- What a call of `finalClose` that closes the state finds and leaves.
pub record Closes (s s' : PullerState) : Type 0 where
  pub was_open : s.closed ≡ false
  pub closed : s'.closed ≡ true
  pub same : counters s' ≡ counters s
  pub complete : s'.err ≡ none → s.pull_needed + s.copy_needed ≡ 0

-- No block is wanted any more, or there is an error.
abbrev pub Over : PullerState → Type 0
Over s = (s.pull_needed + s.copy_needed ≡ 0) ⊎ (is_some s.err ≡ true)

abbrev pub CanOpen : FileSystem → PullerState → Type 0
CanOpen fs s = (s.writer ≡ true) ⊎ (add_writer fs s ≡ none)

-- What `finalClose` returns of a state: it closes the state, or leaves it alone.
abbrev pub Outcome : FileSystem → PullerState → (Bool × Option PullError) × PullerState → Type 0
Outcome fs s r =
    ((r.0.0 ≡ true) × Closes s r.1 × Over s × CanOpen fs s)
    ⊎ ((r.0.0 ≡ false) × (r.1 ≡ s) × ¬ ((s.closed ≡ false) × Over s × CanOpen fs s))

goes-Over :
    (s : PullerState)
    → (not (s.pull_needed + s.copy_needed == 0) && not (is_some s.err)) ≡ false
    → Over s
goes-Over s h = ground arith

waits_not-Over :
    (s : PullerState)
    → (not (s.pull_needed + s.copy_needed == 0) && not (is_some s.err)) ≡ true
    → ¬ Over s
waits_not-Over s h (inl none_left) = ground arith
waits_not-Over s h (inr broken) = ground arith

complete_of_Over : (s : PullerState) → Over s → s.err ≡ none → s.pull_needed + s.copy_needed ≡ 0
complete_of_Over s (inl none_left) clear = none_left
complete_of_Over s (inr broken) clear = ground arith

module _ (fs : FileSystem) (s : PullerState) (was_open : s.closed ≡ false) (over : Over s) where
  close_writer-Closes :
      (t : PullerState) → Same s t → CanOpen fs s → Outcome fs s (close_writer fs t)
  close_writer-Closes t (c, _, e) can =
      let (shuts, closed, c', e') = close_writer_lem fs t in
      inl (
        shuts,
        record {
          was_open = was_open;
          closed = closed;
          same = c' ∙ c;
          complete = λ h. complete_of_Over s over (e (e' h));
        },
        over,
        can,
      )

  close_added-Outcome :
      (o : Option PullError)
      → s.writer ≡ false
      → add_writer fs s ≡ o
      → Outcome fs s (close_added o fs s)
  unfolding close_added
  close_added-Outcome none shut opens =
      close_writer-Closes (record s { writer = true }) (refl, refl, λ h. h) (inr opens)
  close_added-Outcome (some e) shut stays = inr (refl, refl, stuck)
    where
      stuck : ¬ ((s.closed ≡ false) × Over s × CanOpen fs s)
      stuck (_, _, inl open_already) = cc
      stuck (_, _, inr opens) = cc

  close_ready-Outcome : Outcome fs s (close_ready fs s)
  unfolding close_ready
  close_ready-Outcome =
      if_ind (Outcome fs s) s.writer (close_writer fs s) (close_added (add_writer fs s) fs s)
        (λ ready. close_writer-Closes s (refl, refl, λ h. h) (inl ready))
        (λ shut. close_added-Outcome (add_writer fs s) shut refl)

pub final_close-Outcome : (fs : FileSystem) (s : PullerState) → Outcome fs s (final_close fs s)
unfolding final_close
final_close-Outcome fs s =
    if_ind (Outcome fs s) s.closed _ _ (λ closed. inr (refl, refl, λ (was_open, _, _). cc))
      (λ was_open.
        if_ind (Outcome fs s) (not (s.pull_needed + s.copy_needed == 0) && not (is_some s.err)) _ _
          (λ waits. inr (refl, refl, λ (_, over, _). waits_not-Over s waits over))
          (λ goes. close_ready-Outcome fs s was_open (goes-Over s goes)))

-- `finalClose` closes the state exactly if it is not closed, all blocks are there or there is an error,
-- and the temporary file is open or can be opened.
pub final_close_iff :
    (fs : FileSystem) (s : PullerState)
    → ((final_close fs s).0.0 ≡ true) ↔ (
        (s.closed ≡ false)
        × ((s.pull_needed + s.copy_needed ≡ 0) ⊎ (is_some s.err ≡ true))
        × ((s.writer ≡ true) ⊎ (add_writer fs s ≡ none)))
final_close_iff fs s = elim (final_close-Outcome fs s) [
  | inl (shuts, closes, over, can) ↦ (λ _. (closes.was_open, over, can), λ _. shuts)
  | inr (stays_open, _, not_ready) ↦ (λ shuts. cc, λ ready. absurd (not_ready ready))
]
