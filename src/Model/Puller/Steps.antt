-- ===== src/Model/Puller/Steps.antt =====
-- lib/model/sharedpullerstate.go: the goroutines that share one state, in any order. The copier takes
-- the blocks one by one and copies each or hands it to the pullers; a puller gets any block that it
-- was handed; anyone may fail, open the temporary file or try to close the state.
use mathlib.Core.Path.{subst}
use syncthing_mem.Base.{
  ℕ, suc, ◌+◌, ◌≤◌, ◌≡◌, refl, sym, ap, ◌∙◌, inl, inr, Bool, true, Option, none, List, [], ◌∷◌,
  ◌++◌, ◌/◌, ◌==◌, length, length-append, if◌then◌else◌, arith,
}
use syncthing_mem.Protocol.FileInfo.{BlockInfo, block_size_of}
use syncthing_mem.Model.Puller.{
  PullError, FileSystem, PullerState, PullerConfig, new_shared_puller_state, fail, temp_file,
  copy_done, copied_from_origin, pull_started, pull_done, block_index, final_close,
}
use syncthing_mem.Model.Puller.Close.{
  Counters, counters, Same, fail-Same, temp_file-Same, final_close-Outcome,
}

-- The state, the blocks that the copier has before it, those that the pullers have, and how many
-- calls of `finalClose` have said that the state is closed.
pub record World : Type 0 where
  pub state : PullerState
  pub todo : List BlockInfo
  pub pulling : List BlockInfo
  pub closes : ℕ

pub data Step (w : World) : World → Type 0 where
  copied :
      (now : ℕ) (b : BlockInfo) (rest : List BlockInfo)
      → w.todo ≡ b ∷ rest
      → Step w (record w { state = copy_done now b w.state; todo = rest })
  counted : (now : ℕ) → Step w (record w { state = copied_from_origin now w.state })
  requested :
      (now : ℕ) (b : BlockInfo) (rest : List BlockInfo)
      → w.todo ≡ b ∷ rest
      → Step w (record w { state = pull_started now w.state; todo = rest; pulling = b ∷ w.pulling })
  pulled :
      (now : ℕ) (b : BlockInfo) (before after : List BlockInfo)
      → w.pulling ≡ before ++ b ∷ after
      → Step w (record w { state = pull_done now b w.state; pulling = before ++ after })
  broke : (e : Option PullError) → Step w (record w { state = fail e w.state })
  opened : (fs : FileSystem) → Step w (record w { state = (temp_file fs w.state).1 })
  closing :
      (fs : FileSystem)
      → Step w (record w {
        state = (final_close fs w.state).1;
        closes = if (final_close fs w.state).0.0 then w.closes + 1 else w.closes;
      })

pub data Steps (w : World) : World → Type 0 where
  here : Steps w w
  step : {v u : World} → Steps w v → Step v u → Steps w u

-- The world of a new state.
abbrev pub start : ℕ → PullerConfig → List BlockInfo → List ℕ → World
start now c blocks reused = record {
  state = new_shared_puller_state now c blocks reused;
  todo = blocks;
  pulling = [];
  closes = 0;
}

-- How often an index stands in a list.
unfoldable pub one : ℕ → ℕ → ℕ
one i x = if i == x then 1 else 0

abbrev pub count : ℕ → List ℕ → ℕ
count i [] = 0
count i (x ∷ xs) = one i x + count i xs

abbrev pub indexes : ℕ → List BlockInfo → List ℕ
indexes size [] = []
indexes size (b ∷ bs) = b.offset / size ∷ indexes size bs

count-append : (i : ℕ) (xs ys : List ℕ) → count i (xs ++ ys) ≡ count i xs + count i ys
count-append i [] ys = omega arith
count-append i (x ∷ xs) ys = omega (arith, count-append i xs ys)

count-indexes_append :
    (i size : ℕ) (bs cs : List BlockInfo)
    → count i (indexes size (bs ++ cs)) ≡ count i (indexes size bs) + count i (indexes size cs)
count-indexes_append i size [] cs = omega arith
count-indexes_append i size (b ∷ bs) cs = omega (arith, count-indexes_append i size bs cs)

-- The counters are those of the blocks in hand, and the indexes of the blocks that are there, that the
-- copier has before it and that the pullers have are those of the blocks at the start, each as often.
pub record IsCounted (blocks : List BlockInfo) (reused : List ℕ) (c : Counters)
    (todo pulling : List BlockInfo) : Type 0 where
  pub copies : c.copy_needed ≡ length todo
  pub pulls : c.pull_needed ≡ length pulling
  pub totals : c.copy_total + c.pull_total ≡ length blocks
  pub copies_in_total : length todo ≤ c.copy_total
  pub pulls_in_total : length pulling ≤ c.pull_total
  pub kept :
      (i : ℕ)
      → count i c.available
          + count i (indexes c.block_size todo)
          + count i (indexes c.block_size pulling)
        ≡ count i reused + count i (indexes c.block_size blocks)

-- Besides, the state is closed at most once, and a state that is closed without an error has all
-- blocks.
pub record IsSound (blocks : List BlockInfo) (reused : List ℕ) (w : World) : Type 0 where
  pub counts : IsCounted blocks reused (counters w.state) w.todo w.pulling
  pub once : w.closes ≡ (if w.state.closed then 1 else 0)
  pub complete :
      w.state.closed ≡ true → w.state.err ≡ none → (length w.todo ≡ 0) × (length w.pulling ≡ 0)

module _ (m : List BlockInfo) (n : List ℕ) (w : World) (h : IsSound m n w) where
  -- A change that is none to the counters.
  Same-IsSound : (s : PullerState) → Same w.state s → IsSound m n (record w { state = s })
  Same-IsSound s (c, d, e) = record {
    counts = subst (λ (x : Counters). IsCounted m n x w.todo w.pulling) (sym c) h.counts;
    once = rw d h.once;
    complete = λ closed clear. h.complete (sym d ∙ closed) (e clear);
  }

  copied-IsSound :
      (now : ℕ) (b : BlockInfo) (rest : List BlockInfo)
      → w.todo ≡ b ∷ rest
      → IsSound m n (record w { state = copy_done now b w.state; todo = rest })
  unfolding copy_done
  copied-IsSound now b rest is =
      let shorter = ap (length {A = BlockInfo}) is in
      record {
        counts = record {
          copies = omega (arith, shorter, h.counts.copies);
          pulls = h.counts.pulls;
          totals = h.counts.totals;
          copies_in_total = omega (arith, shorter, h.counts.copies_in_total);
          pulls_in_total = h.counts.pulls_in_total;
          kept = λ i. omega (
            arith,
            ap (λ (l : List BlockInfo). count i (indexes (block_size_of w.state.file) l)) is,
            h.counts.kept i,
            count-append i w.state.available (block_index w.state b ∷ []),
          );
        };
        once = h.once;
        complete = λ closed clear. ground (arith, shorter, h.complete closed clear);
      }

  requested-IsSound :
      (now : ℕ) (b : BlockInfo) (rest : List BlockInfo)
      → w.todo ≡ b ∷ rest
      → IsSound m n
          (record w { state = pull_started now w.state; todo = rest; pulling = b ∷ w.pulling })
  unfolding pull_started
  requested-IsSound now b rest is =
      let shorter = ap (length {A = BlockInfo}) is in
      record {
        counts = record {
          copies = omega (arith, shorter, h.counts.copies);
          pulls = omega (arith, h.counts.pulls);
          totals = omega (arith, shorter, h.counts.totals, h.counts.copies_in_total);
          copies_in_total = omega (arith, shorter, h.counts.copies_in_total);
          pulls_in_total = omega (arith, h.counts.pulls_in_total);
          kept = λ i. omega (
            arith,
            ap (λ (l : List BlockInfo). count i (indexes (block_size_of w.state.file) l)) is,
            h.counts.kept i,
          );
        };
        once = h.once;
        complete = λ closed clear. ground (arith, shorter, h.complete closed clear);
      }

  pulled-IsSound :
      (now : ℕ) (b : BlockInfo) (before after : List BlockInfo)
      → w.pulling ≡ before ++ b ∷ after
      → IsSound m n (record w { state = pull_done now b w.state; pulling = before ++ after })
  unfolding pull_done
  pulled-IsSound now b before after is =
      let shorter : length w.pulling ≡ suc (length (before ++ after)) = omega (
        arith,
        ap (length {A = BlockInfo}) is,
        length-append before (b ∷ after),
        length-append before after,
      ) in
      record {
        counts = record {
          copies = h.counts.copies;
          pulls = omega (arith, shorter, h.counts.pulls);
          totals = h.counts.totals;
          copies_in_total = h.counts.copies_in_total;
          pulls_in_total = omega (arith, shorter, h.counts.pulls_in_total);
          kept = λ i. omega (
            arith,
            ap (λ (l : List BlockInfo). count i (indexes (block_size_of w.state.file) l)) is,
            count-indexes_append i (block_size_of w.state.file) before (b ∷ after),
            count-indexes_append i (block_size_of w.state.file) before after,
            h.counts.kept i,
            count-append i w.state.available (block_index w.state b ∷ []),
          );
        };
        once = h.once;
        complete = λ closed clear. ground (arith, shorter, h.complete closed clear);
      }

  closing-IsSound :
      (fs : FileSystem)
      → IsSound m n (record w {
        state = (final_close fs w.state).1;
        closes = if (final_close fs w.state).0.0 then w.closes + 1 else w.closes;
      })
  closing-IsSound fs = elim (final_close-Outcome fs w.state) [
    | inr (stays_open, same, _) ↦ rw (stays_open, same) h
    | inl (shuts, closes, _, _) ↦ record {
      counts =
          subst (λ (x : Counters). IsCounted m n x w.todo w.pulling) (sym closes.same) h.counts;
      once =
          rw (shuts, closes.closed)
            (ap (λ (k : ℕ). k + 1)
              (h.once ∙ ap (λ (b : Bool). if b then 1 else 0) closes.was_open));
      complete = λ _ clear. (
        omega (arith, closes.complete clear, h.counts.copies),
        omega (arith, closes.complete clear, h.counts.pulls),
      );
    }
  ]

Step-IsSound :
    (m : List BlockInfo) (n : List ℕ) (w v : World) → Step w v → IsSound m n w → IsSound m n v
unfolding copied_from_origin
Step-IsSound m n w v (copied now b rest is) h = copied-IsSound m n w h now b rest is
Step-IsSound m n w v (counted now) h =
    Same-IsSound m n w h (copied_from_origin now w.state) (refl, refl, λ clear. clear)
Step-IsSound m n w v (requested now b rest is) h = requested-IsSound m n w h now b rest is
Step-IsSound m n w v (pulled now b before after is) h = pulled-IsSound m n w h now b before after is
Step-IsSound m n w v (broke e) h = Same-IsSound m n w h (fail e w.state) (fail-Same e w.state)
Step-IsSound m n w v (opened fs) h =
    Same-IsSound m n w h (temp_file fs w.state).1 (temp_file-Same fs w.state)
Step-IsSound m n w v (closing fs) h = closing-IsSound m n w h fs

start-IsSound :
    (now : ℕ) (c : PullerConfig) (blocks : List BlockInfo) (reused : List ℕ)
    → IsSound blocks reused (start now c blocks reused)
unfolding new_shared_puller_state
start-IsSound now c blocks reused = record {
  counts = record {
    copies = refl;
    pulls = refl;
    totals = omega arith;
    copies_in_total = omega arith;
    pulls_in_total = omega arith;
    kept = λ i. omega arith;
  };
  once = refl;
  complete = λ closed. cc;
}

-- In every order of the goroutines' calls on a new state the counters are those of the blocks in hand;
-- the indexes of the blocks to be copied, with a puller and announced as available are together those
-- of the blocks at the start, each as often; `finalClose` says that the state is closed at most once,
-- and a state that is closed and has no error has nothing left to be copied or pulled.
pub Steps-IsSound :
    (now : ℕ) (c : PullerConfig) (blocks : List BlockInfo) (reused : List ℕ) (w : World)
    → Steps (start now c blocks reused) w
    → IsSound blocks reused w
Steps-IsSound now c blocks reused w here = start-IsSound now c blocks reused
Steps-IsSound now c blocks reused w (step {v} steps s) =
    Step-IsSound blocks reused v w s (Steps-IsSound now c blocks reused v steps)
