-- ===== src/Model/IndexHandler/Complete.antt =====
-- lib/model/indexhandler.go: how far `sendIndexTo` gets, on a database that lists what it is asked for.
use mathlib.Core.Path.{subst}
use syncthing_mem.Base.{
  ℕ, ◌+◌, ◌≤◌, ◌<◌, ◌≡◌, refl, ap, sym, ◌∙◌, inl, inr, ◌⊎◌, Bool, true, false, not, ◌&&◌, ◌||◌,
  Option, none, some, List, [], ◌∷◌, ◌++◌, append-nil, append_assoc, length, ltb, leb, ◌==◌,
  if◌then◌else◌, if_ind, arith, Text,
}
use syncthing_mem.Protocol.FileInfo.{FileInfo}
use syncthing_mem.Model.Batch.{
  FileInfoBatch, append_file, append_after, full, flush, flush_after, flushed,
}
use syncthing_mem.Model.IndexHandler.{
  IndexHandler, Message, Surroundings, prepare_file_info_for_index, is_receive_only_changed, Scan,
  Verdict, leave, next, seen_file, taken, scan_one, ScanEnd, finished, scan, last_sequence, message,
  Sent, begin, send_index_to, send_scanned, flush_fn, SendEnd, done, flush_end, answered,
}
use syncthing_mem.Model.IndexHandler.Send.{Rising}

-- The files that are announced of those looked at.
abbrev pub announced : Bool → List FileInfo → List FileInfo
announced encrypted [] = []
announced encrypted (f ∷ fs) =
    let rest = announced encrypted fs in
    if encrypted && is_receive_only_changed f then rest else prepare_file_info_for_index f ∷ rest

-- A state of the loop that has not failed.
pub record IsFine (s : Scan) : Type 0 where
  pub intact : s.batch.error ≡ none
  pub behind : s.last ≤ s.handler.local_prev_sequence

-- A round that goes on has looked at its file.
pub record Looked (fi : FileInfo) (s s' : Scan) : Type 0 where
  pub fine : IsFine s'
  pub at : s'.handler.local_prev_sequence ≡ fi.sequence
  pub same : s'.handler.folder_is_receive_encrypted ≡ s.handler.folder_is_receive_encrypted
  pub infos :
      s'.batch.infos ≡ s.batch.infos ++ announced s.handler.folder_is_receive_encrypted (fi ∷ [])

abbrev Round : FileInfo → Scan → Verdict → Type 0
Round fi s v =
    ((v ≡ leave) × (full s.batch ≡ true)) ⊎ ((s' : Scan) × (v ≡ next s') × Looked fi s s')

module _ (wire_size : FileInfo → ℕ) (fi : FileInfo) (s : Scan) (fine : IsFine s)
    (above : s.handler.local_prev_sequence < fi.sequence) where
  taken-Round :
      (o : Option Text)
      → s.batch.error ≡ o
      → (s.handler.folder_is_receive_encrypted && is_receive_only_changed fi) ≡ false
      → (size : ℕ)
      → Round fi s (taken fi s (append_after o size (prepare_file_info_for_index fi) s.batch))
  unfolding taken append_after
  taken-Round (some e) broken sent size = let clear = fine.intact in cc
  taken-Round none intact sent size = inr (
    _,
    refl,
    record {
      fine = record { intact = intact; behind = omega arith };
      at = refl;
      same = refl;
      infos = rw sent;
    },
  )

  scan_one-Round : Round fi s (scan_one wire_size fi s)
  unfolding scan_one append_file
  scan_one-Round =
      if_ind (Round fi s) (full s.batch && (not fi.deleted || s.previous_was_delete)) _ _
        (λ out. inl (refl, ground (arith, out)))
        (λ _.
          if_ind (Round fi s) (ltb fi.sequence (s.handler.local_prev_sequence + 1)) _ _
            (λ low. ground (arith, low, above))
            (λ _.
              if_ind (Round fi s) (ltb 0 s.last && leb fi.sequence s.last) _ _
                (λ repeats. ground (arith, repeats, above, fine.behind))
                (λ _.
                  if_ind (Round fi s)
                    (s.handler.folder_is_receive_encrypted && is_receive_only_changed fi) _ _
                    (λ skip. inr (
                      seen_file fi s,
                      refl,
                      record {
                        fine = record { intact = fine.intact; behind = omega arith };
                        at = refl;
                        same = refl;
                        infos = rw skip (sym (append-nil s.batch.infos));
                      },
                    ))
                    (λ sent.
                      taken-Round s.batch.error refl sent
                        (wire_size (prepare_file_info_for_index fi))))))

-- The loop has looked at the first files and stands behind them; if the batch was not full
-- it has looked at one at least.
pub record Reached (s : Scan) (files : List FileInfo) (s' : Scan) : Type 0 where
  pub seen : List FileInfo
  pub rest : List FileInfo
  pub split : files ≡ seen ++ rest
  pub infos : s'.batch.infos ≡ s.batch.infos ++ announced s.handler.folder_is_receive_encrypted seen
  pub at : s'.handler.local_prev_sequence ≡ last_sequence s.handler.local_prev_sequence seen
  pub intact : s'.batch.error ≡ none
  pub moves : full s.batch ≡ false → (files ≡ []) ⊎ (0 < length seen)

announced-append :
    (encrypted : Bool) (f : FileInfo) (fs : List FileInfo)
    → announced encrypted (f ∷ []) ++ announced encrypted fs ≡ announced encrypted (f ∷ fs)
announced-append encrypted f fs = by_test (encrypted && is_receive_only_changed f)
  where
    by_test :
        (b : Bool)
        → (if b then [] else prepare_file_info_for_index f ∷ []) ++ announced encrypted fs ≡ (
            if b
            then announced encrypted fs
            else prepare_file_info_for_index f ∷ announced encrypted fs)
    by_test true = refl
    by_test false = refl

-- The state after a loop that has finished.
abbrev Finished : Scan → List FileInfo → ScanEnd × Scan → Type 0
Finished s files r = (r.0 ≡ finished) × Reached s files r.1

look_on :
    (fi : FileInfo) (fs : List FileInfo) (s s' : Scan) (r : ScanEnd × Scan)
    → Looked fi s s'
    → Finished s' fs r
    → Finished s (fi ∷ fs) r
look_on fi fs s s' r looked (ended, h) = (
  ended,
  record {
    seen = fi ∷ h.seen;
    rest = h.rest;
    split = ap (λ (l : List FileInfo). fi ∷ l) h.split;
    infos =
        h.infos
        ∙ ap (λ (e : Bool). s'.batch.infos ++ announced e h.seen) looked.same
        ∙ ap (λ (l : List FileInfo). l ++ announced s.handler.folder_is_receive_encrypted h.seen)
            looked.infos
        ∙ append_assoc s.batch.infos _ _
        ∙ ap (λ (l : List FileInfo). s.batch.infos ++ l)
            (announced-append s.handler.folder_is_receive_encrypted fi h.seen);
    at = h.at ∙ ap (λ (n : ℕ). last_sequence n h.seen) looked.at;
    intact = h.intact;
    moves = λ _. inr (omega arith);
  },
)

scan-Finished :
    (wire_size : FileInfo → ℕ) (files : List FileInfo) (s : Scan)
    → IsFine s
    → Rising s.handler.local_prev_sequence files
    → Finished s files (scan wire_size files none s)
unfolding scan
scan-Finished wire_size [] s fine rising = (
  refl,
  record {
    seen = [];
    rest = [];
    split = refl;
    infos = sym (append-nil s.batch.infos);
    at = refl;
    intact = fine.intact;
    moves = λ _. inl refl;
  },
)
scan-Finished wire_size (fi ∷ fs) s fine (above, rising) =
    elim (scan_one-Round wire_size fi s fine above) [
      | inl (leaves, is_full) ↦
          rw (leaves, scan)
            (
              refl,
              record {
                seen = [];
                rest = fi ∷ fs;
                split = refl;
                infos = sym (append-nil s.batch.infos);
                at = refl;
                intact = fine.intact;
                moves = λ not_full. cc;
              },
            )
      | inr (s', goes, looked) ↦
          rw (goes, scan)
            (look_on fi fs s s' (scan wire_size fs none s') looked (
              scan-Finished wire_size fs s' looked.fine
                (subst (λ (n : ℕ). Rising n fs) (sym looked.at) rising)))
    ]

abbrev pub files_of : Option Message → List FileInfo
files_of none = []
files_of (some (Message.index folder files last)) = files
files_of (some (Message.index_update folder files prev last)) = files

-- The call has succeeded, has looked at the first files, at one at least if there are any, has sent
-- those to be announced, and the next call begins behind them.
pub record Sends (h : IndexHandler) (files : List FileInfo) (r : SendEnd × Sent) : Type 0 where
  pub seen : List FileInfo
  pub rest : List FileInfo
  pub split : files ≡ seen ++ rest
  pub moves : (files ≡ []) ⊎ (0 < length seen)
  pub ended : r.0 ≡ done
  pub sent : files_of r.1.0 ≡ announced h.folder_is_receive_encrypted seen
  pub at : r.1.1.local_prev_sequence ≡ last_sequence h.local_prev_sequence seen

nil_of_length : {A : Type 0} (xs : List A) → (length xs == 0) ≡ true → xs ≡ []
nil_of_length [] h = refl
nil_of_length (x ∷ xs) h = ground arith

files_of-message :
    (initial : Bool) (h : IndexHandler) (fs : List FileInfo)
    → files_of (some (message initial h fs)) ≡ fs
files_of-message true h fs = refl
files_of-message false h fs = refl

-- What the flush of a batch that has not failed does.
abbrev Flushed : Scan → SendEnd × Sent → Type 0
Flushed s r =
    (r.0 ≡ done)
    × (files_of r.1.0 ≡ s.batch.infos)
    × (r.1.1.local_prev_sequence ≡ s.handler.local_prev_sequence)

module _ (env : Surroundings) (runs : env.cancelled ≡ none)
    (sends : (m : Message) → env.send m ≡ none) where
  answered-Flushed :
      (initial : Bool) (s : Scan) (o : Option Text)
      → o ≡ none
      → Flushed s (
          flush_end (
            flushed
              (answered o
                (message initial s.handler s.batch.infos)
                (last_sequence 0 s.batch.infos)
                s.handler)
              s.batch))
  unfolding flushed
  answered-Flushed initial s none h = (refl, files_of-message initial s.handler s.batch.infos, refl)
  answered-Flushed initial s (some e) h = cc

  flush_after-Flushed :
      (initial : Bool) (s : Scan) (o : Option Text)
      → o ≡ none
      → Flushed s (flush_end (flush_after o (flush_fn initial env) s.batch (none, s.handler)))
  unfolding flush_after flush_fn
  flush_after-Flushed initial s (some e) h = cc
  flush_after-Flushed initial s none h =
      if_ind (λ (r : Option Text × FileInfoBatch × Sent). Flushed s (flush_end r))
        (length s.batch.infos == 0) _ _
        (λ empty. (refl, sym (nil_of_length s.batch.infos empty), refl))
        (λ _. rw runs (
          answered-Flushed initial s (env.send (message initial s.handler s.batch.infos))
            (sends (message initial s.handler s.batch.infos))))

  scanned-Sends :
      (h : IndexHandler) (initial : Bool) (files : List FileInfo) (r : ScanEnd × Scan)
      → Finished (begin h) files r
      → Sends h files (send_scanned initial env r)
  unfolding flush full
  scanned-Sends h initial files (finished, s) (_, reached) =
      let (ended, sent, at) = flush_after-Flushed initial s s.batch.error reached.intact in
      record {
        seen = reached.seen;
        rest = reached.rest;
        split = reached.split;
        moves = reached.moves refl;
        ended = ended;
        sent = sent ∙ reached.infos;
        at = at ∙ reached.at;
      }
  scanned-Sends h initial files (ScanEnd.failed e, s) (ended, _) = cc
  scanned-Sends h initial files (ScanEnd.panic, s) (ended, _) = cc

  -- Where nothing fails and the database lists files whose sequence numbers rise from where the handler
  -- is, a call looks at the first of them, at one at least if there are any, sends in one message
  -- those to be announced, and stands behind them.
  pub send_index_to-Sends :
      (files : List FileInfo) (h : IndexHandler)
      → Rising h.local_prev_sequence files
      → Sends h files (send_index_to env files none h)
  unfolding send_index_to
  send_index_to-Sends files h rising =
      scanned-Sends h (h.local_prev_sequence == 0) files (scan env.wire_size files none (begin h)) (
        scan-Finished env.wire_size files (begin h) (record { intact = refl; behind = omega arith })
          rising)
