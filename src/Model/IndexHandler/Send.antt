-- ===== src/Model/IndexHandler/Send.antt =====
-- lib/model/indexhandler.go: what `sendIndexTo` sends.
use mathlib.Core.Path.{subst}
use syncthing_mem.Base.{
  ℕ, ◌+◌, ◌≤◌, ◌<◌, ◌≡◌, refl, Bool, true, false, not, ◌&&◌, ◌||◌, Option, none, some, List, [],
  ◌∷◌, ◌++◌, length, ltb, leb, ltb→ge, ◌==◌, if_ind, arith, ==→eq, Text,
}
use syncthing_mem.Protocol.FileInfo.{FileInfo}
use syncthing_mem.Model.Batch.{
  FileInfoBatch, append_file, append_after, full, flush, flush_after, flushed,
}
use syncthing_mem.Model.IndexHandler.{
  IndexHandler, Message, index, index_update, Surroundings, prepare_file_info_for_index,
  is_receive_only_changed, Scan, Verdict, leave, misbehaved, panicked, next, taken, scan_one,
  ScanEnd, finished, failed, database_misbehaved, end_of, scan, last_sequence, message, Sent,
  answered, flush_fn, SendEnd, flush_end, send_scanned, begin, send_index_to,
}

-- The sequence numbers rise, from above the given one.
abbrev pub Rising : ℕ → List FileInfo → Type 0
Rising before [] = Unit
Rising before (f ∷ fs) = (before < f.sequence) × Rising f.sequence fs

pub Rising-append :
    (before : ℕ) (fs : List FileInfo) (f : FileInfo)
    → Rising before fs
    → last_sequence before fs < f.sequence
    → Rising before (fs ++ f ∷ [])
Rising-append before [] f h above = (above, tt)
Rising-append before (x ∷ xs) f (first, h) above = (first, Rising-append x.sequence xs f h above)

last_sequence-append :
    (before : ℕ) (fs : List FileInfo) (f : FileInfo)
    → last_sequence before (fs ++ f ∷ []) ≡ f.sequence
last_sequence-append before [] f = refl
last_sequence-append before (x ∷ xs) f = last_sequence-append x.sequence xs f

-- What the loop keeps: the batch rises from where the handler was, and does not pass where it is.
pub record IsKept (h : IndexHandler) (s : Scan) : Type 0 where
  pub rising : Rising h.local_prev_sequence s.batch.infos
  pub reached : last_sequence h.local_prev_sequence s.batch.infos ≤ s.handler.local_prev_sequence
  pub sent : s.handler.sent_prev_sequence ≡ h.sent_prev_sequence
  pub forward : h.local_prev_sequence ≤ s.handler.local_prev_sequence
  pub intact : s.batch.error ≡ none

abbrev Kept : IndexHandler → Verdict → Type 0
Kept h leave = Unit
Kept h misbehaved = Unit
Kept h panicked = ⊥
Kept h (next s) = IsKept h s

module _ (h : IndexHandler) (wire_size : FileInfo → ℕ) (fi : FileInfo) (s : Scan)
    (k : IsKept h s) where
  taken-Kept :
      (o : Option Text)
      → s.batch.error ≡ o
      → (s.handler.local_prev_sequence < fi.sequence)
      → (size : ℕ)
      → Kept h (taken fi s (append_after o size (prepare_file_info_for_index fi) s.batch))
  unfolding taken append_after prepare_file_info_for_index
  taken-Kept none intact above size = record {
    rising =
        Rising-append h.local_prev_sequence s.batch.infos (prepare_file_info_for_index fi) k.rising
          (omega (arith, k.reached, above));
    reached = omega (
      arith,
      last_sequence-append h.local_prev_sequence s.batch.infos (prepare_file_info_for_index fi),
    );
    sent = k.sent;
    forward = omega (arith, k.forward, above);
    intact = intact;
  }
  taken-Kept (some e) broken above size = let clear = k.intact in cc

  scan_one-Kept : Kept h (scan_one wire_size fi s)
  unfolding scan_one append_file
  scan_one-Kept =
      if_ind (Kept h) (full s.batch && (not fi.deleted || s.previous_was_delete)) _ _ (λ _. tt)
        (λ _.
          if_ind (Kept h) (ltb fi.sequence (s.handler.local_prev_sequence + 1)) _ _ (λ _. tt)
            (λ high.
              let above : s.handler.local_prev_sequence < fi.sequence =
                omega (arith, ltb→ge _ _ high) in
              if_ind (Kept h) (ltb 0 s.last && leb fi.sequence s.last) _ _ (λ _. tt)
                (λ _.
                  if_ind (Kept h)
                    (s.handler.folder_is_receive_encrypted && is_receive_only_changed fi) _ _
                    (λ _. record {
                      rising = k.rising;
                      reached = omega (arith, k.reached, above);
                      sent = k.sent;
                      forward = omega (arith, k.forward, above);
                      intact = k.intact;
                    })
                    (λ _.
                      taken-Kept s.batch.error refl above
                        (wire_size (prepare_file_info_for_index fi))))))

abbrev KeptEnd : IndexHandler → ScanEnd × Scan → Type 0
KeptEnd h (finished, s) = IsKept h s
KeptEnd h (failed e, s) = IsKept h s
KeptEnd h (ScanEnd.panic, s) = ⊥

end-KeptEnd : (h : IndexHandler) (o : Option Text) (s : Scan) → IsKept h s → KeptEnd h (end_of o, s)
end-KeptEnd h none s k = k
end-KeptEnd h (some e) s k = k

scan-KeptEnd :
    (h : IndexHandler) (wire_size : FileInfo → ℕ) (files : List FileInfo) (e : Option Text)
    (s : Scan)
    → IsKept h s
    → KeptEnd h (scan wire_size files e s)
unfolding scan
scan-KeptEnd h wire_size [] e s k = end-KeptEnd h e s k
scan-KeptEnd h wire_size (fi ∷ fs) e s k =
    by_verdict (scan_one wire_size fi s) (scan_one-Kept h wire_size fi s k)
      (λ s' k'. scan-KeptEnd h wire_size fs e s' k')
  where
    by_verdict :
        (v : Verdict)
        → Kept h v
        → ((s' : Scan) → IsKept h s' → KeptEnd h (scan wire_size fs e s'))
        → KeptEnd h (elim v [
          | leave ↦ (finished, s)
          | misbehaved ↦ (failed database_misbehaved, s)
          | panicked ↦ (ScanEnd.panic, s)
          | next s' ↦ scan wire_size fs e s'
        ])
    by_verdict leave _ later = k
    by_verdict misbehaved _ later = k
    by_verdict panicked bad later = bad
    by_verdict (next s') k' later = later s' k'

-- A message that a receiver which has what the handler has sent finds nothing wrong with: a first
-- index, or an update whose files come after all that were looked at before.
abbrev pub IsLinked : IndexHandler → Message → IndexHandler → Type 0
IsLinked h (index folder fs last) h' =
    (h.local_prev_sequence ≡ 0)
    × Rising 0 fs
    × (last ≡ last_sequence 0 fs)
    × (h'.sent_prev_sequence ≡ last)
    × (0 < length fs)
IsLinked h (index_update folder fs prev last) h' =
    (prev ≡ h.sent_prev_sequence)
    × Rising h.local_prev_sequence fs
    × (last ≡ last_sequence 0 fs)
    × (h'.sent_prev_sequence ≡ last)
    × (0 < length fs)

abbrev pub SendsWell : IndexHandler → SendEnd × Sent → Type 0
SendsWell h (SendEnd.panic, sent) = ⊥
SendsWell h (_, (none, h')) =
    (h'.sent_prev_sequence ≡ h.sent_prev_sequence)
    × (h.local_prev_sequence ≤ h'.local_prev_sequence)
SendsWell h (_, (some m, h')) = IsLinked h m h' × (h'.sent_prev_sequence ≤ h'.local_prev_sequence)

last_sequence_any :
    (a b : ℕ) (fs : List FileInfo) → 0 < length fs → last_sequence a fs ≡ last_sequence b fs
last_sequence_any a b [] filled = omega arith
last_sequence_any a b (f ∷ fs) filled = refl

module _ (h : IndexHandler) (s : Scan) (k : IsKept h s) where
  linked :
      (initial : Bool)
      → (initial ≡ true → h.local_prev_sequence ≡ 0)
      → 0 < length s.batch.infos
      → IsLinked h
          (message initial s.handler s.batch.infos)
          (record (s.handler) { sent_prev_sequence = last_sequence 0 s.batch.infos })
  linked true first filled = (
    first refl,
    subst (λ (n : ℕ). Rising n s.batch.infos) (first refl) k.rising,
    refl,
    refl,
    filled,
  )
  linked false first filled = (k.sent, k.rising, refl, refl, filled)

  answered-SendsWell :
      (initial : Bool)
      → (initial ≡ true → h.local_prev_sequence ≡ 0)
      → 0 < length s.batch.infos
      → (o : Option Text)
      → SendsWell h (
          flush_end (
            flushed
              (answered o
                (message initial s.handler s.batch.infos)
                (last_sequence 0 s.batch.infos)
                s.handler)
              s.batch))
  unfolding flushed
  answered-SendsWell initial first filled (some e) = (k.sent, k.forward)
  answered-SendsWell initial first filled none = (
    linked initial first filled,
    omega (arith, k.reached, last_sequence_any 0 h.local_prev_sequence s.batch.infos filled),
  )

  flush_fn-SendsWell :
      (initial : Bool) (env : Surroundings) (o : Option Text)
      → env.cancelled ≡ o
      → (initial ≡ true → h.local_prev_sequence ≡ 0)
      → 0 < length s.batch.infos
      → SendsWell h
          (flush_end (flushed (flush_fn initial env s.batch.infos (none, s.handler)) s.batch))
  unfolding flush_fn flushed
  flush_fn-SendsWell initial env none goes first filled =
      rw goes (
        answered-SendsWell initial first filled
          (env.send (message initial s.handler s.batch.infos)))
  flush_fn-SendsWell initial env (some e) stops first filled = rw stops (k.sent, k.forward)

  flush_after-SendsWell :
      (initial : Bool) (env : Surroundings) (o : Option Text)
      → s.batch.error ≡ o
      → (initial ≡ true → h.local_prev_sequence ≡ 0)
      → SendsWell h (flush_end (flush_after o (flush_fn initial env) s.batch (none, s.handler)))
  unfolding flush_after
  flush_after-SendsWell initial env (some e) broken first = let clear = k.intact in cc
  flush_after-SendsWell initial env none intact first =
      if_ind (λ (r : Option Text × FileInfoBatch × Sent). SendsWell h (flush_end r))
        (length s.batch.infos == 0) _ _ (λ _. (k.sent, k.forward))
        (λ filled. flush_fn-SendsWell initial env env.cancelled refl first (ground (arith, filled)))

  flush-SendsWell :
      (initial : Bool) (env : Surroundings)
      → (initial ≡ true → h.local_prev_sequence ≡ 0)
      → SendsWell h (flush_end (flush (flush_fn initial env) s.batch (none, s.handler)))
  unfolding flush
  flush-SendsWell initial env first = flush_after-SendsWell initial env s.batch.error refl first

send_scanned-SendsWell :
    (h : IndexHandler) (initial : Bool) (env : Surroundings) (r : ScanEnd × Scan)
    → (initial ≡ true → h.local_prev_sequence ≡ 0)
    → KeptEnd h r
    → SendsWell h (send_scanned initial env r)
send_scanned-SendsWell h initial env (finished, s) first k = flush-SendsWell h s k initial env first
send_scanned-SendsWell h initial env (failed e, s) first k = (k.sent, k.forward)
send_scanned-SendsWell h initial env (ScanEnd.panic, s) first k = absurd k

-- Whatever files the database lists.
pub send_index_to-SendsWell :
    (env : Surroundings) (files : List FileInfo) (e : Option Text) (h : IndexHandler)
    → SendsWell h (send_index_to env files e h)
unfolding send_index_to
send_index_to-SendsWell env files e h =
    send_scanned-SendsWell h (h.local_prev_sequence == 0) env (scan env.wire_size files e (begin h))
      (λ zero. ==→eq h.local_prev_sequence 0 zero)
      (scan-KeptEnd h env.wire_size files e (begin h) (record {
        rising = tt;
        reached = omega arith;
        sent = refl;
        forward = omega arith;
        intact = refl;
      }))
