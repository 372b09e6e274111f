-- ===== src/Model/IndexHandler/Exchange.antt =====
-- lib/model/indexhandler.go: the rounds of `Serve` on one end, with `receive` on the other.
use syncthing_mem.Base.{
  ℕ, ◌≤◌, ◌≡◌, refl, Bool, true, false, Option, none, some, List, [], ◌∷◌, ◌++◌, if◌then◌else◌,
  Bool-cases, inl, inr, arith, Text,
}
use syncthing_mem.Protocol.FileInfo.{FileInfo}
use syncthing_mem.Model.IndexHandler.{
  IndexHandler, Message, Surroundings, Sent, SendEnd, done, error, send_index_to,
}
use syncthing_mem.Model.IndexHandler.Receive.{
  IndexDb, Anomaly, Receiver, Received, ReceiveError, receive_message,
}
use syncthing_mem.Model.IndexHandler.Send.{SendsWell, send_index_to-SendsWell}
use syncthing_mem.Model.IndexHandler.Sequences.{Failures, sequence_db, sequence_db-IsLawful}
use syncthing_mem.Model.IndexHandler.Quiet.{IsLawful, Quiet, message-Quiet}

-- What one call of `sendIndexTo` meets: its surroundings, the files that the database lists, and the
-- error at their end.
abbrev pub Call : Type 0
Call = Surroundings × (List FileInfo × Option Text)

abbrev pub goes_on : SendEnd → Option ReceiveError → Bool
goes_on done none = true
goes_on _ _ = false

module _ {S : Type 0} (db : IndexDb S) where
  unfoldable pub deliver : Option Message → Receiver S → Received db
  deliver none r = ((none, []), r)
  deliver (some m) r = receive_message db m r

  -- The loop of `Serve`, until an error on either end, with the anomalies that the other end finds.
  unfoldable pub serve : List Call → IndexHandler → Receiver S → List Anomaly
  serve [] h r = []
  serve ((env, (files, e)) ∷ calls) h r =
      let (end, (m, h')) = send_index_to env files e h in
      let ((err, found), r') = deliver m r in
      let rest = serve calls h' r' in found ++ (if goes_on end err then rest else [])

module _ {S : Type 0} (db : IndexDb S) (lawful : IsLawful db) where
  -- What a call and its delivery leave.
  abbrev After : SendEnd × Sent → Receiver S → Type 0
  After (end, (m, h')) r =
      Quiet db lawful h'.sent_prev_sequence (deliver db m r)
      × (h'.sent_prev_sequence ≤ h'.local_prev_sequence)

  deliver-After :
      (h : IndexHandler) (sent : SendEnd × Sent) (r : Receiver S)
      → db.device_sequence r.db ≡ some h.sent_prev_sequence
      → h.sent_prev_sequence ≤ h.local_prev_sequence
      → SendsWell h sent
      → After sent r
  unfolding deliver
  deliver-After h (SendEnd.panic, sent) r has below bad = absurd bad
  deliver-After h (done, (none, h')) r has below (same, forward) =
      ((refl, λ _. rw same has), omega (arith, same, below, forward))
  deliver-After h (error e, (none, h')) r has below (same, forward) =
      ((refl, λ _. rw same has), omega (arith, same, below, forward))
  deliver-After h (done, (some m, h')) r has below (linked, kept) =
      (message-Quiet db lawful h h' m r has below linked, kept)
  deliver-After h (error e, (some m, h')) r has below (linked, kept) =
      (message-Quiet db lawful h h' m r has below linked, kept)

  goes_on-none : (end : SendEnd) (err : Option ReceiveError) → goes_on end err ≡ true → err ≡ none
  goes_on-none done none h = refl
  goes_on-none done (some e) h = cc
  goes_on-none (error x) err h = cc
  goes_on-none SendEnd.panic err h = cc

  -- Over a lawful database nothing is noticed until one of the two stops with an error.
  serve-quiet :
      (calls : List Call) (h : IndexHandler) (r : Receiver S)
      → db.device_sequence r.db ≡ some h.sent_prev_sequence
      → h.sent_prev_sequence ≤ h.local_prev_sequence
      → serve db calls h r ≡ []
  unfolding serve
  serve-quiet [] h r has below = refl
  serve-quiet ((env, (files, e)) ∷ calls) h r has below =
      let sent = send_index_to env files e h in
      let ((quiet, then_has), still_below) =
        deliver-After h sent r has below (send_index_to-SendsWell env files e h) in
      let got = deliver db sent.1.0 r in
      rw quiet (elim (Bool-cases (goes_on sent.0 got.0.0)) [
        | inr stops ↦ rw stops
        | inl goes ↦ rw goes (
            serve-quiet calls sent.1.1 got.1 (then_has (goes_on-none sent.0 got.0.0 goes))
              still_below)
      ])

-- Where the number that the sender has sent is not above that which it has looked at, a device that
-- has the number sent finds no anomaly in all that the other sends, whatever files the other's
-- database lists and wherever the device's own fails, until one of them stops with an error.
pub serve-nil :
    (fails : Failures) (calls : List Call) (h : IndexHandler) (r : Receiver (Option ℕ))
    → (sequence_db fails).device_sequence r.db ≡ some h.sent_prev_sequence
    → h.sent_prev_sequence ≤ h.local_prev_sequence
    → serve (sequence_db fails) calls h r ≡ []
serve-nil fails calls h r has below =
    serve-quiet (sequence_db fails) (sequence_db-IsLawful fails) calls h r has below
