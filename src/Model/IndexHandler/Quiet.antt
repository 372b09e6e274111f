-- ===== src/Model/IndexHandler/Quiet.antt =====
-- lib/model/indexhandler.go: a message on its way from `sendIndexTo` to `receive`.
use mathlib.Core.Path.{subst}
use syncthing_mem.Base.{
  ℕ, ◌≤◌, ◌<◌, ◌≡◌, refl, ap, sym, ◌∙◌, inl, inr, ◌⊎◌, Bool, true, false, not, ◌&&◌, Option, none,
  some, List, [], ◌∷◌, length, ltb, ◌==◌, if◌then◌else◌, if_ind, arith, Text,
}
use syncthing_mem.Protocol.FileInfo.{FileInfo}
use syncthing_mem.Model.Downloads.{update_device}
use syncthing_mem.Model.IndexHandler.{IndexHandler, Message, index, index_update, last_sequence}
use syncthing_mem.Model.IndexHandler.Receive.{
  IndexDb, Anomaly, before_prev, after_last, non_increasing, unexpected_sequence, unexpected_last,
  unexpected_after, Receiver, make_forget_update, anomaly, not_after, check_files, check_index,
  Received, check_after, stored, checked, dropped, receive, receive_message,
}
use syncthing_mem.Model.IndexHandler.Send.{Rising, IsLinked}

-- What the receiving end relies on of its database: without files the sequence number is 0, and the
-- files of an update that rise above the number raise it to that of the last one.
pub record IsLawful {S : Type 0} (db : IndexDb S) : Type 0 where
  pub drop_sequence :
      (s d : S) (n : ℕ) → db.drop_all_files s ≡ some d → db.device_sequence d ≡ some n → n ≡ 0
  pub update_sequence :
      (fs : List FileInfo) (s d : S) (m n : ℕ)
      → db.device_sequence s ≡ some m
      → Rising m fs
      → db.update fs s ≡ some d
      → db.device_sequence d ≡ some n
      → n ≡ last_sequence m fs

Rising-le : (a : ℕ) (fs : List FileInfo) → Rising a fs → a ≤ last_sequence a fs
Rising-le a [] h = omega arith
Rising-le a (f ∷ fs) (above, h) = omega (arith, above, Rising-le f.sequence fs h)

lower : (a b : ℕ) (fs : List FileInfo) → a ≤ b → Rising b fs → Rising a fs
lower a b [] h r = tt
lower a b (f ∷ fs) h (above, r) = (omega (arith, h, above), r)

some_inj : {A : Type 0} {a b : A} → some a ≡ some b → a ≡ b
some_inj h = cc

-- No sequence number before the first is above it.
abbrev Before : Option ℕ → ℕ → Type 0
Before none lo = Unit
Before (some b) lo = b ≤ lo

not_after-Before : (o : Option ℕ) (lo n : ℕ) → Before o lo → lo < n → not_after o n ≡ false
not_after-Before none lo n h above = refl
not_after-Before (some b) lo n h above = ground (arith, h, above)

no_anomaly : (b : Bool) (a : Anomaly) → b ≡ false → anomaly b a ≡ []
no_anomaly false a h = refl
no_anomaly true a h = cc

check_files-nil :
    (prev last lo : ℕ) (before : Option ℕ) (fs : List FileInfo)
    → prev ≤ lo
    → Before before lo
    → Rising lo fs
    → last_sequence lo fs ≤ last
    → check_files prev last before fs ≡ []
unfolding check_files
check_files-nil prev last lo before [] p b h l = refl
check_files-nil prev last lo before (f ∷ fs) p b (above, h) l =
    let top = Rising-le f.sequence fs h in
    rw (
      no_anomaly (ltb f.sequence prev) before_prev (ground (arith, p, above)),
      no_anomaly (ltb 0 last && ltb last f.sequence) after_last (ground (arith, top, l)),
      no_anomaly (not_after before f.sequence) non_increasing
          (not_after-Before before lo f.sequence b above),
      check_files-nil prev last f.sequence (some f.sequence) fs (omega (arith, p, above))
          (omega arith) h l,
    )

same_last : (a b : ℕ) (fs : List FileInfo) → 0 < length fs → last_sequence a fs ≡ last_sequence b fs
same_last a b [] filled = omega arith
same_last a b (f ∷ fs) filled = refl

as_expected : (prev exp : ℕ) → (prev ≡ 0) ⊎ (prev ≡ exp) → (ltb 0 prev && not (prev == exp)) ≡ false
as_expected prev exp (inl zero) = ground (arith, zero)
as_expected prev exp (inr same) = ground (arith, same)

check_index-nil :
    (exp prev lo : ℕ) (fs : List FileInfo)
    → (prev ≡ 0) ⊎ (prev ≡ exp)
    → prev ≤ lo
    → Rising lo fs
    → 0 < length fs
    → check_index exp prev (last_sequence 0 fs) fs ≡ []
unfolding check_index
check_index-nil exp prev lo fs same p h filled = rw (
  no_anomaly (ltb 0 prev && not (prev == exp)) unexpected_sequence (as_expected prev exp same),
  check_files-nil prev (last_sequence 0 fs) lo none fs p tt h
      (omega (arith, same_last 0 lo fs filled)),
  no_anomaly
      (ltb 0 (last_sequence 0 fs)
        && ltb 0 (length fs)
        && not (last_sequence 0 fs == last_sequence 0 fs))
      unexpected_last (ground arith),
)

module _ {S : Type 0} (db : IndexDb S) (lawful : IsLawful db) where
  -- Nothing was found, and without an error the database has the sequence number.
  abbrev pub Quiet : ℕ → Received db → Type 0
  Quiet sequence ((e, found), r) =
      (found ≡ []) × (e ≡ none → db.device_sequence r.db ≡ some sequence)

  module _ (fs : List FileInfo) (prev lo : ℕ) (low : prev ≤ lo) (rising : Rising lo fs)
      (filled : 0 < length fs) where
    abbrev last : ℕ
    last = last_sequence 0 fs

    check_after-Quiet :
        (found : List Anomaly) (r : Receiver S) (o : Option ℕ)
        → found ≡ []
        → db.device_sequence r.db ≡ o
        → ((n : ℕ) → o ≡ some n → n ≡ last)
        → Quiet last (check_after db fs last found r o)
    unfolding check_after
    check_after-Quiet found r none quiet is same = (quiet, λ h. cc)
    check_after-Quiet found r (some n) quiet is same =
        let e = same n refl in
        (
          rw (
            quiet,
            no_anomaly (ltb 0 last && ltb 0 (length fs) && not (n == last)) unexpected_after
                (ground (arith, e)),
          ),
          λ _. is ∙ ap (λ (k : ℕ). some k) e,
        )

    stored-Quiet :
        (exp : ℕ) (found : List Anomaly) (r : Receiver S) (o : Option S)
        → found ≡ []
        → db.device_sequence r.db ≡ some exp
        → Rising exp fs
        → db.update fs r.db ≡ o
        → Quiet last (stored db fs last found r o)
    unfolding stored
    stored-Quiet exp found r none quiet has above is = (quiet, λ h. cc)
    stored-Quiet exp found r (some d) quiet has above is =
        check_after-Quiet found (record r { db = d }) (db.device_sequence d) quiet refl
          (λ n h. lawful.update_sequence fs r.db d exp n has above is h ∙ same_last exp 0 fs filled)

    checked-Quiet :
        (r : Receiver S) (o : Option ℕ)
        → db.device_sequence r.db ≡ o
        → ((exp : ℕ) → o ≡ some exp → ((prev ≡ 0) ⊎ (prev ≡ exp)) × (exp ≤ lo))
        → Quiet last (checked db fs prev last r o)
    unfolding checked
    checked-Quiet r none is expected = (refl, λ h. cc)
    checked-Quiet r (some exp) is expected =
        let (same, below) = expected exp refl in
        stored-Quiet exp (check_index exp prev last fs) r (db.update fs r.db)
          (check_index-nil exp prev lo fs same low rising filled) is (lower exp lo fs below rising)
          refl

  receive-Quiet :
      (folder : Text) (fs : List FileInfo) (update : Bool) (prev lo : ℕ) (r : Receiver S)
      → prev ≤ lo
      → Rising lo fs
      → 0 < length fs
      → ((d : S) (exp : ℕ)
          → (if update then some r.db else db.drop_all_files r.db) ≡ some d
          → db.device_sequence d ≡ some exp
          → ((prev ≡ 0) ⊎ (prev ≡ exp)) × (exp ≤ lo))
      → Quiet (last_sequence 0 fs) (receive db folder fs update prev (last_sequence 0 fs) r)
  unfolding receive dropped
  receive-Quiet folder fs update prev lo r low rising filled expected =
      if_ind (Quiet (last_sequence 0 fs)) r.paused _ _ (λ _. (refl, λ h. cc))
        (λ _. by_drop (if update then some r.db else db.drop_all_files r.db) expected)
    where
      r' : Receiver S
      r' = record r { downloads = update_device folder (make_forget_update fs) r.downloads }

      by_drop :
          (o : Option S)
          → ((d : S) (exp : ℕ)
              → o ≡ some d
              → db.device_sequence d ≡ some exp
              → ((prev ≡ 0) ⊎ (prev ≡ exp)) × (exp ≤ lo))
          → Quiet (last_sequence 0 fs) (dropped db fs prev (last_sequence 0 fs) r' o)
      by_drop none e = (refl, λ h. cc)
      by_drop (some d) e =
          checked-Quiet fs prev lo low rising filled (record r' { db = d }) (db.device_sequence d)
            refl (λ exp is. e d exp refl is)

  pub message-Quiet :
      (h h' : IndexHandler) (m : Message) (r : Receiver S)
      → db.device_sequence r.db ≡ some h.sent_prev_sequence
      → h.sent_prev_sequence ≤ h.local_prev_sequence
      → IsLinked h m h'
      → Quiet h'.sent_prev_sequence (receive_message db m r)
  unfolding receive_message
  message-Quiet h h' (index folder fs last) r has below (first, rising, is, sent, filled) =
      subst (λ (n : ℕ). Quiet n (receive db folder fs false 0 last r)) (sym sent)
        (subst (λ (n : ℕ). Quiet n (receive db folder fs false 0 n r)) (sym is)
          (receive-Quiet folder fs false 0 0 r (omega arith) rising filled
            (λ d exp dropped_to has_then.
              (inl refl, omega (arith, lawful.drop_sequence r.db d exp dropped_to has_then)))))
  message-Quiet h h' (index_update folder fs prev last) r has below
        (prev_is, rising, is, sent, filled) =
      subst (λ (n : ℕ). Quiet n (receive db folder fs true prev last r)) (sym sent)
        (subst (λ (n : ℕ). Quiet n (receive db folder fs true prev n r)) (sym is)
          (receive-Quiet folder fs true prev h.local_prev_sequence r (omega (arith, prev_is, below))
            rising filled
            (λ d exp same has_then.
              let e = some_inj (sym has_then ∙ ap_db d same ∙ has) in
              (inr (prev_is ∙ sym e), omega (arith, e, below)))))
    where
      ap_db : (d : S) → some r.db ≡ some d → db.device_sequence d ≡ db.device_sequence r.db
      ap_db d same = ap db.device_sequence (sym (some_inj same))
