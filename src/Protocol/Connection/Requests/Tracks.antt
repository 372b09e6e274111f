-- ===== src/Protocol/Connection/Requests/Tracks.antt =====
-- lib/protocol/protocol.go: what each request is to get, and how the channels follow it.
use syncthing_mem.Base.{
  ℕ, ◌+◌, ◌≤◌, ◌≡◌, ◌⊎◌, refl, sym, ap, ◌∙◌, inr, arith, Bool, true, false, Option, none, some,
  List, [], ◌∷◌, ◌==◌, ==→eq, if◌then◌else◌, if_ind,
}
use mathlib.Core.Path.{subst}
use syncthing_mem.Protocol.Connection.Requests.{
  Channel, Requests, member, remove_id, set_channel, register, Happens, requested, overtaken,
  unsent, responded, closing, emptying,
}

-- What is known of the request with an id: it is not there yet, waits, has its answer, or has been
-- refused.
pub data Answer (R : Type 0) : Type 0 where
  absent waiting refused : Answer R
  answered : R → Answer R

abbrev pub Distinct : List ℕ → Type 0
Distinct [] = Unit {0}
Distinct (n ∷ ns) = (member n ns ≡ false) × Distinct ns

member-remove :
    (n id : ℕ) (ns : List ℕ) → member n (remove_id id ns) ≡ (if n == id then false else member n ns)
member-remove n id [] = if_ind (λ b. false ≡ b) (n == id) _ _ (λ _. refl) (λ _. refl)
member-remove n id (m ∷ ms) = ground (arith, member-remove n id ms)

Distinct-remove : (id : ℕ) (ns : List ℕ) → Distinct ns → Distinct (remove_id id ns)
Distinct-remove id [] d = tt
Distinct-remove id (m ∷ ms) (h, d) =
    if_ind Distinct (id == m) _ _ (λ _. Distinct-remove id ms d)
      (λ _. (ground (arith, member-remove m id ms), Distinct-remove id ms d))

pub remove-first : (id : ℕ) (ns : List ℕ) → member id ns ≡ false → remove_id id ns ≡ ns
remove-first id [] h = refl
remove-first id (m ∷ ms) h = ground (arith, remove-first id ms)

-- The next id, whether the connection is closed, and the requests that could not be sent.
abbrev pub Kept : Type 0
Kept = ℕ × Bool × (ℕ → Bool)

module _ {R : Type 0} where
  abbrev pub respond : R → Answer R → Answer R
  respond r waiting = answered r
  respond r x = x

  abbrev pub refuse : Answer R → Answer R
  refuse waiting = refused
  refuse x = x

  abbrev pub change : ℕ → (Answer R → Answer R) → (ℕ → Answer R) → ℕ → Answer R
  change id f answers n = if n == id then f (answers n) else answers n

  abbrev pub kept : Requests R → Kept
  kept s = (s.next_id, s.closed, s.gave_up)

  -- What is to come of it: a request that is registered waits; a response answers the request with
  -- its id if that waits, and emptying the map refuses all that wait. On a closed connection no
  -- request begins, and a request can give up.
  abbrev pub expect : Happens R → Kept × (ℕ → Answer R) → Kept × (ℕ → Answer R)
  expect requested ((next, shut, up), answers) =
      if shut
      then ((next, shut, up), answers)
      else ((next + 1, shut, up), change next (λ _. waiting) answers)
  expect overtaken ((next, shut, up), answers) =
      ((next + 1, shut, up), change next (λ _. waiting) answers)
  expect (unsent id) ((next, shut, up), answers) =
      ((next, shut, if shut then (λ n. if n == id then true else up n) else up), answers)
  expect (responded id r) (k, answers) = (k, change id (respond r) answers)
  expect closing ((next, shut, up), answers) = ((next, true, up), answers)
  expect emptying (k, answers) = (k, λ n. refuse (answers n))

  abbrev pub answers_after : List (Happens R) → Kept × (ℕ → Answer R) → Kept × (ℕ → Answer R)
  answers_after [] e = e
  answers_after (h ∷ hs) e = answers_after hs (expect h e)

  abbrev pub at_start : Kept × (ℕ → Answer R)
  at_start = ((0, false, λ n. false), λ n. absent)

  -- What Request sees of its answer.
  abbrev pub seen : Answer R → Option (Option R)
  seen absent = none
  seen waiting = none
  seen refused = some none
  seen (answered r) = some (some r)

  -- What Request is to return: ErrClosed if it gave up, or else its answer once it has one.
  abbrev pub outcome : Kept × (ℕ → Answer R) → ℕ → Option (Option R)
  outcome ((next, shut, up), answers) id = if up id then some none else seen (answers id)

  abbrev pub given : Option R → Answer R
  given none = refused
  given (some r) = answered r

  -- A request that waits has an open channel without a result; another is absent or has been closed.
  abbrev pub Agrees : Bool → Option R → Bool → Answer R → Type 0
  Agrees true o c x = (o ≡ none) × (c ≡ false) × (x ≡ waiting)
  Agrees false o c x = ((o ≡ none) × (c ≡ false) × (x ≡ absent)) ⊎ ((c ≡ true) × (x ≡ given o))

  pub record Tracks (s : Requests R) (answers : ℕ → Answer R) : Type 0 where
    pub agrees :
        (n : ℕ)
        → Agrees (member n s.awaiting) (s.channels n).result (s.channels n).closed (answers n)
    pub unused : (n : ℕ) → s.next_id ≤ n → answers n ≡ absent
    pub distinct : Distinct s.awaiting

  no_member :
      (b : Bool) (o : Option R) (c : Bool) (x : Answer R) → Agrees b o c x → x ≡ absent → b ≡ false
  no_member true o c x (_, _, e) h = absurd (cc)
  no_member false o c x a h = refl

  -- What happens is done, and tracked again.
  unfoldable pub Done : Option (Requests R) → Kept → (ℕ → Answer R) → Type 0
  Done o k answers = (s : Requests R) × (o ≡ some s) × (kept s ≡ k) × Tracks s answers

  -- The state of one channel is set.
  Agrees-set :
      (b m m' : Bool) (ch ch' : Channel R) (x x' : Answer R)
      → (b ≡ true → Agrees m' ch'.result ch'.closed x')
      → (b ≡ false → Agrees m ch.result ch.closed x)
      → Agrees
          (if b then m' else m)
          (if b then ch' else ch).result
          (if b then ch' else ch).closed
          (if b then x' else x)
  Agrees-set true m m' ch ch' x x' h k = h refl
  Agrees-set false m m' ch ch' x x' h k = k refl

  pub register-Done :
      (s : Requests R) (answers : ℕ → Answer R)
      → Tracks s answers
      → Done
          (register s)
          (s.next_id + 1, s.closed, s.gave_up)
          (change s.next_id (λ _. waiting) answers)
  unfolding register Done
  register-Done s answers t =
      let id = s.next_id in
      let new = no_member (member id s.awaiting) _ _ _ (t.agrees id) (t.unused id (omega arith)) in
      rw new (
        set_channel id (record { result = none; closed = false })
            (record s { next_id = id + 1; awaiting = id ∷ s.awaiting }),
        refl,
        refl,
        record {
          agrees = λ n.
              Agrees-set (n == id) (member n s.awaiting) true (s.channels n) _ (answers n) waiting
                (λ _. (refl, refl, refl)) (λ _. t.agrees n);
          unused = λ n h.
              if_ind (λ x. x ≡ absent) (n == id) _ _ (λ e. absurd (ground arith))
                (λ _. t.unused n (omega arith));
          distinct = (new, t.distinct);
        },
      )

  -- A request that waits is answered or refused: its channel has the result and is closed.
  pub close-Tracks :
      (s : Requests R) (answers : ℕ → Answer R) (id : ℕ) (o : Option R) (f : Answer R → Answer R)
      → Tracks s answers
      → member id s.awaiting ≡ true
      → f waiting ≡ given o
      → Tracks
          (set_channel id
            (record { result = o; closed = true })
            (record s { awaiting = remove_id id s.awaiting }))
          (change id f answers)
  close-Tracks s answers id o f t here e =
      let waits = waiting_of (member id s.awaiting) _ _ _ here (t.agrees id) in
      record {
        agrees = λ n.
            subst
              (λ m.
                Agrees m
                  (if n == id then record { result = o; closed = true } else s.channels n).result
                  (if n == id then record { result = o; closed = true } else s.channels n).closed
                  (change id f answers n))
              (sym (member-remove n id s.awaiting))
              (Agrees-set (n == id) (member n s.awaiting) false (s.channels n) _ (answers n)
                (f (answers n))
                (λ same.
                  let n≡id = ==→eq n id same in
                  inr (refl, ap (λ k. f (answers k)) n≡id ∙ ap f waits ∙ e))
                (λ _. t.agrees n));
        unused = λ n h.
            if_ind (λ x. x ≡ absent) (n == id) _ _
              (λ same.
                let used = ap answers (==→eq n id same) ∙ waits in
                let gone = t.unused n h in absurd (cc))
              (λ _. t.unused n h);
        distinct = Distinct-remove id s.awaiting t.distinct;
      }
    where
      waiting_of :
          (b : Bool) (o : Option R) (c : Bool) (x : Answer R)
          → b ≡ true
          → Agrees b o c x
          → x ≡ waiting
      waiting_of true o c x h (_, _, e) = e
      waiting_of false o c x h a = absurd (cc)
