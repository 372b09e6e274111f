-- ===== src/Protocol/Vector/Compare.antt =====
-- lib/protocol/vector.go, `Compare`, `Equal`, `LesserEqual`, `GreaterEqual` and `Concurrent`.
use syncthing_mem.Base.{
  ℕ, ◌≡◌, refl, ◌↔◌, Bool, true, false, [], ◌∷◌, arith, leb, Bool-cases, inl, inr,
}
use syncthing_mem.Protocol.Vector.{
  Counter, Vector, counter, Ordering, equal, greater, lesser, concurrent_lesser, concurrent_greater,
  Verdict, return, continue, note_greater, note_lesser, judge, no_counter, settle, compare_loop,
  compare, is_equal, lesser_equal, is_concurrent, IsSorted,
}
use syncthing_mem.Protocol.Vector.Order.{Le, More, First, Meets, compare_loop_sound}

abbrev pub Same : (ℕ → ℕ) → (ℕ → ℕ) → Type 0
Same f g = (id : ℕ) → f id ≡ g id

-- What a result of `Compare` says of the two vectors, read as functions from identifiers.
abbrev pub Means : Ordering → (ℕ → ℕ) → (ℕ → ℕ) → Type 0
Means equal f g = Le f g × Le g f
Means greater f g = Le g f × More f g
Means lesser f g = Le f g × More g f
Means concurrent_lesser f g = More f g × More g f × First f g
Means concurrent_greater f g = More f g × More g f × First g f

Means-Meets : (o : Ordering) (f g : ℕ → ℕ) → Meets equal o f g → Means o f g
Means-Meets equal f g m = m
Means-Meets greater f g m = m
Means-Meets lesser f g m = m
Means-Meets concurrent_lesser f g m = m
Means-Meets concurrent_greater f g m = m

-- Of two vectors with rising identifiers `Compare` reports `equal` only if no counter differs,
-- `lesser` or `greater` only if one is below the other everywhere and strictly somewhere, and a
-- concurrent result only if each is strictly larger somewhere: `concurrent_lesser` if the first vector
-- has the smaller counter at the least identifier at which they differ, `concurrent_greater` if it
-- has the larger one. A missing counter counts as 0.
pub compare-Means :
    (v w : Vector) → IsSorted v → IsSorted w → Means (compare v w) (counter v) (counter w)
unfolding compare
compare-Means v w hv hw =
    Means-Meets (compare_loop v w equal) _ _ (compare_loop_sound v w hv hw equal tt)

not_Le_More : (f g : ℕ → ℕ) → Le f g → More f g → ⊥
not_Le_More f g le (id, lt) = let h = le id in omega arith

abbrev test_equal : Ordering → Bool
test_equal o = elim o [ equal ↦ true | _ ↦ false ]

abbrev test_lesser_equal : Ordering → Bool
test_lesser_equal o = elim o [ lesser ↦ true | equal ↦ true | _ ↦ false ]

abbrev test_concurrent : Ordering → Bool
test_concurrent o = elim o [ concurrent_greater ↦ true | concurrent_lesser ↦ true | _ ↦ false ]

module _ (f g : ℕ → ℕ) where
  equal_tests : (o : Ordering) → Means o f g → (test_equal o ≡ true) ↔ Same f g
  equal_tests equal m = (λ h id. omega (arith, m.0 id, m.1 id), λ h. refl)
  equal_tests greater m = (λ h. cc, λ h. absurd (let e = h m.1.0 in let l = m.1.1 in omega arith))
  equal_tests lesser m = (λ h. cc, λ h. absurd (let e = h m.1.0 in let l = m.1.1 in omega arith))
  equal_tests concurrent_lesser m =
      (λ h. cc, λ h. absurd (let e = h m.0.0 in let l = m.0.1 in omega arith))
  equal_tests concurrent_greater m =
      (λ h. cc, λ h. absurd (let e = h m.0.0 in let l = m.0.1 in omega arith))

  lesser_equal_tests : (o : Ordering) → Means o f g → (test_lesser_equal o ≡ true) ↔ Le f g
  lesser_equal_tests equal m = (λ h. m.0, λ h. refl)
  lesser_equal_tests lesser m = (λ h. m.0, λ h. refl)
  lesser_equal_tests greater m = (λ h. cc, λ h. absurd (not_Le_More f g h m.1))
  lesser_equal_tests concurrent_lesser m = (λ h. cc, λ h. absurd (not_Le_More f g h m.0))
  lesser_equal_tests concurrent_greater m = (λ h. cc, λ h. absurd (not_Le_More f g h m.0))

  concurrent_tests :
      (o : Ordering) → Means o f g → (test_concurrent o ≡ true) ↔ (More f g × More g f)
  concurrent_tests concurrent_lesser m = (λ h. (m.0, m.1), λ h. refl)
  concurrent_tests concurrent_greater m = (λ h. (m.0, m.1), λ h. refl)
  concurrent_tests equal m = (λ h. cc, λ h. absurd (not_Le_More f g m.0 h.0))
  concurrent_tests greater m = (λ h. cc, λ h. absurd (not_Le_More g f m.0 h.1))
  concurrent_tests lesser m = (λ h. cc, λ h. absurd (not_Le_More f g m.0 h.0))

module _ (v w : Vector) (hv : IsSorted v) (hw : IsSorted w) where
  -- Of vectors with rising identifiers `Equal` holds exactly when no counter differs.
  pub is_equal_iff : (is_equal v w ≡ true) ↔ Same (counter v) (counter w)
  unfolding is_equal
  is_equal_iff = equal_tests (counter v) (counter w) (compare v w) (compare-Means v w hv hw)

  -- Of vectors with rising identifiers `LesserEqual` decides the pointwise order of the counters.
  pub lesser_equal_iff : (lesser_equal v w ≡ true) ↔ Le (counter v) (counter w)
  unfolding lesser_equal
  lesser_equal_iff =
      lesser_equal_tests (counter v) (counter w) (compare v w) (compare-Means v w hv hw)

  -- Of vectors with rising identifiers `Concurrent` holds exactly when each one has a counter
  -- that is larger than the other's.
  pub is_concurrent_iff :
      (is_concurrent v w ≡ true) ↔ (More (counter v) (counter w) × More (counter w) (counter v))
  unfolding is_concurrent
  is_concurrent_iff =
      concurrent_tests (counter v) (counter w) (compare v w) (compare-Means v w hv hw)

-- The comparison seen from the other side.
abbrev pub converse : Ordering → Ordering
converse equal = equal
converse greater = lesser
converse lesser = greater
converse concurrent_lesser = concurrent_greater
converse concurrent_greater = concurrent_lesser

abbrev converse_verdict : Verdict → Verdict
converse_verdict (return o) = return (converse o)
converse_verdict (continue o) = continue (converse o)

note-converse :
    (r : Ordering)
    → (note_lesser (converse r) ≡ converse_verdict (note_greater r))
      × (note_greater (converse r) ≡ converse_verdict (note_lesser r))
unfolding note_greater note_lesser
note-converse equal = (refl, refl)
note-converse greater = (refl, refl)
note-converse lesser = (refl, refl)
note-converse concurrent_lesser = (refl, refl)
note-converse concurrent_greater = (refl, refl)

module _ (a b : Counter) (r : Ordering) where
  judge-converse : judge b false a false (converse r) ≡ converse_verdict (judge a false b false r)
  unfolding judge
  judge-converse = ground (arith, note-converse r)

  judge-converse_left :
      judge b true a false (converse r) ≡ converse_verdict (judge a false b true r)
  unfolding judge
  judge-converse_left = ground (arith, note-converse r)

  judge-converse_right :
      judge b false a true (converse r) ≡ converse_verdict (judge a true b false r)
  unfolding judge
  judge-converse_right = ground (arith, note-converse r)

settle-converse :
    (f g : Ordering → Ordering) (v : Verdict)
    → ((r : Ordering) → f (converse r) ≡ converse (g r))
    → settle f (converse_verdict v) ≡ converse (settle g v)
settle-converse f g (return o) h = refl
settle-converse f g (continue o) h = h o

compare_loop-converse :
    (v w : Vector) (r : Ordering) → compare_loop w v (converse r) ≡ converse (compare_loop v w r)
unfolding compare_loop
compare_loop-converse [] [] r = refl
compare_loop-converse (a ∷ cs) [] r =
    rw judge-converse_left
      (settle-converse _ _ (judge a false no_counter true r) (compare_loop-converse cs []))
compare_loop-converse [] (b ∷ bs) r =
    rw judge-converse_right
      (settle-converse _ _ (judge no_counter true b false r) (compare_loop-converse [] bs))
compare_loop-converse (a ∷ cs) (b ∷ bs) r = rw judge-converse (
    settle-converse _ _ (judge a false b false r) (λ r. elim (Bool-cases (leb a.id b.id)) [
      | inl le ↦ elim (Bool-cases (leb b.id a.id)) [
        | inl ge ↦ rw (le, ge, le) (compare_loop-converse cs bs r)
        | inr lt ↦ rw (le, lt) (compare_loop-converse cs (b ∷ bs) r)
      ]
      | inr gt ↦
          let ge : leb b.id a.id ≡ true = ground arith in
          rw (gt, ge, gt) (compare_loop-converse (a ∷ cs) bs r)
    ]))

-- Swapping the arguments of `Compare` swaps its result, the two concurrent ones included, so the
-- comparison can serve as a strict order for sorting.
pub compare-converse : (v w : Vector) → compare w v ≡ converse (compare v w)
unfolding compare
compare-converse v w = compare_loop-converse v w equal

greater_of_Means : (o : Ordering) (f g : ℕ → ℕ) → Means o f g → Le g f → More f g → o ≡ greater
greater_of_Means equal f g m le more = absurd (not_Le_More f g m.0 more)
greater_of_Means greater f g m le more = refl
greater_of_Means lesser f g m le more = absurd (not_Le_More f g m.0 more)
greater_of_Means concurrent_lesser f g m le more = absurd (not_Le_More g f le m.1)
greater_of_Means concurrent_greater f g m le more = absurd (not_Le_More g f le m.1)

pub compare_greater :
    (v w : Vector)
    → IsSorted v
    → IsSorted w
    → Le (counter w) (counter v)
    → More (counter v) (counter w)
    → compare v w ≡ greater
compare_greater v w hv hw le more =
    greater_of_Means (compare v w) (counter v) (counter w) (compare-Means v w hv hw) le more
