-- ===== src/Protocol/Vector/Order.antt =====
-- lib/protocol/vector.go, `Compare`: the comparison against the order of the counters as functions.
use mathlib.Core.Path.{fun_ext, subst}
use syncthing_mem.Base.{
  ℕ, ◌≤◌, ◌<◌, ◌≡◌, refl, sym, inl, inr, true, false, [], ◌∷◌, arith, ltb, leb, ◌==◌, if◌then◌else◌,
  Bool-cases, ==_refl, ltb→lt, ltb→ge,
}
use syncthing_mem.Protocol.Vector.{
  Counter, Vector, counter, Ordering, equal, greater, lesser, concurrent_lesser, concurrent_greater,
  Verdict, continue, note_greater, note_lesser, judge, no_counter, settle, compare_loop, Above,
  IsSorted,
}

-- The pointwise order, and a place where the first is larger.
abbrev pub Le : (ℕ → ℕ) → (ℕ → ℕ) → Type 0
Le f g = (id : ℕ) → f id ≤ g id

abbrev pub More : (ℕ → ℕ) → (ℕ → ℕ) → Type 0
More f g = (id : ℕ) × (g id < f id)

-- At the least identifier at which the two differ, the first is below the second.
pub record First (f g : ℕ → ℕ) : Type 0 where
  pub id : ℕ
  pub below : f id < g id
  pub before : (j : ℕ) → j < id → f j ≡ g j

-- What a comparison says of two functions, when `r` was found on the counters before them.
abbrev pub Meets : Ordering → Ordering → (ℕ → ℕ) → (ℕ → ℕ) → Type 0
Meets equal equal f g = Le f g × Le g f
Meets equal greater f g = Le g f × More f g
Meets equal lesser f g = Le f g × More g f
Meets equal concurrent_lesser f g = More f g × More g f × First f g
Meets equal concurrent_greater f g = More f g × More g f × First g f
Meets greater greater f g = Le g f
Meets greater concurrent_greater f g = More g f
Meets lesser lesser f g = Le f g
Meets lesser concurrent_lesser f g = More f g
Meets _ _ f g = ⊥

-- The results that the loop carries from round to round.
abbrev pub IsCarried : Ordering → Type 0
IsCarried concurrent_lesser = ⊥
IsCarried concurrent_greater = ⊥
IsCarried _ = Unit

abbrev put : ℕ → ℕ → (ℕ → ℕ) → ℕ → ℕ
put k x f id = if k == id then x else f id

abbrev weigh : ℕ → ℕ → Ordering → Verdict
weigh x y r = if ltb y x then note_greater r else if ltb x y then note_lesser r else continue r

module _ (k x y : ℕ) (f g : ℕ → ℕ) where
  Le-put : x ≤ y → Le f g → Le (put k x f) (put k y g)
  Le-put h le id = ground (arith, le id)

  More-put : f k ≡ 0 → More f g → More (put k x f) (put k y g)
  More-put zero_at (id, lt) = elim (Bool-cases (k == id)) [
    | inl same ↦ absurd (
        let e : k ≡ id = ground arith in
        let z : f id ≡ 0 = subst (λ j. f j ≡ 0) e zero_at in omega arith)
    | inr other ↦ (id, rw other lt)
  ]

  More-here : y < x → More (put k x f) (put k y g)
  More-here lt = (k, rw (==_refl k) lt)

  First-put : x ≡ y → f k ≡ 0 → g k ≡ 0 → First f g → First (put k x f) (put k y g)
  First-put e f_zero g_zero d = elim (Bool-cases (k == d.id)) [
    | inl same ↦ absurd (
        let e : k ≡ d.id = ground arith in
        let z : g d.id ≡ 0 = subst (λ j. g j ≡ 0) e g_zero in let lt = d.below in omega arith)
    | inr other ↦ record {
      id = d.id;
      below = rw other d.below;
      before = λ j lt. ground (arith, d.before j lt);
    }
  ]

  First-here : x < y → ((j : ℕ) → j < k → f j ≡ g j) → First (put k x f) (put k y g)
  First-here lt same = record {
    id = k;
    below = rw (==_refl k) lt;
    before = λ j less. ground (arith, same j less);
  }

module _ (k x y : ℕ) (f g : ℕ → ℕ) (f_zero : f k ≡ 0) (g_zero : g k ≡ 0)
    (below : (j : ℕ) → j < k → f j ≡ g j) where
  Meets-after_greater :
      (o : Ordering)
      → y < x
      → Meets greater o f g
      → Meets equal o (put k x f) (put k y g) × Meets greater o (put k x f) (put k y g)
  Meets-after_greater greater lt m =
      ((Le-put k y x g f (omega arith) m, More-here k x y f g lt), Le-put k y x g f (omega arith) m)
  Meets-after_greater concurrent_lesser lt m = absurd m
  Meets-after_greater concurrent_greater lt m = (
    (
      More-here k x y f g lt,
      More-put k y x g f g_zero m,
      First-here k y x g f lt (λ j less. sym (below j less)),
    ),
    More-put k y x g f g_zero m,
  )
  Meets-after_greater equal lt m = absurd m
  Meets-after_greater lesser lt m = absurd m

  Meets-after_lesser :
      (o : Ordering)
      → x < y
      → Meets lesser o f g
      → Meets equal o (put k x f) (put k y g) × Meets lesser o (put k x f) (put k y g)
  Meets-after_lesser lesser lt m =
      ((Le-put k x y f g (omega arith) m, More-here k y x g f lt), Le-put k x y f g (omega arith) m)
  Meets-after_lesser concurrent_lesser lt m = (
    (More-put k x y f g f_zero m, More-here k y x g f lt, First-here k x y f g lt below),
    More-put k x y f g f_zero m,
  )
  Meets-after_lesser concurrent_greater lt m = absurd m
  Meets-after_lesser equal lt m = absurd m
  Meets-after_lesser greater lt m = absurd m

  Meets-after_equal : (r o : Ordering) → x ≡ y → Meets r o f g → Meets r o (put k x f) (put k y g)
  Meets-after_equal equal equal e (p, q) =
      (Le-put k x y f g (omega arith) p, Le-put k y x g f (omega arith) q)
  Meets-after_equal equal greater e (p, q) =
      (Le-put k y x g f (omega arith) p, More-put k x y f g f_zero q)
  Meets-after_equal equal lesser e (p, q) =
      (Le-put k x y f g (omega arith) p, More-put k y x g f g_zero q)
  Meets-after_equal equal concurrent_lesser e (p, q, d) = (
    More-put k x y f g f_zero p,
    More-put k y x g f g_zero q,
    First-put k x y f g e f_zero g_zero d,
  )
  Meets-after_equal equal concurrent_greater e (p, q, d) = (
    More-put k x y f g f_zero p,
    More-put k y x g f g_zero q,
    First-put k y x g f (sym e) g_zero f_zero d,
  )
  Meets-after_equal greater greater e m = Le-put k y x g f (omega arith) m
  Meets-after_equal greater concurrent_lesser e m = absurd m
  Meets-after_equal greater concurrent_greater e m = More-put k y x g f g_zero m
  Meets-after_equal greater equal e m = absurd m
  Meets-after_equal greater lesser e m = absurd m
  Meets-after_equal lesser lesser e m = Le-put k x y f g (omega arith) m
  Meets-after_equal lesser concurrent_lesser e m = More-put k x y f g f_zero m
  Meets-after_equal lesser concurrent_greater e m = absurd m
  Meets-after_equal lesser equal e m = absurd m
  Meets-after_equal lesser greater e m = absurd m
  Meets-after_equal concurrent_lesser equal e m = absurd m
  Meets-after_equal concurrent_lesser _ e m = absurd m
  Meets-after_equal concurrent_greater equal e m = absurd m
  Meets-after_equal concurrent_greater _ e m = absurd m

module _ (k x y : ℕ) (f g : ℕ → ℕ) (f_zero : f k ≡ 0) (g_zero : g k ≡ 0)
    (below : (j : ℕ) → j < k → f j ≡ g j) (rest : Ordering → Ordering)
    (later : (r : Ordering) → IsCarried r → Meets r (rest r) f g) where
  weigh_greater :
      (r : Ordering)
      → IsCarried r
      → y < x
      → Meets r (settle rest (note_greater r)) (put k x f) (put k y g)
  unfolding note_greater
  weigh_greater equal c lt =
      (Meets-after_greater k x y f g f_zero g_zero below (rest greater) lt (later greater tt)).0
  weigh_greater greater c lt =
      (Meets-after_greater k x y f g f_zero g_zero below (rest greater) lt (later greater tt)).1
  weigh_greater lesser c lt = More-here k x y f g lt
  weigh_greater concurrent_lesser c lt = absurd c
  weigh_greater concurrent_greater c lt = absurd c

  weigh_lesser :
      (r : Ordering)
      → IsCarried r
      → x < y
      → Meets r (settle rest (note_lesser r)) (put k x f) (put k y g)
  unfolding note_lesser
  weigh_lesser equal c lt =
      (Meets-after_lesser k x y f g f_zero g_zero below (rest lesser) lt (later lesser tt)).0
  weigh_lesser lesser c lt =
      (Meets-after_lesser k x y f g f_zero g_zero below (rest lesser) lt (later lesser tt)).1
  weigh_lesser greater c lt = More-here k y x g f lt
  weigh_lesser concurrent_lesser c lt = absurd c
  weigh_lesser concurrent_greater c lt = absurd c

  weigh_sound :
      (r : Ordering) → IsCarried r → Meets r (settle rest (weigh x y r)) (put k x f) (put k y g)
  weigh_sound r c = elim (Bool-cases (ltb y x)) [
    | inl gt ↦ rw (gt, settle) (weigh_greater r c (ltb→lt y x gt))
    | inr ge ↦ elim (Bool-cases (ltb x y)) [
      | inl lt ↦ rw (ge, lt, settle) (weigh_lesser r c (ltb→lt x y lt))
      | inr le ↦
          rw (ge, le, settle)
            (Meets-after_equal k x y f g f_zero g_zero below r (rest r)
              (let a = ltb→ge y x ge in let b = ltb→ge x y le in omega arith) (later r c))
    ]
  ]

module _ (r : Ordering) (a b : Counter) where
  judge_both : a.id ≡ b.id → judge a false b false r ≡ weigh a.value b.value r
  unfolding judge
  judge_both e = ground arith

  judge_left : a.id < b.id → judge a false b false r ≡ weigh a.value 0 r
  unfolding judge
  judge_left lt = ground arith

  judge_right : b.id < a.id → judge a false b false r ≡ weigh 0 b.value r
  unfolding judge
  judge_right lt = ground arith

judge_only_left : (r : Ordering) (a : Counter) → judge a false no_counter true r ≡ weigh a.value 0 r
unfolding judge
judge_only_left r a = ground arith

judge_only_right :
    (r : Ordering) (b : Counter) → judge no_counter true b false r ≡ weigh 0 b.value r
unfolding judge
judge_only_right r b = ground arith

-- A counter below every identifier of a sorted vector is missing.
pub counter-Above : (k id : ℕ) (cs : Vector) → Above k cs → id ≤ k → counter cs id ≡ 0
unfolding counter
counter-Above k id [] h le = refl
counter-Above k id (c ∷ cs) h le = ground (arith, counter-Above c.id id cs h.1)

same_below :
    (k : ℕ) (cs bs : Vector)
    → Above k cs
    → Above k bs
    → (j : ℕ) → j < k
    → counter cs j ≡ counter bs j
same_below k cs bs hs ks j less =
    omega (arith, counter-Above k j cs hs (omega arith), counter-Above k j bs ks (omega arith))

counter-cons : (c : Counter) (cs : Vector) → counter (c ∷ cs) ≡ put c.id c.value (counter cs)
unfolding counter
counter-cons c cs = fun_ext (λ id. refl)

put-zero : (k : ℕ) (cs : Vector) → Above k cs → put k 0 (counter cs) ≡ counter cs
put-zero k cs h = fun_ext (λ id. ground (arith, counter-Above k id cs h))

pub IsSorted-tail : (c : Counter) (cs : Vector) → Above c.id cs → IsSorted cs
IsSorted-tail c [] h = tt
IsSorted-tail c (d ∷ cs) h = h.1

Meets-nil : (r : Ordering) → IsCarried r → Meets r r (counter []) (counter [])
Meets-nil equal c = ((λ id. omega arith), (λ id. omega arith))
Meets-nil greater c = λ id. omega arith
Meets-nil lesser c = λ id. omega arith
Meets-nil concurrent_lesser c = absurd c
Meets-nil concurrent_greater c = absurd c

-- One round, at counters on both sides, from what the rest of the loop finds.
module _ (rest : Ordering → Ordering) (r : Ordering) (c : IsCarried r) where
  round_both :
      (a b : Counter) (cs bs : Vector)
      → Above a.id cs
      → Above b.id bs
      → a.id ≡ b.id
      → ((r : Ordering) → IsCarried r → Meets r (rest r) (counter cs) (counter bs))
      → Meets r (settle rest (judge a false b false r)) (counter (a ∷ cs)) (counter (b ∷ bs))
  round_both a b cs bs hs ks e later =
      rw (judge_both r a b e, counter-cons a cs, counter-cons b bs, ← e)
        (weigh_sound a.id a.value b.value (counter cs) (counter bs)
          (counter-Above a.id a.id cs hs (omega arith))
          (counter-Above b.id a.id bs ks (omega arith))
          (same_below a.id cs bs hs (subst (λ n. Above n bs) (sym e) ks)) rest later r c)

  round_left :
      (a : Counter) (cs bs : Vector) (v : Verdict)
      → v ≡ weigh a.value 0 r
      → Above a.id cs
      → Above a.id bs
      → ((r : Ordering) → IsCarried r → Meets r (rest r) (counter cs) (counter bs))
      → Meets r (settle rest v) (counter (a ∷ cs)) (counter bs)
  round_left a cs bs v e hs ks later =
      rw (e, counter-cons a cs, ← put-zero a.id bs ks)
        (weigh_sound a.id a.value 0 (counter cs) (counter bs)
          (counter-Above a.id a.id cs hs (omega arith))
          (counter-Above a.id a.id bs ks (omega arith)) (same_below a.id cs bs hs ks) rest later r
          c)

  round_right :
      (b : Counter) (cs bs : Vector) (v : Verdict)
      → v ≡ weigh 0 b.value r
      → Above b.id cs
      → Above b.id bs
      → ((r : Ordering) → IsCarried r → Meets r (rest r) (counter cs) (counter bs))
      → Meets r (settle rest v) (counter cs) (counter (b ∷ bs))
  round_right b cs bs v e hs ks later =
      rw (e, counter-cons b bs, ← put-zero b.id cs hs)
        (weigh_sound b.id 0 b.value (counter cs) (counter bs)
          (counter-Above b.id b.id cs hs (omega arith))
          (counter-Above b.id b.id bs ks (omega arith)) (same_below b.id cs bs hs ks) rest later r
          c)

pub compare_loop_sound :
    (v w : Vector)
    → IsSorted v
    → IsSorted w
    → (r : Ordering) → IsCarried r
    → Meets r (compare_loop v w r) (counter v) (counter w)
unfolding compare_loop
compare_loop_sound [] [] hs ks r c = Meets-nil r c
compare_loop_sound (a ∷ cs) [] hs ks r c =
    round_left (λ r. compare_loop cs [] r) r c a cs [] _ (judge_only_left r a) hs tt
      (compare_loop_sound cs [] (IsSorted-tail a cs hs) tt)
compare_loop_sound [] (b ∷ bs) hs ks r c =
    round_right (λ r. compare_loop [] bs r) r c b [] bs _ (judge_only_right r b) tt ks
      (compare_loop_sound [] bs tt (IsSorted-tail b bs ks))
compare_loop_sound (a ∷ cs) (b ∷ bs) hs ks r c = elim (Bool-cases (leb a.id b.id)) [
  | inl le ↦ elim (Bool-cases (leb b.id a.id)) [
    | inl ge ↦
        rw (le, ge)
          (round_both (λ r. compare_loop cs bs r) r c a b cs bs hs ks (ground arith)
            (compare_loop_sound cs bs (IsSorted-tail a cs hs) (IsSorted-tail b bs ks)))
    | inr lt ↦
        rw (le, lt)
          (round_left (λ r. compare_loop cs (b ∷ bs) r) r c a cs (b ∷ bs) _
            (judge_left r a b (ground arith)) hs (ground arith, ks)
            (compare_loop_sound cs (b ∷ bs) (IsSorted-tail a cs hs) ks))
  ]
  | inr gt ↦ rw gt (
      round_right (λ r. compare_loop (a ∷ cs) bs r) r c b (a ∷ cs) bs _
        (judge_right r a b (ground arith)) (ground arith, hs) ks
        (compare_loop_sound (a ∷ cs) bs hs (IsSorted-tail b bs ks)))
]
