-- ===== src/Protocol/Vector/Merge.antt =====
-- lib/protocol/vector.go, `Merge`.
use syncthing_mem.Base.{ℕ, ◌+◌, ◌<◌, max, ◌≡◌, ◌↔◌, true, [], ◌∷◌, arith}
use syncthing_mem.Protocol.Vector.{
  u64_mod, Vector, counter, update_with_now, merge, compare, lesser_equal, greater, Above, IsSorted,
}
use syncthing_mem.Protocol.Vector.Order.{Le, counter-Above, IsSorted-tail}
use syncthing_mem.Protocol.Vector.Compare.{lesser_equal_iff}
use syncthing_mem.Protocol.Vector.Update.{compare-update_with_now}

merge-Above : (k : ℕ) (v w : Vector) → Above k v → Above k w → Above k (merge v w)
unfolding merge
merge-Above k [] [] h g = tt
merge-Above k (c ∷ cs) [] h g = h
merge-Above k [] (b ∷ bs) h g = g
merge-Above k (c ∷ cs) (b ∷ bs) h g =
    ground
      (arith, merge-Above b.id (c ∷ cs) bs, merge-Above c.id cs bs, merge-Above c.id cs (b ∷ bs))

-- Merging keeps the identifiers in rising order.
pub merge-IsSorted : (v w : Vector) → IsSorted v → IsSorted w → IsSorted (merge v w)
unfolding merge
merge-IsSorted [] [] h g = tt
merge-IsSorted (c ∷ cs) [] h g = h
merge-IsSorted [] (b ∷ bs) h g = g
merge-IsSorted (c ∷ cs) (b ∷ bs) h g =
    ground
      (arith, merge-Above b.id (c ∷ cs) bs, merge-Above c.id cs bs, merge-Above c.id cs (b ∷ bs))

-- The counters of a merge of vectors with rising identifiers are the larger of the two sides'.
counter-merge :
    (v w : Vector) (id : ℕ)
    → IsSorted v
    → IsSorted w
    → counter (merge v w) id ≡ max (counter v id) (counter w id)
unfolding merge counter
counter-merge [] [] id h g = omega arith
counter-merge (c ∷ cs) [] id h g = omega arith
counter-merge [] (b ∷ bs) id h g = omega arith
counter-merge (c ∷ cs) (b ∷ bs) id h g = ground (
  arith,
  counter-merge (c ∷ cs) bs id h (IsSorted-tail b bs g),
  counter-merge cs bs id (IsSorted-tail c cs h) (IsSorted-tail b bs g),
  counter-merge cs (b ∷ bs) id (IsSorted-tail c cs h) g,
  counter-Above c.id id cs h,
  counter-Above b.id id bs g,
)

merge_bound_left :
    (v w u : Vector)
    → IsSorted v
    → IsSorted w
    → Le (counter (merge v w)) (counter u)
    → Le (counter v) (counter u) × Le (counter w) (counter u)
merge_bound_left v w u hv hw le = (
  λ id. omega (arith, counter-merge v w id hv hw, le id),
  λ id. omega (arith, counter-merge v w id hv hw, le id),
)

merge_bound_right :
    (v w u : Vector)
    → IsSorted v
    → IsSorted w
    → Le (counter v) (counter u)
    → Le (counter w) (counter u)
    → Le (counter (merge v w)) (counter u)
merge_bound_right v w u hv hw p q id = omega (arith, counter-merge v w id hv hw, p id, q id)

-- Of vectors with rising identifiers the merge is the least upper bound in the order that
-- `LesserEqual` tests: it is below exactly those vectors that both sides are below.
pub merge-lub :
    (v w u : Vector)
    → IsSorted v
    → IsSorted w
    → IsSorted u
    → (lesser_equal (merge v w) u ≡ true) ↔ ((lesser_equal v u ≡ true) × (lesser_equal w u ≡ true))
merge-lub v w u hv hw hu =
    let m = lesser_equal_iff (merge v w) u (merge-IsSorted v w hv hw) hu in
    let a = lesser_equal_iff v u hv hu in
    let b = lesser_equal_iff w u hw hu in
    (
      λ h. let (p, q) = merge_bound_left v w u hv hw (m.0 h) in (a.1 p, b.1 q),
      λ h. m.1 (merge_bound_right v w u hv hw (a.0 h.0) (b.0 h.1)),
    )

-- The way a conflict is resolved: the merge of two versions, updated, is strictly greater than both,
-- as long as the counter that is raised does not wrap around.
pub compare-update-merge :
    (v w : Vector) (id now : ℕ)
    → IsSorted v
    → IsSorted w
    → counter v id + 1 < u64_mod
    → counter w id + 1 < u64_mod
    → (compare (update_with_now (merge v w) id now) v ≡ greater)
      × (compare (update_with_now (merge v w) id now) w ≡ greater)
compare-update-merge v w id now hv hw fv fw =
    let hm = merge-IsSorted v w hv hw in
    let fits : counter (merge v w) id + 1 < u64_mod = omega (arith, counter-merge v w id hv hw) in
    (
      compare-update_with_now (merge v w) v id now hm hv
          (λ j. omega (arith, counter-merge v w j hv hw)) fits,
      compare-update_with_now (merge v w) w id now hm hw
          (λ j. omega (arith, counter-merge v w j hv hw)) fits,
    )
