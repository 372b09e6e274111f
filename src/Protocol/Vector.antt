-- ===== src/Protocol/Vector.antt =====
-- lib/protocol/vector.go: version vectors. A vector is the slice of its counters; an index that
-- walks the slice is a recursion on what is left of it. Identifiers and values are uint64, and the
-- increment keeps its wrap-around.
pub mod Order
pub mod Compare
pub mod Update
pub mod Merge
use syncthing_mem.Base.{
  ℕ, ◌+◌, ◌%◌, ◌^◌, ◌<◌, max, Bool, true, false, ◌&&◌, ◌||◌, List, [], ◌∷◌, ltb, leb, ◌==◌,
  if◌then◌else◌,
}

abbrev pub u64_mod : ℕ
u64_mod = 2 ^ 64

pub record Counter : Type 0 where
  pub id : ℕ
  pub value : ℕ

abbrev pub Vector : Type 0
Vector = List Counter

-- `updateWithNow`: the counter of `id` goes to the clock or up by one, at its place in the order.
unfoldable pub update_with_now : Vector → ℕ → ℕ → Vector
update_with_now [] id now = record { id = id; value = max 1 now } ∷ []
update_with_now (c ∷ cs) id now =
    let rest = update_with_now cs id now in
    if c.id == id
    then record c { value = max ((c.value + 1) % u64_mod) now } ∷ cs
    else if ltb id c.id
    then record { id = id; value = max 1 now } ∷ c ∷ cs
    else c ∷ rest

-- `Merge`: the three cases of the loop, at the counters under `vi` and `bi`.
unfoldable pub merge : Vector → Vector → Vector
merge v [] = v
merge [] (b ∷ bs) = b ∷ bs
merge (c ∷ cs) (b ∷ bs) =
    let insert = merge (c ∷ cs) bs in
    let both = merge cs bs in
    let skip = merge cs (b ∷ bs) in
    if ltb b.id c.id
    then b ∷ insert
    else if c.id == b.id
    then (if ltb c.value b.value then record c { value = b.value } else c) ∷ both
    else c ∷ skip

-- `Counter`
unfoldable pub counter : Vector → ℕ → ℕ
counter [] id = 0
counter (c ∷ cs) id = if c.id == id then c.value else counter cs id

unfoldable pub is_empty : Vector → Bool
is_empty [] = true
is_empty (c ∷ cs) = false

unfoldable pub drop_others : Vector → ℕ → Vector
drop_others [] id = []
drop_others (c ∷ cs) id = if c.id == id then c ∷ [] else drop_others cs id

pub data Ordering : Type 0 where
  equal greater lesser concurrent_lesser concurrent_greater : Ordering

-- One round of the loop of `Compare` either returns, or goes on with a new `result`.
pub data Verdict : Type 0 where
  return : Ordering → Verdict
  continue : Ordering → Verdict

unfoldable pub note_greater : Ordering → Verdict
note_greater Ordering.lesser = return concurrent_lesser
note_greater _ = continue greater

unfoldable pub note_lesser : Ordering → Verdict
note_lesser Ordering.greater = return concurrent_greater
note_lesser _ = continue lesser

-- The `switch` of `Compare`, with the counters under the two indices and whether they are missing.
unfoldable pub judge : Counter → Bool → Counter → Bool → Ordering → Verdict
unfolding note_greater note_lesser
judge av a_missing bv b_missing result =
    if av.id == bv.id
    then (if ltb bv.value av.value
        then note_greater result
        else if ltb av.value bv.value
        then note_lesser result
        else continue result)
    else if (if a_missing then false else ltb av.id bv.id) || b_missing
    then (if ltb 0 av.value then note_greater result else continue result)
    else if (if b_missing then false else ltb bv.id av.id) || a_missing
    then (if ltb 0 bv.value then note_lesser result else continue result)
    else continue result

abbrev pub no_counter : Counter
no_counter = record { id = 0; value = 0 }

-- What follows a round: the loop goes on by `rest`, unless the round returned.
abbrev pub settle : (Ordering → Ordering) → Verdict → Ordering
settle rest (return o) = o
settle rest (continue r) = rest r

-- The loop of `Compare`. The indices advance past the smaller identifier, or past both.
unfoldable pub compare_loop : Vector → Vector → Ordering → Ordering
compare_loop [] [] result = result
compare_loop (a ∷ cs) [] result =
    settle (λ r. compare_loop cs [] r) (judge a false no_counter true result)
compare_loop [] (b ∷ bs) result =
    settle (λ r. compare_loop [] bs r) (judge no_counter true b false result)
compare_loop (a ∷ cs) (b ∷ bs) result =
    settle
      (λ r. elim (leb a.id b.id) [
        | true ↦ elim (leb b.id a.id) [
          | true ↦ compare_loop cs bs r
          | false ↦ compare_loop cs (b ∷ bs) r
        ]
        | false ↦ compare_loop (a ∷ cs) bs r
      ])
      (judge a false b false result)

unfoldable pub compare : Vector → Vector → Ordering
unfolding compare_loop
compare v b = compare_loop v b equal

-- The tests that are read off the comparison.
unfoldable pub is_equal : Vector → Vector → Bool
is_equal v b = elim (compare v b) [ equal ↦ true | _ ↦ false ]

unfoldable pub lesser_equal : Vector → Vector → Bool
lesser_equal v b = elim (compare v b) [ lesser ↦ true | equal ↦ true | _ ↦ false ]

unfoldable pub greater_equal : Vector → Vector → Bool
greater_equal v b = elim (compare v b) [ greater ↦ true | equal ↦ true | _ ↦ false ]

unfoldable pub is_concurrent : Vector → Vector → Bool
is_concurrent v b = elim (compare v b) [
  | concurrent_greater ↦ true
  | concurrent_lesser ↦ true
  | _ ↦ false
]

-- The order in which every operation keeps the identifiers: strictly rising, above a bound.
abbrev pub Above : ℕ → Vector → Type 0
Above k [] = Unit
Above k (c ∷ cs) = (k < c.id) × Above c.id cs

abbrev pub IsSorted : Vector → Type 0
IsSorted [] = Unit
IsSorted (c ∷ cs) = Above c.id cs
