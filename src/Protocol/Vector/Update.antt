-- ===== src/Protocol/Vector/Update.antt =====
-- lib/protocol/vector.go, `updateWithNow` and `DropOthers`.
use syncthing_mem.Base.{
  ℕ, ◌+◌, ◌%◌, ◌≤◌, ◌<◌, max, ◌≡◌, [], ◌∷◌, arith, ◌==◌, if◌then◌else◌, Bool-cases, inl, inr, ==→eq,
  ==_refl,
}
use syncthing_mem.Protocol.Vector.{
  u64_mod, Vector, counter, update_with_now, drop_others, compare, greater, Above, IsSorted,
}
use syncthing_mem.Protocol.Vector.Order.{Le, counter-Above}
use syncthing_mem.Protocol.Vector.Compare.{compare_greater}

update_with_now-Above :
    (k : ℕ) (v : Vector) (id now : ℕ) → k < id → Above k v → Above k (update_with_now v id now)
unfolding update_with_now
update_with_now-Above k [] id now lt h = (lt, tt)
update_with_now-Above k (c ∷ cs) id now lt h = ground (arith, update_with_now-Above c.id cs id now)

-- An update keeps the identifiers in rising order.
update_with_now-IsSorted :
    (v : Vector) (id now : ℕ) → IsSorted v → IsSorted (update_with_now v id now)
unfolding update_with_now
update_with_now-IsSorted [] id now h = tt
update_with_now-IsSorted (c ∷ cs) id now h = ground (arith, update_with_now-Above c.id cs id now)

counter-update :
    (k : ℕ) (v : Vector) (id now j : ℕ)
    → Above k v
    → k ≤ id
    → counter (update_with_now v id now) j
      ≡ (if id == j then max ((counter v id + 1) % u64_mod) now else counter v j)
unfolding counter update_with_now
counter-update k [] id now j h le = ground arith
counter-update k (c ∷ cs) id now j h le =
    ground (arith, counter-update c.id cs id now j h.1, counter-Above c.id id cs h.1)

-- In a vector with rising identifiers an update sets the counter of `id` to its value plus one
-- (wrapping at 2^64), or to the clock where that is larger, and leaves every other counter.
counter-update_with_now :
    (v : Vector) (id now j : ℕ)
    → IsSorted v
    → counter (update_with_now v id now) j
      ≡ (if id == j then max ((counter v id + 1) % u64_mod) now else counter v j)
unfolding counter update_with_now
counter-update_with_now [] id now j h = ground arith
counter-update_with_now (c ∷ cs) id now j h =
    ground (arith, counter-update c.id cs id now j h, counter-Above c.id id cs h)

pub drop_others-IsSorted : (v : Vector) (id : ℕ) → IsSorted (drop_others v id)
unfolding drop_others
drop_others-IsSorted [] id = tt
drop_others-IsSorted (c ∷ cs) id = ground (arith, drop_others-IsSorted cs id)

-- `DropOthers` keeps the counter of `id` and no other.
pub counter-drop_others :
    (v : Vector) (id j : ℕ) → counter (drop_others v id) j ≡ (if id == j then counter v id else 0)
unfolding counter drop_others
counter-drop_others [] id j = ground arith
counter-drop_others (c ∷ cs) id j = ground (arith, counter-drop_others cs id j)

-- An update of `v` is strictly greater than whatever was below `v`, as long as the counter that it
-- raises does not wrap around.
pub compare-update_with_now :
    (v w : Vector) (id now : ℕ)
    → IsSorted v
    → IsSorted w
    → Le (counter w) (counter v)
    → counter v id + 1 < u64_mod
    → compare (update_with_now v id now) w ≡ greater
compare-update_with_now v w id now hv hw le fits =
    compare_greater (update_with_now v id now) w (update_with_now-IsSorted v id now hv) hw
      (λ j. elim (Bool-cases (id == j)) [
        | inl here ↦
            let e = ==→eq id j here in
            rw (counter-update_with_now v id now j hv, here) (rw (← e) (omega (arith, le id)))
        | inr other ↦ rw (counter-update_with_now v id now j hv, other) (le j)
      ])
      (id, rw (counter-update_with_now v id now id hv, ==_refl id) (omega (arith, le id)))
