-- ===== src/Tests/Vectors.antt =====
-- lib/protocol/vector.go at concrete versions.
use syncthing_mem.Base.{◌≡◌, ◌↔◌, refl, true, [], ◌∷◌, arith, ◌==◌, if◌then◌else◌}
use syncthing_mem.Protocol.Vector.{
  Vector, update_with_now, merge, counter, drop_others, equal, greater, lesser, concurrent_greater,
  concurrent_lesser, judge, note_greater, note_lesser, compare_loop, compare, is_equal,
  lesser_equal,
}
use syncthing_mem.Protocol.Vector.Compare.{Same, Means, compare-Means, is_equal_iff}
use syncthing_mem.Protocol.Vector.Update.{counter-drop_others}
use syncthing_mem.Protocol.Vector.Merge.{merge-lub, compare-update-merge}

abbrev old : Vector
old = record { id = 1; value = 3 } ∷ record { id = 5; value = 2 } ∷ []

abbrev ahead : Vector
ahead = record { id = 1; value = 3 } ∷ record { id = 5; value = 4 } ∷ []

abbrev aside : Vector
aside = record { id = 2; value = 1 } ∷ record { id = 5; value = 1 } ∷ []

code : Unit {0}
unfolding update_with_now merge counter drop_others judge note_greater note_lesser compare_loop
    compare
code = tt

compare_runs :
    (compare ahead old ≡ greater)
    × (compare old ahead ≡ lesser)
    × (compare old aside ≡ concurrent_greater)
    × (compare aside old ≡ concurrent_lesser)
    × (compare old old ≡ equal)
unfolding code
compare_runs = (refl, refl, refl, refl, refl)

merge_run :
    merge old aside
    ≡ record { id = 1; value = 3 }
      ∷ record { id = 2; value = 1 }
      ∷ record { id = 5; value = 2 }
      ∷ []
unfolding code
merge_run = refl

update_run :
    update_with_now old 2 9
    ≡ record { id = 1; value = 3 }
      ∷ record { id = 2; value = 9 }
      ∷ record { id = 5; value = 2 }
      ∷ []
unfolding code
update_run = refl

compare-Means_example : Means (compare old aside) (counter old) (counter aside)
compare-Means_example = compare-Means old aside (omega arith) (omega arith)

is_equal_iff_example : (is_equal old ahead ≡ true) ↔ Same (counter old) (counter ahead)
is_equal_iff_example = is_equal_iff old ahead (omega arith) (omega arith)

counter-drop_others_example : counter (drop_others old 5) 5 ≡ (if 5 == 5 then counter old 5 else 0)
counter-drop_others_example = counter-drop_others old 5 5

old_counters : (counter old 1 ≡ 3) × (counter aside 1 ≡ 0)
unfolding code
old_counters = (refl, refl)

merge-lub_example :
    (lesser_equal (merge old aside) ahead ≡ true)
    ↔ ((lesser_equal old ahead ≡ true) × (lesser_equal aside ahead ≡ true))
merge-lub_example = merge-lub old aside ahead (omega arith) (omega arith) (omega arith)

compare-update-merge_example :
    (compare (update_with_now (merge old aside) 1 9) old ≡ greater)
    × (compare (update_with_now (merge old aside) 1 9) aside ≡ greater)
compare-update-merge_example =
    compare-update-merge old aside 1 9 (omega arith) (omega arith) (omega (arith, old_counters.0))
      (omega (arith, old_counters.1))
