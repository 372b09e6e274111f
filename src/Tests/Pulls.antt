-- ===== src/Tests/Pulls.antt =====
-- lib/model/blockpullreorderer.go at a concrete file.
use mathlib.Core.List.{Perm, reverse, reverse_perm}
use syncthing_mem.Base.{ℕ, ◌≡◌, refl, List, [], ◌∷◌, arith}
use syncthing_mem.Model.Reorder.{chunk, reorder}
use syncthing_mem.Model.Reorder.Blocks.{reorder-Perm}

abbrev blocks : List ℕ
blocks = 11 ∷ 12 ∷ 13 ∷ 14 ∷ 15 ∷ []

-- Three devices, the second of which pulls the third and fourth block first.
reorder_run : reorder 1 3 (λ l. l) blocks ≡ 13 ∷ 14 ∷ 11 ∷ 12 ∷ 15 ∷ []
unfolding reorder chunk
reorder_run = refl

reorder-Perm_example : Perm (reorder 1 3 reverse blocks) blocks
reorder-Perm_example = reorder-Perm 1 3 reverse blocks reverse_perm (omega arith)
