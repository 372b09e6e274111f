-- ===== src/Model/IndexHandler/Sequences.antt =====
-- internal/db/sqlite/folderdb_update.go and folderdb_indexid.go: the sequence number of a remote device
-- in a folder, as the three calls of `receive` keep it. It is a column of the device's row in the table
-- `indexids`, which a trigger of the schema sets to the number of each file that is inserted; none is a
-- missing row. Whether SQLite fails in a call is a parameter; a call that fails changes nothing.
use syncthing_mem.Base.{
  ℕ, ◌≡◌, ◌∙◌, refl, sym, ap, Bool, true, false, Option, none, some, List, [], ◌∷◌, ◌==◌,
  if◌then◌else◌,
}
use syncthing_mem.Protocol.FileInfo.{FileInfo}
use syncthing_mem.Model.IndexHandler.{last_sequence}
use syncthing_mem.Model.IndexHandler.Receive.{IndexDb}
use syncthing_mem.Model.IndexHandler.Quiet.{IsLawful}

-- Where SQLite fails, by the device's number and the files of the call.
pub record Failures : Type 0 where
  pub drop_fails : Option ℕ → Bool
  pub update_fails : List FileInfo → Option ℕ → Bool
  pub read_fails : Option ℕ → Bool

-- `UPDATE indexids SET sequence = 0`
unfoldable pub reset_sequence : Option ℕ → Option ℕ
reset_sequence none = none
reset_sequence (some n) = some 0

abbrev pub is_duplicate : Option ℕ → ℕ → Bool
is_duplicate none n = false
is_duplicate (some prev) n = n == prev

-- The loop of `Update` over the files, with the number of the file before.
unfoldable pub insert_files : Option ℕ → List FileInfo → Option ℕ → Option (Option ℕ)
insert_files prev [] s = some s
insert_files prev (f ∷ fs) s =
    let rest = insert_files (some f.sequence) fs (some f.sequence) in
    if is_duplicate prev f.sequence then none else rest

abbrev pub number_of : Option ℕ → ℕ
number_of none = 0
number_of (some n) = n

unfoldable pub sequence_db : Failures → IndexDb (Option ℕ)
unfolding reset_sequence insert_files
sequence_db fails = record {
  drop_all_files = λ s. if fails.drop_fails s then none else some (reset_sequence s);
  update = λ fs s. if fails.update_fails fs s then none else insert_files none fs s;
  device_sequence = λ s. if fails.read_fails s then none else some (number_of s);
}

success :
    {A : Type 0} (b : Bool) (x : Option A) (y : A) → (if b then none else x) ≡ some y → x ≡ some y
success true x y h = cc
success false x y h = h

some_inj : {A : Type 0} {a b : A} → some a ≡ some b → a ≡ b
some_inj h = cc

number_of-reset : (s : Option ℕ) → number_of (reset_sequence s) ≡ 0
unfolding reset_sequence
number_of-reset none = refl
number_of-reset (some n) = refl

number_of-insert :
    (prev : Option ℕ) (fs : List FileInfo) (s d : Option ℕ)
    → insert_files prev fs s ≡ some d
    → number_of d ≡ last_sequence (number_of s) fs
unfolding insert_files
number_of-insert prev [] s d h = ap number_of (sym (some_inj h))
number_of-insert prev (f ∷ fs) s d h =
    number_of-insert (some f.sequence) fs (some f.sequence) d
      (success (is_duplicate prev f.sequence) _ d h)

-- The table keeps what the receiving end relies on, wherever SQLite fails.
pub sequence_db-IsLawful : (fails : Failures) → IsLawful (sequence_db fails)
unfolding sequence_db
sequence_db-IsLawful fails = record {
  drop_sequence = λ s d n dropped is.
      sym (some_inj (success (fails.read_fails d) _ n is))
      ∙ ap number_of (sym (some_inj (success (fails.drop_fails s) _ d dropped)))
      ∙ number_of-reset s;
  update_sequence = λ fs s d m n has above stored is.
      sym (some_inj (success (fails.read_fails d) _ n is))
      ∙ number_of-insert none fs s d (success (fails.update_fails fs s) _ d stored)
      ∙ ap (λ k. last_sequence k fs) (some_inj (success (fails.read_fails s) _ m has));
}
