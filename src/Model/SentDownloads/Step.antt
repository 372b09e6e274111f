-- ===== src/Model/SentDownloads/Step.antt =====
-- lib/model/sentdownloadstate.go and lib/model/devicedownloadstate.go: one puller's round on both ends.
use mathlib.Core.Path.{subst}
use syncthing_mem.Base.{
  ℕ, ◌≡◌, refl, ap, sym, ◌∙◌, inl, inr, Bool, true, false, not, ◌&&◌, ◌||◌, Option, none, some,
  List, [], ◌∷◌, ◌++◌, append-nil, length, drop, drop-append_length, length-append, ltb, ◌==◌,
  if◌then◌else◌, if_ind, Bool-cases, Option-cases, arith, Text, text_eq, text_eq_sound, look, put,
  look-put, look-put_other, look-delete,
}
use syncthing_mem.Protocol.Vector.{Vector, is_equal}
use syncthing_mem.Protocol.FileInfo.{block_size_of}
use syncthing_mem.Model.Downloads.{
  FileState, FolderState, ProgressUpdate, update_one, update_by, update_folder, appended, forgotten,
}
use syncthing_mem.Model.Downloads.Has.{is_equal_refl, is_equal_comm, look-update_one_other}
use syncthing_mem.Model.SentDownloads.{
  PullerReading, SentFile, SentFolder, sent_of, append_update, forget_update, Round, new_file,
  replaced_file, grown_file, known_file, update_puller,
}

-- What the remote device should hold of a file.
abbrev pub announced : Option SentFile → Option FileState
announced none = none
announced (some local) = some (record {
  block_indexes = local.block_indexes;
  version = local.version;
  block_size = local.block_size;
})

-- The remote device holds what this one has announced.
abbrev pub Agrees : SentFolder → FolderState → Type 0
Agrees files remote = (f : Text) → look f remote ≡ announced (look f files)

-- The puller's blocks extend those announced of the same version and puller, and are those announced
-- if the time of the last change is.
pub record IsFresh (p : PullerReading) (local : SentFile) : Type 0 where
  pub same_time :
      (p.available_updated == local.updated) ≡ true
      → is_equal p.file.version local.version ≡ true
      → local.block_indexes ≡ p.available
  pub grown :
      is_equal p.file.version local.version ≡ true
      → (p.created == local.created) ≡ true
      → (more : List ℕ) × (p.available ≡ local.block_indexes ++ more)

abbrev pub Fresh : PullerReading → Option SentFile → Type 0
Fresh p none = Unit
Fresh p (some local) = IsFresh p local

-- All that the puller has is announced.
abbrev pub Known : PullerReading → Option SentFile → Type 0
Known p none = p.available ≡ []
Known p (some local) =
    (local.block_indexes ≡ p.available) × (is_equal local.version p.file.version ≡ true)

module _ (n : Text) (v : Vector) (remote : FolderState) where
  look-append_none :
      (xs : List ℕ) (size : ℕ)
      → look n remote ≡ none
      → look n (update_one (append_update n v xs size) remote)
        ≡ some (record { block_indexes = xs; version = v; block_size = size })
  unfolding update_one update_by appended
  look-append_none xs size h =
      look-put n (appended (append_update n v xs size) (look n remote)) remote
      ∙ ap (λ (o : Option FileState). some (appended (append_update n v xs size) o)) h

  look-append_some :
      (local : FileState) (xs : List ℕ) (size : ℕ)
      → look n remote ≡ some local
      → is_equal local.version v ≡ true
      → look n (update_one (append_update n v xs size) remote)
        ≡ some (record local { block_indexes = local.block_indexes ++ xs })
  unfolding update_one update_by appended
  look-append_some local xs size h same =
      look-put n (appended (append_update n v xs size) (look n remote)) remote
      ∙ ap (λ (o : Option FileState). some (appended (append_update n v xs size) o)) h
      ∙ rw same

  pub look-forget_some :
      (local : FileState)
      → look n remote ≡ some local
      → is_equal local.version v ≡ true
      → look n (update_one (forget_update n v) remote) ≡ none
  unfolding update_one update_by forgotten
  look-forget_some local h same = rw (h, same) (look-delete n remote)

  pub look-forget_none :
      look n remote ≡ none → look n (update_one (forget_update n v) remote) ≡ none
  unfolding update_one update_by forgotten
  look-forget_none h = rw h h

-- Both ends take note of a file.
put-Agrees :
    (n : Text) (x : SentFile) (files : SentFolder) (remote remote' : FolderState)
    → ((f : Text) → text_eq n f ≡ false → look f remote' ≡ look f remote)
    → look n remote' ≡ announced (some x)
    → Agrees files remote
    → Agrees (put n x files) remote'
put-Agrees n x files remote remote' others own agrees f = elim (Bool-cases (text_eq n f)) [
  | inl same ↦ rw⁻¹ (text_eq_sound n f same) (own ∙ ap announced (sym (look-put n x files)))
  | inr other ↦ others f other ∙ agrees f ∙ ap announced (sym (look-put_other n f x files other))
]

both : (a b : Bool) → (a && b) ≡ true → (a ≡ true) × (b ≡ true)
both true b h = (refl, h)
both false b h = cc

neither : (a b : Bool) → (not a || not b) ≡ false → (a ≡ true) × (b ≡ true)
neither true true h = (refl, refl)
neither true false h = cc
neither false b h = cc

nil_of_empty : (xs : List ℕ) → ltb 0 (length xs) ≡ false → xs ≡ []
nil_of_empty [] h = refl
nil_of_empty (x ∷ xs) h = ground arith

-- What a round for a puller leaves: the ends agree, the puller's blocks are announced, and the other
-- files are as they were.
abbrev pub Good : PullerReading → SentFolder → FolderState → Option Round → Type 0
Good p files remote none = ⊥
Good p files remote (some (updates, files')) =
    Agrees files' (update_folder updates remote)
    × Known p (look p.file.name files')
    × ((f : Text) → text_eq p.file.name f ≡ false → look f files' ≡ look f files)

module _ (p : PullerReading) (files : SentFolder) (remote : FolderState)
    (agrees : Agrees files remote) where
  put-Good :
      (updates : List ProgressUpdate) (x : SentFile)
      → ((f : Text)
          → text_eq p.file.name f ≡ false
          → look f (update_folder updates remote) ≡ look f remote)
      → look p.file.name (update_folder updates remote) ≡ announced (some x)
      → Known p (some x)
      → Good p files remote (some (updates, put p.file.name x files))
  put-Good updates x others own known = (
    put-Agrees p.file.name x files remote (update_folder updates remote) others own agrees,
    rw (look-put p.file.name x files) known,
    λ f other. look-put_other p.file.name f x files other,
  )

  abbrev appended_alone : ProgressUpdate
  appended_alone = append_update p.file.name p.file.version p.available (block_size_of p.file)

  new_file-Good : look p.file.name files ≡ none → Good p files remote (some (new_file p files))
  unfolding new_file update_folder
  new_file-Good absent =
      if_ind (λ (r : Round). Good p files remote (some r)) (ltb 0 (length p.available)) _ _
        (λ filled.
          put-Good (appended_alone ∷ []) (sent_of p)
            (λ f other. look-update_one_other appended_alone f remote other)
            (look-append_none p.file.name p.file.version remote p.available (block_size_of p.file)
              (agrees p.file.name ∙ ap announced absent))
            (refl, is_equal_refl p.file.version))
        (λ empty. (agrees, rw absent (nil_of_empty p.available empty), λ f other. refl))

  replaced_file-Good :
      (local : SentFile)
      → look p.file.name files ≡ some local
      → Good p files remote (some (replaced_file p local files))
  unfolding replaced_file update_folder
  replaced_file-Good local there =
      let gone = forget_update p.file.name local.version in
      put-Good (gone ∷ appended_alone ∷ []) (sent_of p)
        (λ f other.
          look-update_one_other appended_alone f (update_one gone remote) other
          ∙ look-update_one_other gone f remote other)
        (look-append_none p.file.name p.file.version (update_one gone remote) p.available
          (block_size_of p.file)
          (look-forget_some p.file.name local.version remote
            (record {
              block_indexes = local.block_indexes;
              version = local.version;
              block_size = local.block_size;
            })
            (agrees p.file.name ∙ ap announced there) (is_equal_refl local.version)))
        (refl, is_equal_refl p.file.version)

  grown_file-Good :
      (local : SentFile) (more : List ℕ)
      → look p.file.name files ≡ some local
      → p.available ≡ local.block_indexes ++ more
      → is_equal local.version p.file.version ≡ true
      → Good p files remote (some (grown_file p local more files))
  unfolding grown_file update_folder
  grown_file-Good local more there grows same =
      let x = record local {
        block_indexes = local.block_indexes ++ more;
        updated = p.available_updated;
      } in
      let u = append_update p.file.name local.version more (block_size_of p.file) in
      let before = agrees p.file.name ∙ ap announced there in
      if_ind
        (λ (updates : List ProgressUpdate).
          Good p files remote (some (updates, put p.file.name x files)))
        (ltb 0 (length more)) (u ∷ []) []
        (λ filled.
          put-Good (u ∷ []) x (λ f other. look-update_one_other u f remote other)
            (look-append_some p.file.name local.version remote
              (record {
                block_indexes = local.block_indexes;
                version = local.version;
                block_size = local.block_size;
              })
              more (block_size_of p.file) before (is_equal_refl local.version))
            (sym grows, same))
        (λ empty.
          put-Good [] x (λ f other. refl)
            (before
              ∙ ap (λ (l : List ℕ). announced (some (record local { block_indexes = l })))
                  (sym (append-nil local.block_indexes)
                    ∙ ap (λ (m : List ℕ). local.block_indexes ++ m)
                        (sym (nil_of_empty more empty))))
            (sym grows, same))

  extended-Good :
      (local : SentFile) (more : List ℕ)
      → look p.file.name files ≡ some local
      → p.available ≡ local.block_indexes ++ more
      → is_equal local.version p.file.version ≡ true
      → Good p files remote (
          if ltb (length p.available) (length local.block_indexes)
          then none
          else some (grown_file p local (drop (length local.block_indexes) p.available) files))
  extended-Good local more there grows same =
      let long = ap (length {A = ℕ}) grows ∙ length-append local.block_indexes more in
      if_ind (Good p files remote) (ltb (length p.available) (length local.block_indexes)) none _
        (λ short. ground (arith, long))
        (λ enough.
          grown_file-Good local (drop (length local.block_indexes) p.available) there
            (grows
              ∙ ap (λ (m : List ℕ). local.block_indexes ++ m)
                  (sym (
                    ap (drop (length local.block_indexes)) grows
                    ∙ drop-append_length local.block_indexes more (length local.block_indexes)
                        refl)))
            same)

  known_file-Good :
      (local : SentFile)
      → look p.file.name files ≡ some local
      → IsFresh p local
      → Good p files remote (known_file p local files)
  unfolding known_file update_folder
  known_file-Good local there fresh =
      if_ind (Good p files remote)
        (p.available_updated == local.updated && is_equal p.file.version local.version) _ _
        (λ unchanged.
          let (time, version) = both _ _ unchanged in
          (
            agrees,
            rw there (
              fresh.same_time time version,
              is_equal_comm p.file.version local.version ∙ version,
            ),
            λ f other. refl,
          ))
        (λ changed.
          if_ind (Good p files remote)
            (not (is_equal p.file.version local.version) || not (p.created == local.created)) _ _
            (λ _. replaced_file-Good local there)
            (λ same.
              let (version, created) = neither _ _ same in
              let (more, grows) = fresh.grown version created in
              extended-Good local more there grows
                (is_equal_comm p.file.version local.version ∙ version)))

  pub update_puller-Good :
      Fresh p (look p.file.name files)
      → Good p files remote (update_puller p (look p.file.name files) files)
  unfolding update_puller
  update_puller-Good fresh = elim (Option-cases (look p.file.name files)) [
    | inl absent ↦ rw absent (new_file-Good absent)
    | inr (local, there) ↦ rw there (known_file-Good local there (subst (Fresh p) there fresh))
  ]
