-- ===== src/Model/SentDownloads/Sync.antt =====
-- lib/model/sentdownloadstate.go and lib/model/devicedownloadstate.go: an update of a folder on both
-- ends.
use mathlib.Core.Path.{subst}
use syncthing_mem.Base.{
  ℕ, ◌≡◌, refl, ap, sym, ◌∙◌, inl, inr, Bool, true, false, ◌||◌, Option, none, some, List, [], ◌∷◌,
  ◌++◌, if◌then◌else◌, if_ind, Bool-cases, Text, text_eq, text_eq_sound, text_eq_comm, text_eq_refl,
  look, ◌>>=◌,
}
use syncthing_mem.Model.Downloads.{
  FolderState, ProgressUpdate, update_one, update_folder, contains, has, has_block,
}
use syncthing_mem.Model.Downloads.Has.{is_equal_refl, look-update_one_other}
use syncthing_mem.Model.SentDownloads.{
  PullerReading, SentFile, SentFolder, forget_update, Round, update_puller, update_pullers, seen,
  forget_unseen, sent_folder_update,
}
use syncthing_mem.Model.SentDownloads.Step.{
  announced, Agrees, Fresh, Known, Good, update_puller-Good, look-forget_some, look-forget_none,
}

abbrev pub AllFresh : List PullerReading → SentFolder → Type 0
AllFresh [] files = Unit
AllFresh (p ∷ pullers) files = Fresh p (look p.file.name files) × AllFresh pullers files

abbrev pub AllKnown : List PullerReading → SentFolder → Type 0
AllKnown [] files = Unit
AllKnown (p ∷ pullers) files = Known p (look p.file.name files) × AllKnown pullers files

-- No two pullers have the same file.
abbrev pub Distinct : List PullerReading → Type 0
Distinct [] = Unit
Distinct (p ∷ pullers) = (seen pullers p.file.name ≡ false) × Distinct pullers

update_folder-append :
    (us vs : List ProgressUpdate) (remote : FolderState)
    → update_folder (us ++ vs) remote ≡ update_folder vs (update_folder us remote)
unfolding update_folder
update_folder-append [] vs remote = refl
update_folder-append (u ∷ us) vs remote = update_folder-append us vs (update_one u remote)

neither : (a b : Bool) → (a || b) ≡ false → (a ≡ false) × (b ≡ false)
neither true b h = cc
neither false b h = (refl, h)

-- What is fresh stays fresh when other files change.
others-AllFresh :
    (name : Text) (pullers : List PullerReading) (files files' : SentFolder)
    → seen pullers name ≡ false
    → ((f : Text) → text_eq name f ≡ false → look f files' ≡ look f files)
    → AllFresh pullers files
    → AllFresh pullers files'
unfolding seen
others-AllFresh name [] files files' away others h = tt
others-AllFresh name (p ∷ pullers) files files' away others (fresh, h) =
    let (apart, rest) = neither (text_eq p.file.name name) (seen pullers name) away in
    (
      subst (Fresh p) (sym (others p.file.name (text_eq_comm name p.file.name ∙ apart))) fresh,
      others-AllFresh name pullers files files' rest others h,
    )

-- What the first loop leaves.
abbrev AllGood : List PullerReading → SentFolder → FolderState → Option Round → Type 0
AllGood pullers files remote none = ⊥
AllGood pullers files remote (some (updates, files')) =
    Agrees files' (update_folder updates remote)
    × AllKnown pullers files'
    × ((f : Text) → seen pullers f ≡ false → look f files' ≡ look f files)

join-AllGood :
    (p : PullerReading) (pullers : List PullerReading) (files files' : SentFolder)
    (remote : FolderState) (updates : List ProgressUpdate) (o : Option Round)
    → seen pullers p.file.name ≡ false
    → Good p files remote (some (updates, files'))
    → AllGood pullers files' (update_folder updates remote) o
    → AllGood (p ∷ pullers) files remote (o >>= λ (r : Round). some (updates ++ r.0, r.1))
unfolding seen
join-AllGood p pullers files files' remote updates none away good h = absurd h
join-AllGood p pullers files files' remote updates (some (later, files'')) away (_, known, others)
      (agrees, all_known, rest) =
    (
      subst (Agrees files'') (sym (update_folder-append updates later remote)) agrees,
      (subst (Known p) (sym (rest p.file.name away)) known, all_known),
      λ f unseen.
          let (apart, others_unseen) = neither (text_eq p.file.name f) (seen pullers f) unseen in
          rest f others_unseen ∙ others f apart,
    )

round-AllGood :
    (p : PullerReading) (pullers : List PullerReading) (files : SentFolder) (remote : FolderState)
    → seen pullers p.file.name ≡ false
    → AllFresh pullers files
    → ((files' : SentFolder) (remote' : FolderState)
        → Agrees files' remote'
        → AllFresh pullers files'
        → AllGood pullers files' remote' (update_pullers pullers files'))
    → (o : Option Round) → Good p files remote o
    → AllGood (p ∷ pullers) files remote (
        o >>= λ (r : Round).
        (update_pullers pullers r.1 >>= λ (r' : Round). some (r.0 ++ r'.0, r'.1)))
round-AllGood p pullers files remote away fresh later none bad = absurd bad
round-AllGood p pullers files remote away fresh later (some (updates, files'))
      (agrees, known, others) =
    join-AllGood p pullers files files' remote updates (update_pullers pullers files') away
      (agrees, known, others)
      (later files' (update_folder updates remote) agrees
        (others-AllFresh p.file.name pullers files files' away others fresh))

update_pullers-AllGood :
    (pullers : List PullerReading) (files : SentFolder) (remote : FolderState)
    → Agrees files remote
    → Distinct pullers
    → AllFresh pullers files
    → AllGood pullers files remote (update_pullers pullers files)
unfolding update_pullers update_folder
update_pullers-AllGood [] files remote agrees distinct fresh = (agrees, tt, λ f _. refl)
update_pullers-AllGood (p ∷ pullers) files remote agrees (away, distinct) (fresh, all_fresh) =
    round-AllGood p pullers files remote away all_fresh
      (λ files' remote' agrees' fresh'.
        update_pullers-AllGood pullers files' remote' agrees' distinct fresh')
      (update_puller p (look p.file.name files) files)
      (update_puller-Good p files remote agrees fresh)

seen_apart :
    (pullers : List PullerReading) (n f : Text)
    → seen pullers n ≡ false
    → seen pullers f ≡ true
    → text_eq n f ≡ false
seen_apart pullers n f away here = elim (Bool-cases (text_eq n f)) [
  | inl same ↦ let e = ap (seen pullers) (text_eq_sound n f same) in cc
  | inr other ↦ other
]

-- The second loop: files with a puller stay as they are on both ends.
forget_unseen-seen :
    (pullers : List PullerReading) (f : Text) (files : SentFolder) (remote : FolderState)
    → seen pullers f ≡ true
    → (look f (forget_unseen pullers files).1 ≡ look f files)
      × (look f (update_folder (forget_unseen pullers files).0 remote) ≡ look f remote)
unfolding forget_unseen update_folder
forget_unseen-seen pullers f [] remote here = (refl, refl)
forget_unseen-seen pullers f ((name, info) ∷ files) remote here =
    if_ind
      (λ (r : Round).
        (look f r.1 ≡ (if text_eq name f then some info else look f files))
        × (look f (update_folder r.0 remote) ≡ look f remote))
      (seen pullers name) _ _
      (λ kept.
        let (own, other_end) = forget_unseen-seen pullers f files remote here in
        (ap (λ (o : Option SentFile). if text_eq name f then some info else o) own, other_end))
      (λ unseen.
        let apart = seen_apart pullers name f unseen here in
        let gone = forget_update name info.version in
        let (own, other_end) = forget_unseen-seen pullers f files (update_one gone remote) here in
        (rw apart own, other_end ∙ look-update_one_other gone f remote apart))

-- A file that the remote device does not have is still not there.
forgets_none :
    (pullers : List PullerReading) (f : Text) (files : SentFolder) (remote : FolderState)
    → look f remote ≡ none
    → look f (update_folder (forget_unseen pullers files).0 remote) ≡ none
unfolding forget_unseen update_folder
forgets_none pullers f [] remote absent = absent
forgets_none pullers f ((name, info) ∷ files) remote absent =
    if_ind (λ (r : Round). look f (update_folder r.0 remote) ≡ none) (seen pullers name) _ _
      (λ kept. forgets_none pullers f files remote absent)
      (λ unseen.
        forgets_none pullers f files (update_one (forget_update name info.version) remote)
          (elim (Bool-cases (text_eq name f)) [
            | inl same ↦
                let e = text_eq_sound name f same in
                rw⁻¹ e (look-forget_none name info.version remote (rw e absent))
            | inr other ↦
                look-update_one_other (forget_update name info.version) f remote other ∙ absent
          ]))

-- The second loop: files without a puller are gone on both ends.
kept_none :
    (pullers : List PullerReading) (f : Text) (files : SentFolder)
    → seen pullers f ≡ false
    → look f (forget_unseen pullers files).1 ≡ none
unfolding forget_unseen
kept_none pullers f [] away = refl
kept_none pullers f ((name, info) ∷ files) away =
    if_ind (λ (r : Round). look f r.1 ≡ none) (seen pullers name) _ _
      (λ kept.
        rw (text_eq_comm name f ∙ seen_apart pullers f name away kept)
          (kept_none pullers f files away))
      (λ _. kept_none pullers f files away)

forgotten_none :
    (pullers : List PullerReading) (f : Text) (files : SentFolder) (remote : FolderState)
    → seen pullers f ≡ false
    → look f remote ≡ announced (look f files)
    → look f (update_folder (forget_unseen pullers files).0 remote) ≡ none
unfolding forget_unseen update_folder
forgotten_none pullers f [] remote away agrees = agrees
forgotten_none pullers f ((name, info) ∷ files) remote away agrees =
    if_ind (λ (r : Round). look f (update_folder r.0 remote) ≡ none) (seen pullers name) _ _
      (λ kept.
        forgotten_none pullers f files remote away
          (rw (text_eq_comm name f ∙ seen_apart pullers f name away kept) at agrees))
      (λ unseen.
        let gone = forget_update name info.version in
        elim (Bool-cases (text_eq name f)) [
          | inl same ↦
              let e = text_eq_sound name f same in
              let there = rw same at agrees in
              forgets_none pullers f files (update_one gone remote) (
                rw⁻¹ e (
                  look-forget_some name info.version remote
                    (record {
                      block_indexes = info.block_indexes;
                      version = info.version;
                      block_size = info.block_size;
                    })
                    (rw e there) (is_equal_refl info.version)))
          | inr other ↦
              forgotten_none pullers f files (update_one gone remote) away
                (look-update_one_other gone f remote other ∙ rw other at agrees)
        ])

abbrev pub AllHas : List PullerReading → FolderState → Type 0
AllHas [] remote = Unit
AllHas (p ∷ pullers) remote =
    ((i : ℕ) → has p.file.name p.file.version i remote ≡ contains p.available i)
    × AllHas pullers remote

has-Known :
    (p : PullerReading) (o : Option SentFile) (i : ℕ)
    → Known p o
    → has_block p.file.version i (announced o) ≡ contains p.available i
unfolding has_block contains
has-Known p none i empty = rw empty
has-Known p (some local) i (all, same) = rw (same, all)

true_or : (b : Bool) → (b || true) ≡ true
true_or true = refl
true_or false = refl

module _ (pullers : List PullerReading) (files : SentFolder) (remote : FolderState)
    (agrees : Agrees files remote) where
  abbrev after : FolderState
  after = update_folder (forget_unseen pullers files).0 remote

  after-Agrees : Agrees (forget_unseen pullers files).1 after
  after-Agrees f = elim (Bool-cases (seen pullers f)) [
    | inl here ↦
        let (own, other_end) = forget_unseen-seen pullers f files remote here in
        other_end ∙ agrees f ∙ ap announced (sym own)
    | inr away ↦
        forgotten_none pullers f files remote away (agrees f)
        ∙ ap announced (sym (kept_none pullers f files away))
  ]

  after-AllHas :
      (some_of_them : List PullerReading)
      → ((f : Text) → seen some_of_them f ≡ true → seen pullers f ≡ true)
      → AllKnown some_of_them files
      → AllHas some_of_them after
  unfolding seen has
  after-AllHas [] among known = tt
  after-AllHas (p ∷ ps) among (known, all_known) =
      let here = among p.file.name (rw (text_eq_refl p.file.name)) in
      (
        λ i.
            ap (has_block p.file.version i)
              ((forget_unseen-seen pullers p.file.name files remote here).1 ∙ agrees p.file.name)
            ∙ has-Known p (look p.file.name files) i known,
        after-AllHas ps (λ f later. among f (rw later (true_or (text_eq p.file.name f)))) all_known,
      )

-- What an update of a folder achieves.
abbrev pub Synced : List PullerReading → FolderState → Round → Type 0
Synced pullers remote (updates, files) =
    Agrees files (update_folder updates remote)
    × AllHas pullers (update_folder updates remote)
    × ((f : Text) → seen pullers f ≡ false → look f (update_folder updates remote) ≡ none)

sync_pullers :
    (pullers : List PullerReading) (files : SentFolder) (remote : FolderState) (o : Option Round)
    → AllGood pullers files remote o
    → (r : Round) × ((o >>= λ (u : Round).
          some (u.0 ++ (forget_unseen pullers u.1).0, (forget_unseen pullers u.1).1))
        ≡ some r)
      × Synced pullers remote r
sync_pullers pullers files remote none bad = absurd bad
sync_pullers pullers files remote (some (updates, files')) (agrees, known, _) =
    let joined = update_folder-append updates (forget_unseen pullers files').0 remote in
    let remote' = update_folder updates remote in
    (
      (updates ++ (forget_unseen pullers files').0, (forget_unseen pullers files').1),
      refl,
      (
        rw joined (after-Agrees pullers files' remote' agrees),
        rw joined (after-AllHas pullers files' remote' agrees pullers (λ f here. here) known),
        λ f away. rw joined (forgotten_none pullers f files' remote' away (agrees f)),
      ),
    )

-- An update of a folder, for readings of pullers of different files whose blocks extend those
-- announced, and which have the time of the last update only with the blocks announced then, does
-- not panic; a remote device that held what was announced and applies the updates in order holds what is
-- announced then, has of each puller's version of its file exactly the blocks read,
-- and nothing of files without a puller.
pub sent_folder_update-Synced :
    (pullers : List PullerReading) (files : SentFolder) (remote : FolderState)
    → Agrees files remote
    → Distinct pullers
    → AllFresh pullers files
    → (r : Round) × (sent_folder_update pullers files ≡ some r) × Synced pullers remote r
unfolding sent_folder_update
sent_folder_update-Synced pullers files remote agrees distinct fresh =
    sync_pullers pullers files remote (update_pullers pullers files)
      (update_pullers-AllGood pullers files remote agrees distinct fresh)
