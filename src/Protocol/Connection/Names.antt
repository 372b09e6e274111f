-- ===== src/Protocol/Connection/Names.antt =====
-- lib/protocol/protocol.go: names and messages that pass the checks.
use syncthing_mem.Base.{
  ℕ, ℤ, pos, negsuc, ◌≤◌, ◌≡◌, refl, ◌⊎◌, inl, inr, Bool, true, false, Option, none, some, List, [],
  ◌∷◌, ◌==◌, if◌then◌else◌, Option-cases, length, ◌<◌, arith, Text, text_eq, text_eq_sound,
}
use syncthing_mem.Protocol.FileInfo.{FileInfo, file, is_directory, is_invalid, type_eq}
use syncthing_mem.Protocol.Connection.{
  dot, dot_dot, is_rooted, leaves_folder, CheckError, check_filename, check_blocks,
  check_file_info_consistency, check_index_consistency, Received, cluster_config, index,
  index_update, request, response, download_progress, ping, close, max_request_size, handle,
  refuse_inconsistent, check_request, check_body,
}

-- The elements of a name, between its slashes.
abbrev pub first_element : Text → Text
first_element [] = []
first_element (c ∷ cs) = let rest = first_element cs in if c == 47 then [] else c ∷ rest

abbrev pub rest_elements : Text → List Text
rest_elements [] = []
rest_elements (c ∷ cs) =
    let rest = rest_elements cs in if c == 47 then first_element cs ∷ rest else rest

abbrev pub elements : Text → List Text
elements name = first_element name ∷ rest_elements name

-- Neither empty nor one that stands for this directory or the one above.
abbrev pub Normal : Text → Type 0
Normal e = (text_eq e [] ≡ false) × (text_eq e dot ≡ false) × (text_eq e dot_dot ≡ false)

abbrev pub AllNormal : List Text → Type 0
AllNormal [] = Unit
AllNormal (e ∷ es) = Normal e × AllNormal es

-- First any number of steps up, then normal elements.
abbrev pub UpThenNormal : List Text → Type 0
UpThenNormal [] = Unit
UpThenNormal (e ∷ es) = ((text_eq e dot_dot ≡ true) × UpThenNormal es) ⊎ (Normal e × AllNormal es)

-- What `path.Clean` returns: "." for nothing, a rooted path, or a path that goes up first and then
-- down by normal elements.
abbrev pub IsClean : (Text → Text) → Type 0
IsClean clean =
    (name : Text)
    → (text_eq (clean name) dot ≡ true)
      ⊎ ((is_rooted (clean name) ≡ true) ⊎ UpThenNormal (elements (clean name)))

starts_up :
    (name : Text)
    → text_eq (first_element name) dot_dot ≡ true
    → (text_eq name dot_dot ≡ true) ⊎ (leaves_folder name ≡ true)
starts_up [] h = cc
starts_up (a ∷ []) h = ground arith
starts_up (a ∷ b ∷ []) h = ground arith
starts_up (a ∷ b ∷ c ∷ rest) h = ground arith

module _ (clean : Text → Text) where
  -- What a name that is accepted is not.
  accepted :
      (name : Text)
      → check_filename clean name ≡ none
      → (text_eq (clean name) name ≡ true)
        × (text_eq name dot ≡ false)
        × (text_eq name dot_dot ≡ false)
        × (is_rooted name ≡ false)
        × (leaves_folder name ≡ false)
  unfolding check_filename
  accepted name h = ground arith

  module _ (is_clean : IsClean clean) where
    pub check_filename-AllNormal :
        (name : Text) → check_filename clean name ≡ none → AllNormal (elements name)
    check_filename-AllNormal name h =
        let (same, not_dot, not_up, not_rooted, stays) = accepted name h in
        let e = text_eq_sound (clean name) name same in
        elim (is_clean name) [
          | inl is_dot ↦ let is = rw e at is_dot in cc
          | inr (inl rooted) ↦ let is = rw e at rooted in cc
          | inr (inr shape) ↦ elim (rw e at shape) [
            | inl (up, _) ↦ elim (starts_up name up) [ inl is_up ↦ cc | inr leaves ↦ cc ]
            | inr normal ↦ normal
          ]
        ]

-- The blocks of a file that a peer may announce: none of a deleted file or a directory, and some of
-- any other file that is valid.
pub record BlocksFit (f : FileInfo) : Type 0 where
  pub deleted : f.deleted ≡ true → length f.blocks ≡ 0
  pub directory : is_directory f.file_type ≡ true → length f.blocks ≡ 0
  pub filled :
      f.deleted ≡ false
      → is_invalid f ≡ false
      → type_eq f.file_type file ≡ true
      → 0 < length f.blocks

check_blocks-BlocksFit : (f : FileInfo) → check_blocks f ≡ none → BlocksFit f
unfolding check_blocks
check_blocks-BlocksFit f h = record {
  deleted = λ d. ground arith;
  directory = λ d. ground arith;
  filled = λ d v t. ground arith;
}

abbrev pub AllFit : List FileInfo → Type 0
AllFit [] = Unit
AllFit (f ∷ fs) = (AllNormal (elements f.name) × BlocksFit f) × AllFit fs

-- A message that may reach the model.
abbrev pub IsSafe : Received → Type 0
IsSafe (index files) = AllFit files
IsSafe (index_update files) = AllFit files
IsSafe (request name size) =
    AllNormal (elements name) × ((n : ℕ) × (size ≡ pos n) × (n ≤ max_request_size))
IsSafe (close reason) = ⊥
IsSafe _ = Unit

abbrev pub AllSafe : List Received → Type 0
AllSafe [] = Unit
AllSafe (m ∷ ms) = IsSafe m × AllSafe ms

-- A connection that is not ready yet begins with a cluster configuration.
abbrev pub Begins : Bool → List Received → Type 0
Begins true ms = Unit
Begins false [] = Unit
Begins false (m ∷ ms) = m ≡ cluster_config

module _ (clean : Text → Text) (is_clean : IsClean clean) where
  info-Fit :
      (f : FileInfo)
      → check_file_info_consistency clean f ≡ none
      → AllNormal (elements f.name) × BlocksFit f
  unfolding check_file_info_consistency
  info-Fit f h = by_name (check_filename clean f.name) refl h
    where
      by_name :
          (o : Option CheckError)
          → check_filename clean f.name ≡ o
          → (elim o [ some e ↦ some e | none ↦ check_blocks f ]) ≡ none
          → AllNormal (elements f.name) × BlocksFit f
      by_name none is h =
          (check_filename-AllNormal clean is_clean f.name is, check_blocks-BlocksFit f h)
      by_name (some e) is h = cc

  index-AllFit : (fs : List FileInfo) → check_index_consistency clean fs ≡ none → AllFit fs
  unfolding check_index_consistency
  index-AllFit [] h = tt
  index-AllFit (f ∷ fs) h = elim (Option-cases (check_file_info_consistency clean f)) [
    | inl fits ↦ (info-Fit f fits, index-AllFit fs (rw (fits, check_index_consistency) at h))
    | inr (e, wrong) ↦ let bad = rw (wrong, check_index_consistency) at h in cc
  ]

  request-IsSafe :
      (name : Text) (size : ℤ) (o : Option CheckError)
      → check_filename clean name ≡ o
      → check_request o size ≡ handle
      → IsSafe (request name size)
  request-IsSafe name (pos n) none is h =
      (check_filename-AllNormal clean is_clean name is, (n, refl, ground (arith, h)))
  request-IsSafe name (negsuc n) none is h = cc
  request-IsSafe name size (some e) is h = cc

  refused_none : (o : Option CheckError) → refuse_inconsistent o ≡ handle → o ≡ none
  refused_none none h = refl
  refused_none (some e) h = cc

  pub body-IsSafe : (m : Received) → check_body clean m ≡ handle → IsSafe m
  unfolding check_body
  body-IsSafe (index files) h = index-AllFit files (refused_none _ h)
  body-IsSafe (index_update files) h = index-AllFit files (refused_none _ h)
  body-IsSafe (request name size) h = request-IsSafe name size (check_filename clean name) refl h
  body-IsSafe (close reason) h = cc
  body-IsSafe cluster_config h = tt
  body-IsSafe (response id) h = tt
  body-IsSafe (download_progress names) h = tt
  body-IsSafe ping h = tt
