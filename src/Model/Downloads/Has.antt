-- ===== src/Model/Downloads/Has.antt =====
-- lib/model/devicedownloadstate.go: `Has` after `Update`.
use syncthing_mem.Base.{
  ℕ, ◌≡◌, refl, ap, sym, ◌∙◌, inl, inr, Bool, true, false, ◌||◌, Option, none, some, List, [], ◌∷◌,
  ◌++◌, ◌==◌, Bool-cases, Text, text_eq, look, look-put, look-delete, look-put_other,
  look-delete_other,
}
use syncthing_mem.Protocol.Vector.{
  Vector, Ordering, compare, is_equal, equal, greater, lesser, concurrent_greater,
  concurrent_lesser,
}
use syncthing_mem.Protocol.Vector.Compare.{converse, compare-converse}
use syncthing_mem.Model.Downloads.{
  FileState, FolderState, ProgressUpdate, append, forget, unknown, contains, has, has_block,
  appended, forgotten, update_by, update_one, UpdateType,
}

own_converse : (o : Ordering) → o ≡ converse o → o ≡ equal
own_converse equal h = refl
own_converse greater h = cc
own_converse lesser h = cc
own_converse concurrent_greater h = cc
own_converse concurrent_lesser h = cc

pub is_equal_refl : (v : Vector) → is_equal v v ≡ true
unfolding is_equal
is_equal_refl v = rw (own_converse (compare v v) (compare-converse v v), is_equal)

abbrev says_equal : Ordering → Bool
says_equal o = elim o [ equal ↦ true | _ ↦ false ]

equal_converse : (o : Ordering) → says_equal (converse o) ≡ says_equal o
equal_converse equal = refl
equal_converse greater = refl
equal_converse lesser = refl
equal_converse concurrent_greater = refl
equal_converse concurrent_lesser = refl

pub is_equal_comm : (v w : Vector) → is_equal w v ≡ is_equal v w
unfolding is_equal
is_equal_comm v w = ap says_equal (compare-converse v w) ∙ equal_converse (compare v w)

or_false : (b : Bool) → (b || false) ≡ b
or_false true = refl
or_false false = refl

contains-append :
    (xs ys : List ℕ) (i : ℕ) → contains (xs ++ ys) i ≡ (contains ys i || contains xs i)
unfolding contains
contains-append [] ys i = elim (Bool-cases (contains ys i)) [ inl e ↦ rw e | inr e ↦ rw e ]
contains-append (x ∷ xs) ys i = elim (Bool-cases (x == i)) [
  | inl e ↦ elim (Bool-cases (contains ys i)) [ inl f ↦ rw (e, f) | inr f ↦ rw (e, f) ]
  | inr e ↦ rw e (contains-append xs ys i)
]

-- What `Has` is to say of a block of the update's file and version: whether the update names it, and
-- whether it was there.
abbrev pub expected : UpdateType → Bool → Bool → Bool
expected append named before = named || before
expected forget named before = false
expected unknown named before = before

has_block-appended :
    (update : ProgressUpdate) (index : ℕ) (o : Option FileState)
    → has_block update.version index (some (appended update o))
      ≡ (contains update.block_indexes index || has_block update.version index o)
unfolding has_block appended
has_block-appended update index none =
    rw (is_equal_refl update.version) (sym (or_false (contains update.block_indexes index)))
has_block-appended update index (some local) =
    elim (Bool-cases (is_equal local.version update.version)) [
      | inl same ↦ rw (same, same) (contains-append local.block_indexes update.block_indexes index)
      | inr other ↦
          rw (other, is_equal_refl update.version)
            (sym (or_false (contains update.block_indexes index)))
    ]

has-forgotten :
    (update : ProgressUpdate) (index : ℕ) (p : FolderState) (o : Option FileState)
    → look update.name p ≡ o
    → has_block update.version index (look update.name (forgotten update o p)) ≡ false
unfolding has_block forgotten
has-forgotten update index p none e = rw e
has-forgotten update index p (some local) e =
    elim (Bool-cases (is_equal local.version update.version)) [
      | inl same ↦ rw (same, look-delete update.name p)
      | inr other ↦ rw (other, e, other)
    ]

-- What `Has` says of the update's file and version after one update: an update that appends adds
-- its blocks to those that were there, one that forgets leaves none, and one of any other type
-- changes nothing.
pub has-update_one :
    (update : ProgressUpdate) (index : ℕ) (p : FolderState)
    → has update.name update.version index (update_one update p)
      ≡ expected update.update_type
          (contains update.block_indexes index)
          (has update.name update.version index p)
unfolding has update_one update_by
has-update_one update index p = by_type update.update_type
  where
    by_type :
        (t : UpdateType)
        → has update.name update.version index (update_by t update p)
          ≡ expected t
              (contains update.block_indexes index)
              (has update.name update.version index p)
    by_type append =
        ap (has_block update.version index)
          (look-put update.name (appended update (look update.name p)) p)
        ∙ has_block-appended update index (look update.name p)
    by_type forget = has-forgotten update index p (look update.name p) refl
    by_type unknown = refl

pub look-update_one_other :
    (update : ProgressUpdate) (file : Text) (p : FolderState)
    → text_eq update.name file ≡ false
    → look file (update_one update p) ≡ look file p
unfolding update_one update_by forgotten
look-update_one_other update file p h = by_type update.update_type
  where
    forgets : (o : Option FileState) → look file (forgotten update o p) ≡ look file p
    forgets none = refl
    forgets (some local) = elim (Bool-cases (is_equal local.version update.version)) [
      | inl same ↦ rw same (look-delete_other update.name file p h)
      | inr other ↦ rw other
    ]

    by_type : (t : UpdateType) → look file (update_by t update p) ≡ look file p
    by_type append = look-put_other update.name file (appended update (look update.name p)) p h
    by_type forget = forgets (look update.name p)
    by_type unknown = refl

-- An update does not change what `Has` says of other files.
has-update_one_other :
    (update : ProgressUpdate) (file : Text) (version : Vector) (index : ℕ) (p : FolderState)
    → text_eq update.name file ≡ false
    → has file version index (update_one update p) ≡ has file version index p
unfolding has
has-update_one_other update file version index p h =
    ap (has_block version index) (look-update_one_other update file p h)
