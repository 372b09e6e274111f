-- ===== src/Database/Global/Local.antt =====
-- internal/db/sqlite/folderdb_update.go, `recalcGlobalForFile`: when the local device has the global row.
use mathlib.Core.Path.{subst}
use syncthing_mem.Base.{
  ℕ, suc, ◌≤◌, ◌≡◌, ◌↔◌, ◌⊎◌, refl, sym, ap, ◌∙◌, inl, inr, Bool, true, false, ◌&&◌, ◌||◌, Option,
  none, some, List, [], ◌∷◌, ◌++◌, length, get_elem?, leb, leb→le, ◌==◌, if_ind, arith, Bool-cases,
}
use syncthing_mem.Protocol.Vector.{is_equal}
use syncthing_mem.Database.Rows.{Row}
use syncthing_mem.Database.Global.{
  Choice, global_index, index_func, at_most, same_version, local_row, is_none, choose,
}
use syncthing_mem.Database.Global.Sort.{All}

abbrev pub NoneLocal : ℕ → List Row → Type 0
NoneLocal device rows = All (λ (e : Row). (e.device_idx == device) ≡ false) rows

-- What it is for a device to have the global row, among the rows of the file in their order: its
-- first row stands at the place of the global row or before it, or is of the same version; or it has
-- no row, and the global row is that of a deleted file.
abbrev pub DeviceHas : ℕ → List Row → Row → Type 0
DeviceHas device es global =
    ((before : List Row) × (e : Row) × (after : List Row) × (es ≡ before ++ e ∷ after)
      × NoneLocal device before
      × ((e.device_idx == device) ≡ true)
      × ((length before ≤ global_index es) ⊎ (is_equal e.version global.version ≡ true)))
    ⊎ (NoneLocal device es × (global.deleted ≡ true))

-- Where the first row of a device stands, if it has one.
abbrev Found : ℕ → List Row → Option ℕ → Type 0
Found device es none = NoneLocal device es
Found device es (some i) =
    (before : List Row) × (e : Row) × (after : List Row) × (es ≡ before ++ e ∷ after)
    × NoneLocal device before
    × ((e.device_idx == device) ≡ true)
    × (length before ≡ i)
    × (get_elem? es i ≡ some e)

Found-cons :
    (device : ℕ) (x : Row) (es : List Row) (o : Option ℕ)
    → (x.device_idx == device) ≡ false
    → Found device es o
    → Found device (x ∷ es) (elim o [ none ↦ none | some i ↦ some (suc i) ])
Found-cons device x es none other h = (other, h)
Found-cons device x es (some i) other (before, e, after, is, before_none, own, at, got) =
    (x ∷ before, e, after, ap (λ l. x ∷ l) is, (other, before_none), own, ap suc at, got)

index_func-Found :
    (device : ℕ) (es : List Row)
    → Found device es (index_func (λ (e : Row). e.device_idx == device) es)
unfolding index_func
index_func-Found device [] = tt
index_func-Found device (x ∷ es) =
    if_ind (Found device (x ∷ es)) (x.device_idx == device) _ _
      (λ own. ([], x, es, refl, tt, own, refl, refl))
      (λ other. Found-cons device x es _ other (index_func-Found device es))

same_head :
    (before before' : List Row) (e e' : Row) (after after' : List Row) (device : ℕ)
    → before ++ e ∷ after ≡ before' ++ e' ∷ after'
    → NoneLocal device before
    → NoneLocal device before'
    → (e.device_idx == device) ≡ true
    → (e'.device_idx == device) ≡ true
    → (length before ≡ length before') × (e ≡ e')
same_head [] [] e e' after after' device is b b' own own' = (refl, cc)
same_head [] (x ∷ before') e e' after after' device is b (apart, b') own own' =
    let same : e ≡ x = cc in absurd (let both = ap (λ (r : Row). r.device_idx == device) same in cc)
same_head (x ∷ before) [] e e' after after' device is (apart, b) b' own own' =
    let same : x ≡ e' = cc in
    absurd (let both = ap (λ (r : Row). r.device_idx == device) same in cc)
same_head (x ∷ before) (y ∷ before') e e' after after' device is (apart, b) (apart', b') own own' =
    let rest : before ++ e ∷ after ≡ before' ++ e' ∷ after' = cc in
    let (len, same) = same_head before before' e e' after after' device rest b b' own own' in
    (ap suc len, same)

none_in :
    (device : ℕ) (before : List Row) (e : Row) (after : List Row)
    → NoneLocal device (before ++ e ∷ after)
    → (e.device_idx == device) ≡ true
    → ⊥
none_in device [] e after (apart, _) own = cc
none_in device (x ∷ before) e after (_, h) own = none_in device before e after h own

le→leb : (a b : ℕ) → a ≤ b → leb a b ≡ true
le→leb a b h = ground arith

has_local_iff :
    (device : ℕ) (es : List Row) (global : Row) (o : Option ℕ)
    → Found device es o
    → ((at_most o (global_index es)
          || same_version global (local_row es o)
          || (is_none o && global.deleted))
        ≡ true)
      ↔ DeviceHas device es global
unfolding local_row
has_local_iff device es global none found = (
  λ h. inr (found, h),
  λ has. elim has [
    | inl (before, e, after, is, _, own, _) ↦
        absurd (none_in device before e after (subst (NoneLocal device) is found) own)
    | inr (_, gone) ↦ gone
  ],
)
has_local_iff device es global (some i) (before, e, after, is, before_none, own, at, got) = (
  λ h. inl (
    before,
    e,
    after,
    is,
    before_none,
    own,
    elim (Bool-cases (leb i (global_index es))) [
      | inl le ↦ inl (omega (arith, at, leb→le _ _ le))
      | inr gt ↦ inr (or_false _ (rw (gt, got) at h))
    ],
  ),
  λ has. elim has [
    | inr (no_row, _) ↦
        absurd (none_in device before e after (subst (NoneLocal device) is no_row) own)
    | inl (before', e', after', is', before_none', own', where_at) ↦
        let (len, same) =
          same_head before before' e e' after after' device (sym is ∙ is') before_none before_none'
            own own' in
        elim where_at [
          | inl le ↦ rw (le→leb i (global_index es) (omega (arith, at, len, le)))
          | inr version ↦ rw (got, same, version) (or_true (leb i (global_index es)))
        ]
  ],
)
  where
    or_true : (b : Bool) → (b || true || false) ≡ true
    or_true true = refl
    or_true false = refl

    or_false : (b : Bool) → (b || false) ≡ true → b ≡ true
    or_false true h = refl
    or_false false h = cc

pub choice-has_local :
    (device : ℕ) (es : List Row) (o : Option Row) (c : Choice)
    → elim o [ none ↦ none | some global ↦ some (choose device es global) ] ≡ some c
    → (c.has_local ≡ true) ↔ DeviceHas device es c.global
unfolding choose
choice-has_local device es none c e = cc
choice-has_local device es (some global) c e =
    let chosen : choose device es global ≡ c = cc in
    subst (λ (d : Choice). (d.has_local ≡ true) ↔ DeviceHas device es d.global) chosen
      (has_local_iff device es global (index_func (λ (x : Row). x.device_idx == device) es)
        (index_func-Found device es))
