-- ===== src/DmInfo/Paths.antt =====
-- dm_info.c: which paths have which object ID, and what the table says of it.
use mathlib.Core.Option.{some-injective}
use tr181_xpon.Base.{
  ◌≡◌, refl, ◌≢◌, ◌↔◌, ◌⊎◌, inl, inr, ap, subst, sym, ◌∙◌, ◌&&◌, Option, none, some, List, [], ◌∷◌,
  Text, length, strncmp_eq, same_path→eq, ◌==◌, Option-cases, Bool-cases,
}
use tr181_xpon.Amxc.{Strings}
use tr181_xpon.DmInfo.Table.{ObjectId, ObjectInfo, object_info, unknown}
use tr181_xpon.DmInfo.Lookup.{
  dm_get_object_info, find_generic_path, dm_convert_to_generic_path, dm_get_object_id,
}

-- Every entry stands at the index that is its ID.
abbrev IsOwnEntry : ObjectInfo → Type 0
IsOwnEntry info = dm_get_object_info info.id ≡ some info

abbrev All {ℓ κ} : {A : Type ℓ} → (A → Type κ) → List A → Type κ
All P [] = Unit
All P (x ∷ xs) = P x × All P xs

object_info-IsOwnEntry : All IsOwnEntry object_info
unfolding object_info dm_get_object_info
object_info-IsOwnEntry =
    (refl, (refl, (refl, (refl, (refl, (refl, (refl, (refl, (refl, (refl, tt))))))))))

find_sound :
    (path : Text) (l : List ObjectInfo)
    → All IsOwnEntry l
    → (find_generic_path path l ≡ unknown)
      ⊎ ((info : ObjectInfo) × IsOwnEntry info
          × (find_generic_path path l ≡ info.id)
          × (path ≡ info.generic_path))
unfolding find_generic_path
find_sound path [] own = inl refl
find_sound path (info ∷ rest) own =
    elim (Bool-cases (
      (length path == length info.generic_path)
      && strncmp_eq path info.generic_path (length info.generic_path))) [
        | inl same ↦ inr (info, own.0, rw same, same_path→eq path info.generic_path same)
        | inr differ ↦ rw differ (find_sound path rest own.1)
      ]

-- The entry of an ID is what the search for its generic path finds.
abbrev IsFound : ObjectId → Option ObjectInfo → Type 0
IsFound id none = Unit
IsFound id (some info) = find_generic_path info.generic_path object_info ≡ id

found : (id : ObjectId) → IsFound id (dm_get_object_info id)
unfolding dm_get_object_info find_generic_path
found unknown = tt
found _ = refl

unknown_none :
    (id : ObjectId) {info : ObjectInfo} → dm_get_object_info id ≡ some info → id ≢ unknown
unfolding dm_get_object_info
unknown_none id h e = cc (ap dm_get_object_info e)

find_generic_path_iff :
    (id : ObjectId) (info : ObjectInfo) (generic : Text)
    → dm_get_object_info id ≡ some info
    → (find_generic_path generic object_info ≡ id) ↔ (generic ≡ info.generic_path)
find_generic_path_iff id info generic own = (
  λ h. elim (find_sound generic object_info object_info-IsOwnEntry) [
    | inl u ↦ absurd (unknown_none id own (sym h ∙ u))
    | inr (other, theirs, e, same) ↦
        let one : other ≡ info =
          some-injective _ _ (sym theirs ∙ ap dm_get_object_info (sym e ∙ h) ∙ own) in
        same ∙ ap (λ i. i.generic_path) one
  ],
  λ h. ap (λ t. find_generic_path t object_info) h ∙ found_entry,
)
  where
    found_entry : find_generic_path info.generic_path object_info ≡ id
    found_entry = subst (IsFound id) own (found id)

module _ (S : Strings) where
  -- For an object of the table, a path has its ID exactly when the generic path made from it
  -- is that of the table.
  pub dm_get_object_id_iff :
      (id : ObjectId) (info : ObjectInfo) (path : Text)
      → dm_get_object_info id ≡ some info
      → (dm_get_object_id S path ≡ id)
        ↔ (dm_convert_to_generic_path S path ≡ some info.generic_path)
  unfolding dm_get_object_id
  dm_get_object_id_iff id info path own = elim (Option-cases (dm_convert_to_generic_path S path)) [
    | inl failed ↦
        rw (failed, dm_get_object_id) (λ h. absurd (unknown_none id own (sym h)), λ h. cc)
    | inr (generic, e) ↦
        rw (e, dm_get_object_id)
          (
            λ h. ap some ((find_generic_path_iff id info generic own).0 h),
            λ h. (find_generic_path_iff id info generic own).1 (some-injective _ _ h),
          )
  ]
