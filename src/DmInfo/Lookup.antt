-- ===== src/DmInfo/Lookup.antt =====
-- The functions of dm_info.c.
use tr181_xpon.Base.{
  ℕ, suc, Bool, true, false, ◌&&◌, Option, none, some, List, [], ◌∷◌, map, Text, codes, length,
  strncmp_eq, ltb, ◌==◌, if◌then◌else◌,
}
use tr181_xpon.Amxc.{Strings}
use tr181_xpon.DmInfo.Params.{ParamInfo}
use tr181_xpon.DmInfo.Table.{ObjectId, ObjectInfo, object_id_value, object_id_nbr, object_info}

-- The loop of dm_info_init over the array, from index i.
ids_match : ℕ → List ObjectInfo → Bool
ids_match i [] = true
ids_match i (info ∷ rest) =
    let more = ids_match (suc i) rest in if object_id_value info.id == i then more else false

unfoldable pub dm_info_init : Bool
unfolding ids_match object_info
dm_info_init = ids_match 0 object_info

abbrev pub unsnoc {ℓ} : {A : Type ℓ} → List A → Option (List A × A)
unsnoc [] = none
unsnoc (x ∷ xs) = elim (unsnoc xs) [
  | none ↦ some ([], x)
  | some (front, last) ↦ some (x ∷ front, last)
]

-- OBJECT_INFO[i]
abbrev pub nth {ℓ} : {A : Type ℓ} → List A → ℕ → Option A
nth [] i = none
nth (x ∷ xs) ℕ.zero = some x
nth (x ∷ xs) (suc i) = nth xs i

-- The loop of dm_get_object_id: the first object whose generic path is the given one.
unfoldable pub find_generic_path : Text → List ObjectInfo → ObjectId
find_generic_path path [] = ObjectId.unknown
find_generic_path path (info ∷ rest) =
    let more = find_generic_path path rest in
    if (length path == length info.generic_path)
      && strncmp_eq path info.generic_path (length info.generic_path)
    then info.id
    else more

unfoldable pub dm_get_object_info : ObjectId → Option ObjectInfo
unfolding object_info
dm_get_object_info id =
    if ltb (object_id_value id) object_id_nbr then nth object_info (object_id_value id) else none

unfoldable pub dm_get_object_param_info : ObjectId → Option (List ParamInfo × ℕ)
unfolding object_info
dm_get_object_param_info id =
    if ltb (object_id_value id) object_id_nbr
    then elim (nth object_info (object_id_value id)) [
      | none ↦ none
      | some info ↦ some (info.params, length info.params)
    ]
    else none

module _ (S : Strings) where
  abbrev pub generic_part : Text → Text
  generic_part part = if S.is_numeric part then codes "x" else part

  -- The list without its last element if that is numeric.
  abbrev pub drop_numeric_last : List Text × Text → List Text → List Text
  drop_numeric_last (front, last) parts = if S.is_numeric last then front else parts

  unfoldable pub dm_convert_to_generic_path : Text → Option Text
  dm_convert_to_generic_path path = elim (S.split_to_llist path b'.') [
    | none ↦ none
    | some parts ↦ elim (unsnoc parts) [
      | none ↦ none
      | some ends ↦ S.join_llist (map generic_part (drop_numeric_last ends parts)) b'.'
    ]
  ]

  unfoldable pub dm_get_object_id : Text → ObjectId
  dm_get_object_id path = elim (dm_convert_to_generic_path path) [
    | none ↦ ObjectId.unknown
    | some generic_path ↦ find_generic_path generic_path object_info
  ]
