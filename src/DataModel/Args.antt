-- ===== src/DataModel/Args.antt =====
-- data_model.c: the arguments that the vendor module passes.
pub mod Target
use tr181_xpon.Base.{
  ℕ, Bool, true, false, ◌&&◌, not, Option, none, some, List, [], ◌∷◌, Text, codes, strncmp_eq, ltb,
  ◌==◌, if◌then◌else◌,
}
use tr181_xpon.Amxc.{Strings, Variants, id_htable, var_id_eq, contains_key, get_char, get_uint32}
use tr181_xpon.DmInfo.{
  ObjectId, unknown, ObjectInfo, dm_get_object_id, dm_get_object_info, name_param,
}

pub record ActionInfo (Var : Type 0) : Type 0 where
  pub path : Text
  pub index : ℕ
  pub obj_id : ObjectId
  pub key_value : Option Var
  pub params : Option Var

abbrev pub add_inst_params_required : List Text
add_inst_params_required = codes "path" ∷ codes "index" ∷ codes "keys" ∷ []

abbrev pub remove_inst_args_required : List Text
remove_inst_args_required = codes "path" ∷ codes "index" ∷ []

abbrev pub change_obj_args_required : List Text
change_obj_args_required = codes "path" ∷ codes "parameters" ∷ []

abbrev pub add_or_change_inst_args_required : List Text
add_or_change_inst_args_required = codes "path" ∷ codes "index" ∷ []

abbrev pub is_unknown : ObjectId → Bool
is_unknown unknown = true
is_unknown _ = false

module _ (S : Strings) (V : Variants) where
  open V use {Var}

  -- What *params is set to; none if the function returns false.
  unfoldable pub get_ref_to_params : Var → Option Var
  get_ref_to_params args = elim (V.get_key args (codes "parameters")) [
    | none ↦ none
    | some params ↦ if var_id_eq id_htable (V.type_of params) then some params else none
  ]

  -- The loop over the required keys, from the index found so far; none if it jumps to exit.
  unfoldable pub check_required : Var → List Text → ℕ → List Text → Option ℕ
  check_required args present index [] = some index
  check_required args present index (key ∷ keys) =
      if contains_key present key
      then if (index == 0) && strncmp_eq key (codes "index") 5
        then if get_uint32 V args (codes "index") == 0
          then none
          else check_required args present (get_uint32 V args (codes "index")) keys
        else check_required args present index keys
      else none

  -- The index even if it is not required.
  abbrev pub optional_index : Var → List Text → ℕ → ℕ
  optional_index args present index =
      if (index == 0) && contains_key present (codes "index")
      then get_uint32 V args (codes "index")
      else index

  abbrev pub optional_params : Var → List Text → Option Var
  optional_params args present =
      if contains_key present (codes "parameters") then get_ref_to_params args else none

  unfoldable pub process_htable : Var → List Text → List Text → Option (ActionInfo Var)
  unfolding check_required get_ref_to_params
  process_htable args present keys_required = elim (check_required args present 0 keys_required) [
    | none ↦ none
    | some index ↦ elim (get_char V args (codes "path")) [
      | none ↦ none
      | some path ↦
          if is_unknown (dm_get_object_id S path)
          then none
          else some (record {
            path = path;
            index = optional_index args present index;
            obj_id = dm_get_object_id S path;
            key_value = none;
            params = optional_params args present;
          })
    ]
  ]

  unfoldable pub process_args_common : Option Var → List Text → Option (ActionInfo Var)
  unfolding process_htable
  process_args_common args keys_required = elim args [
    | none ↦ none
    | some args ↦ elim (V.htable_keys args) [
      | none ↦ none
      | some present ↦ process_htable args present keys_required
    ]
  ]

  abbrev pub process_remove_instance_args : Option Var → Option (ActionInfo Var)
  process_remove_instance_args args = process_args_common args remove_inst_args_required

  -- The check of the key's value: a uint32_t may not be over its maximum. Nothing is found for
  -- the key NULL of a singleton.
  unfoldable pub find_key_value : ObjectInfo → Var → Option Var
  find_key_value info keys_var =
      if var_id_eq id_htable (V.type_of keys_var)
      then elim (info.key_name) [
        | none ↦ none
        | some key_name ↦ elim (V.get_key keys_var key_name) [
          | none ↦ none
          | some key_value ↦
              if not (strncmp_eq key_name name_param 4)
                && ltb info.key_max_value (V.constcast_uint32 key_value)
              then none
              else some key_value
        ]
      ]
      else none

  unfoldable pub process_add_instance_args : Option Var → Option (ActionInfo Var)
  process_add_instance_args args = elim args [
    | none ↦ none
    | some v ↦ elim (process_args_common (some v) add_inst_params_required) [
      | none ↦ none
      | some info ↦ elim (dm_get_object_info info.obj_id) [
        | none ↦ none
        | some obj_info ↦ elim (V.get_key v (codes "keys")) [
          | none ↦ none
          | some keys_var ↦ elim (find_key_value obj_info keys_var) [
            | none ↦ none
            | some key_value ↦ some (record info { key_value = some key_value })
          ]
        ]
      ]
    ]
  ]
