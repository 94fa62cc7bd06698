-- ===== src/DataModel/Transactions.antt =====
-- data_model.c: building a transaction.
pub mod Params
use tr181_xpon.Base.{
  ℕ, Bool, true, false, ◌&&◌, Option, none, some, List, [], ◌∷◌, ◌++◌, Text, codes, length,
  strncmp_eq, percent_d, ◌==◌, if◌then◌else◌,
}
use tr181_xpon.Amxc.{Variants, VarId, var_id_eq}
use tr181_xpon.Amxd.{Amxd, Action, add_inst, set_param, Transaction}
use tr181_xpon.DmInfo.{
  ObjectId, ParamInfo, dm_get_object_info, dm_get_object_param_info, enable_param,
}
use tr181_xpon.Persistency.{persistency_is_enabled}
use tr181_xpon.RestoreToHal.{Rth, rth_schedule_enable}
use tr181_xpon.World.{Env, World}

-- The inner loop of add_params_to_transaction.
unfoldable pub find_param : Text → List ParamInfo → Option ParamInfo
find_param key [] = none
find_param key (info ∷ infos) =
    let rest = find_param key infos in
    if strncmp_eq key info.name (length key) && (length key == length info.name)
    then some info
    else rest

-- The path of an instance, "%s.%d".
abbrev pub instance_path : Text → ℕ → Text
instance_path path index = path ++ (b'.' ∷ percent_d index)

module _ {V : Variants} (A : Amxd V) (s : A.Store) where
  open V use {Var}

  abbrev pub append : Transaction Var → Action Var → Option (Transaction Var)
  append t a =
      if A.can_append s t a then some (record t { actions = t.actions ++ (a ∷ []) }) else none

  -- A failure to append is only logged.
  abbrev pub append_if_possible : Transaction Var → Action Var → Transaction Var
  append_if_possible t a =
      if A.can_append s t a then record t { actions = t.actions ++ (a ∷ []) } else t

  -- One round of the loop of add_params_to_transaction.
  unfoldable pub add_param : Var → List ParamInfo → Text → Transaction Var → Transaction Var
  add_param params infos key t = elim (find_param key infos) [
    | none ↦ t
    | some info ↦ elim (V.get_key params key) [
      | none ↦ t
      | some value ↦
          if var_id_eq (V.type_of value) info.var_type
          then append_if_possible t (set_param key value)
          else t
    ]
  ]

  unfoldable pub add_params : Var → List ParamInfo → List Text → Transaction Var → Transaction Var
  add_params params infos [] t = t
  add_params params infos (key ∷ keys) t =
      add_params params infos keys (add_param params infos key t)

  -- The transaction afterwards; the result of the function is never looked at.
  unfoldable pub add_params_to_transaction :
      Transaction Var → Option Var → ObjectId → Transaction Var
  add_params_to_transaction t params id = elim params [
    | none ↦ t
    | some params ↦ elim (V.htable_keys params) [
      | none ↦ t
      | some keys ↦ elim (dm_get_object_param_info id) [
        | none ↦ t
        | some (infos, n_params) ↦ add_params params infos keys t
      ]
    ]
  ]

module _ (E : Env) (w : World E) where
  -- The transaction and the list of restore_to_hal.c afterwards.
  unfoldable pub update_enable :
      Transaction E.variants.Var → Text → ℕ → Transaction E.variants.Var × Rth
  update_enable t path index =
      if index == 0
      then (t, w.rth)
      else if persistency_is_enabled E.s_storage_dir (instance_path path index) w.disk
      then (
        append_if_possible E.amxd w.store t (set_param enable_param (E.variants.of_bool true)),
        rth_schedule_enable E.allocates (instance_path path index) w.rth,
      )
      else (t, w.rth)
