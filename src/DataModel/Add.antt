-- ===== src/DataModel/Add.antt =====
-- data_model.c: adding an instance.
pub mod Atomic
pub mod Exact
use tr181_xpon.Base.{
  ℕ, Bool, true, false, Option, none, some, List, [], ◌∷◌, ◌++◌, Text, codes, ◌==◌, if◌then◌else◌,
  is_some,
}
use tr181_xpon.Amxd.{Amxd, Action, add_inst, set_param, Transaction}
use tr181_xpon.DmInfo.{ObjectId, onu, ani, ObjectInfo, dm_get_object_info}
use tr181_xpon.World.{Env, World}
use tr181_xpon.DataModel.Reads.{dm_does_instance_exist}
use tr181_xpon.DataModel.Args.{
  ActionInfo, process_args_common, process_add_instance_args, add_or_change_inst_args_required,
}
use tr181_xpon.DataModel.Transactions.{
  append, instance_path, add_params_to_transaction, update_enable,
}
use tr181_xpon.DataModel.Change.{
  Var, apply, onu_priv_attach_private_data, passwd_restore_password, dm_change_object,
}

module _ (E : Env) where
  -- The template object; none if the function returns false.
  unfoldable pub prepare_adding_instance : Text → ℕ → E.amxd.Store → Option Text
  prepare_adding_instance path index s = elim (E.amxd.find s path) [
    | none ↦ none
    | some templ ↦
        if E.amxd.is_template s templ
        then if is_some (E.amxd.get_instance s templ index) then none else some templ
        else none
  ]

  unfoldable pub add_private_data_to_onu : Text → ℕ → World E → World E
  add_private_data_to_onu path index w = elim (E.amxd.find w.store path) [
    | none ↦ w
    | some templ ↦ elim (E.amxd.get_instance w.store templ index) [
      | none ↦ w
      | some obj ↦ onu_priv_attach_private_data obj w
    ]
  ]

  -- The transaction up to the value of the key.
  unfoldable pub begin_adding :
      E.amxd.Store → Text → Text → ℕ → Var E → Option (Transaction (Var E))
  begin_adding s templ key_name index key_value =
      if E.amxd.can_select s templ
      then elim (append E.amxd s (record { object = templ; actions = [] }) (add_inst index)) [
        | none ↦ none
        | some t ↦ append E.amxd s t (set_param key_name key_value)
      ]
      else none

  -- What happens after the transaction has been applied.
  unfoldable pub after_adding : ObjectId → Text → ℕ → World E → World E
  after_adding onu path index w = add_private_data_to_onu path index w
  after_adding ani path index w = passwd_restore_password E (instance_path path index) w
  after_adding _ path index w = w

  unfoldable pub apply_adding :
      ObjectInfo → ActionInfo (Var E) → Transaction (Var E) → World E → Bool × World E
  apply_adding obj_info info t w =
      let t' = add_params_to_transaction E.amxd w.store t info.params info.obj_id in
      let (t'', rth) =
        if obj_info.has_rw_enable then update_enable E w t' info.path info.index else (t', w.rth) in
      let (ok, w') = apply E t'' (record w { rth = rth }) in
      if ok then (true, after_adding obj_info.id info.path info.index w') else (false, w')

  -- A template object has a key; without a value for it nothing is added.
  unfoldable pub add_instance : ActionInfo (Var E) → World E → Bool × World E
  unfolding apply_adding begin_adding prepare_adding_instance
  add_instance info w = elim (dm_get_object_info info.obj_id) [
    | none ↦ (false, w)
    | some obj_info ↦ elim (prepare_adding_instance info.path info.index w.store) [
      | none ↦ (false, w)
      | some templ ↦ elim (obj_info.key_name) [
        | none ↦ (false, w)
        | some key_name ↦ elim (info.key_value) [
          | none ↦ (false, w)
          | some key_value ↦ elim (begin_adding w.store templ key_name info.index key_value) [
            | none ↦ (false, w)
            | some t ↦ apply_adding obj_info info t w
          ]
        ]
      ]
    ]
  ]

  -- Whether 0 is returned, and the state afterwards.
  unfoldable pub dm_add_instance : Option (Var E) → World E → Bool × World E
  dm_add_instance args w = elim (process_add_instance_args E.strings E.variants args) [
    | none ↦ (false, w)
    | some info ↦ add_instance info w
  ]

  unfoldable pub dm_add_or_change_instance_impl : Option (Var E) → World E → Bool × World E
  dm_add_or_change_instance_impl args w =
      elim (process_args_common E.strings E.variants args add_or_change_inst_args_required) [
        | none ↦ (false, w)
        | some info ↦
            if dm_does_instance_exist E.amxd w.store info.path info.index
            then dm_change_object E args w
            else dm_add_instance args w
      ]
