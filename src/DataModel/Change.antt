-- ===== src/DataModel/Change.antt =====
-- data_model.c: updating an object, and the parts of password.c and onu_priv.c that this
-- involves.
pub mod Once
pub mod Typed
pub mod Applied
use tr181_xpon.Base.{
  ℕ, Bool, true, false, Option, none, some, List, [], ◌∷◌, ◌++◌, Text, codes, length, ◌==◌,
  if◌then◌else◌, is_some,
}
use tr181_xpon.Amxc.{Variants}
use tr181_xpon.Amxd.{Amxd, Action, Transaction}
use tr181_xpon.DmInfo.{ObjectId, onu}
use tr181_xpon.RestoreToHal.{is_onu}
use tr181_xpon.Ani.{ani_append_tc_authentication}
use tr181_xpon.UpgradePersistency.{Saved, upgr_persistency_get_password}
use tr181_xpon.World.{Env, World, Priv, onu_priv, put_priv}
use tr181_xpon.DataModel.Args.{ActionInfo, process_args_common, change_obj_args_required}
use tr181_xpon.DataModel.Transactions.{instance_path, add_params_to_transaction, update_enable}

-- onu_priv_attach_private_data: an object that has private data keeps it.
unfoldable pub onu_priv_attach_private_data : {E : Env} → Text → World E → World E
onu_priv_attach_private_data object w = elim (w.privs object) [
  | none ↦ record w { privs = put_priv w.privs object (some onu_priv) }
  | some p ↦ w
]

module _ (E : Env) where
  abbrev pub Var : Type 0
  Var = E.variants.Var

  -- amxd_trans_apply, and whether it succeeds.
  abbrev pub apply : Transaction Var → World E → Bool × World E
  apply t w = elim (E.amxd.apply w.s_ignore_param_reads w.store t) [
    | none ↦ (false, w)
    | some store ↦ (true, record w { store = store })
  ]

  -- Attach private data to an ONU that has none, and look up whether it is enabled.
  unfoldable pub restore_onu_enable :
      Text → ActionInfo Var → Transaction Var → World E → Transaction Var × World E
  restore_onu_enable object info t w = elim (w.privs object) [
    | none ↦
        let w' = onu_priv_attach_private_data object w in
        let (t', rth) = update_enable E w' t info.path info.index in (t', record w' { rth = rth })
    | some p ↦ (t, w)
  ]

  abbrev pub target_path : ActionInfo Var → Text
  target_path info = if info.index == 0 then info.path else instance_path info.path info.index

  unfoldable pub change_found : Text → ActionInfo Var → World E → Bool × World E
  change_found object info w =
      if E.amxd.can_select w.store object
      then (let t : Transaction Var = record { object = object; actions = [] } in
          let t' = add_params_to_transaction E.amxd w.store t info.params info.obj_id in
          if is_onu info.obj_id
          then (let (t'', w') = restore_onu_enable object info t' w in apply t'' w')
          else apply t' w)
      else (false, w)

  -- Whether 0 is returned, and the state afterwards.
  unfoldable pub dm_change_object : Option Var → World E → Bool × World E
  unfolding change_found
  dm_change_object args w =
      elim (process_args_common E.strings E.variants args change_obj_args_required) [
        | none ↦ (false, w)
        | some info ↦ elim (E.amxd.find w.store (target_path info)) [
          | none ↦ (true, w)
          | some object ↦ change_found object info w
        ]
      ]

  -- The parameters in the arguments that update_password_in_dm makes, as they are in the end;
  -- none if one cannot be added.
  abbrev password_params : Text → Bool → Option Var
  password_params password hex =
      let V = E.variants in
      elim (V.new_htable) [
        | none ↦ none
        | some empty ↦ elim (V.add_key empty (codes "Password") (V.of_cstring password)) [
          | none ↦ none
          | some params ↦
              if hex
              then V.add_key params (codes "HexadecimalPassword") (V.of_bool true)
              else some params
        ]
      ]

  -- The arguments that update_password_in_dm makes; none if it jumps to exit.
  abbrev pub password_args : Text → Text → Bool → Option Var
  password_args ani_path password hex =
      let V = E.variants in
      elim (V.new_htable) [
        | none ↦ none
        | some args ↦
            elim (V.add_key args (codes "path")
              (V.of_cstring (ani_append_tc_authentication ani_path))) [
                | none ↦ none
                | some args' ↦ elim (password_params password hex) [
                  | none ↦ none
                  | some params ↦ V.add_key args' (codes "parameters") params
                ]
              ]
      ]

  unfoldable pub update_password_in_dm : Text → Text → Bool → World E → World E
  update_password_in_dm ani_path password hex w = elim (password_args ani_path password hex) [
    | none ↦ w
    | some args ↦ (dm_change_object (some args) w).1
  ]

  abbrev restore_saved : Text → Saved → World E → World E
  restore_saved ani_path saved w =
      if saved.rv
      then if length saved.password == 0
        then w
        else update_password_in_dm ani_path saved.password saved.hex w
      else w

  unfoldable pub passwd_restore_password : Text → World E → World E
  passwd_restore_password ani_path w =
      restore_saved ani_path
        (upgr_persistency_get_password E.faults E.s_upgr_storage_dir ani_path [] false w.disk) w
