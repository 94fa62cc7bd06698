-- ===== src/DmActions/Defs.antt =====
-- The functions of dm_actions.c.
use tr181_xpon.Base.{
  ℕ, ◌-◌, ltb, ◌==◌, Bool, true, false, Option, none, some, Text, codes, length, if◌then◌else◌,
}
use tr181_xpon.Amxc.{Variants}
use tr181_xpon.Ani.{ani_strip_tc_authentication}
use tr181_xpon.Password.{passwd_check_password}
use tr181_xpon.World.{Env, World, object_intf_priv, put_priv}
use tr181_xpon.ObjectIntfPriv.{time_get_system_uptime}
use tr181_xpon.PonCtrl.{Vendor, pon_ctrl_get_param_values}
use tr181_xpon.DataModel.Change.{Var}

-- The values of amxd_status_t that the file names, and the rest.
pub data Status : Type 0 where
  status_ok unknown_error invalid_function_argument function_not_implemented : Status
  invalid_value invalid_action : Status
  other_status : ℕ → Status

-- The values of amxd_action_t that the file names, and the rest.
pub data ActionId : Type 0 where
  action_param_read action_param_validate action_object_destroy other_action : ActionId

abbrev pub is_ok : Status → Bool
is_ok status_ok = true
is_ok _ = false

-- What *retval is set to; none if the function returns false.
unfoldable pub process_param_value : (V : Variants) → Text → V.Var → Option V.Var
process_param_value V param_name ret = elim (V.get_key ret (codes "parameters")) [
  | none ↦ none
  | some params ↦ V.get_key params param_name
]

module _ (E : Env) (vendor : Vendor E.variants) where
  abbrev asked : Text → Text → Status × Var E → World E → (Status × Var E) × World E
  asked path param_name standard w =
      let (answer, w') = pon_ctrl_get_param_values E vendor path param_name w in
      (
        elim answer [
          | none ↦ standard
          | some ret ↦ elim (process_param_value E.variants param_name ret) [
            | none ↦ standard
            | some value ↦ (status_ok, value)
          ]
        ],
        w',
      )

  -- _read_trx_param for an object, by its path, and a parameter. standard is what
  -- amxd_action_param_read returns, with the value that it puts into *retval.
  unfoldable pub read_trx_param :
      Status × Var E → Text → Text → World E → (Status × Var E) × World E
  read_trx_param standard object param_name w =
      if is_ok standard.0
      then if w.s_ignore_param_reads
        then (standard, w)
        else if E.amxd.is_template w.store object
        then (standard, w)
        else asked object param_name standard w
      else (standard, w)

  -- The status and the value for LastChange; no value if *retval is not set.
  unfoldable pub lastchange_on_read : ActionId → Option ℕ → Text → World E → Status × Option ℕ
  lastchange_on_read action_param_read sysinfo object w = elim (w.privs object) [
    | some (object_intf_priv last_change) ↦
        let uptime = time_get_system_uptime sysinfo in
        if ltb uptime last_change
        then (unknown_error, some 0)
        else (status_ok, some (uptime - last_change))
    | _ ↦ (unknown_error, some 0)
  ]
  lastchange_on_read reason sysinfo object w = (invalid_action, none)

  -- The private data are freed and the pointer to them is reset.
  unfoldable pub object_destroyed_common : Text → ActionId → World E → Status × World E
  object_destroyed_common object action_object_destroy w = elim (w.privs object) [
    | none ↦ (unknown_error, w)
    | some p ↦ (status_ok, record w { privs = put_priv w.privs object none })
  ]
  object_destroyed_common object reason w = (invalid_action, w)

  unfoldable pub onu_destroyed : Text → ActionId → World E → Status × World E
  unfolding object_destroyed_common
  onu_destroyed object reason w = object_destroyed_common object reason w

  unfoldable pub interface_object_destroyed : Text → ActionId → World E → Status × World E
  unfolding object_destroyed_common
  interface_object_destroyed object reason w = object_destroyed_common object reason w

  -- The argument is the text of *args, or none.
  unfoldable pub check_password : Text → ActionId → Option Text → World E → Status
  check_password path action_param_validate args w = elim args [
    | none ↦ unknown_error
    | some password ↦
        if length password == 0
        then status_ok
        else (let (stripped, ani_path) = ani_strip_tc_authentication E.strings path in
            if stripped
            then if passwd_check_password E.amxd w.store ani_path password
              then status_ok
              else invalid_value
            else unknown_error)
  ]
  check_password path reason args w = function_not_implemented
