-- ===== src/DmActions/Reading.antt =====
-- dm_actions.c: when the vendor module is asked for a value, and which passwords are accepted.
use tr181_xpon.Base.{
  ◌≡◌, refl, true, not, ◌&&◌, some, [], ◌∷◌, ◌++◌, arith, Text, length, ◌==◌, if◌then◌else◌,
}
use tr181_xpon.Amxc.{IsLawful}
use tr181_xpon.Ani.{has_no_t, ani_append_tc_authentication, strip-append}
use tr181_xpon.Password.{passwd_check_password}
use tr181_xpon.World.{Env, World, get_param_values}
use tr181_xpon.PonCtrl.{Vendor, pon_ctrl_get_param_values}
use tr181_xpon.DataModel.Change.{Var}
use tr181_xpon.DmActions.{
  Status, status_ok, invalid_value, action_param_validate, is_ok, read_trx_param, check_password,
}

ok_lem : (status : Status) → is_ok status ≡ true → status ≡ status_ok
ok_lem status_ok h = refl
ok_lem _ h = cc

module _ (E : Env) (vendor : Vendor E.variants) where
  -- Reading a volatile parameter asks the vendor module for that parameter of that object, once,
  -- exactly if the library's own read succeeded, reads are not ignored, the object is no template
  -- and a vendor module is loaded; the status is the library's in every case, and no object
  -- changes.
  pub read_trx_param_asks :
      (standard : Status × Var E) (object param_name : Text) (w : World E)
      → let asks =
          is_ok standard.0
          && (not w.s_ignore_param_reads
              && (not (E.amxd.is_template w.store object) && vendor.loaded)) in
        let (result, w') = read_trx_param E vendor standard object param_name w in
        (w'.calls
          ≡ (if asks then w.calls ++ (get_param_values object param_name ∷ []) else w.calls))
        × (result.0 ≡ standard.0)
        × (w'.store ≡ w.store)
  unfolding read_trx_param pon_ctrl_get_param_values
  read_trx_param_asks standard object param_name w = ground (arith, ok_lem standard.0)

  -- A password for the TC.Authentication object of an ANI is accepted exactly if it is empty or
  -- passwd_check_password accepts it for that ANI; else the status is that of an invalid value.
  pub check_password_lem :
      IsLawful E.strings
      → (ani_path password : Text) (w : World E) → has_no_t ani_path ≡ true
      → check_password E vendor
          (ani_append_tc_authentication ani_path)
          action_param_validate
          (some password)
          w
        ≡ (if length password == 0
            then status_ok
            else if passwd_check_password E.amxd w.store ani_path password
            then status_ok
            else invalid_value)
  unfolding check_password
  check_password_lem lawful ani_path password w no_t =
      ground (arith, strip-append E.strings lawful ani_path no_t)
