-- ===== src/PonCtrl.antt =====
-- pon_ctrl.c: the calls that the plugin makes to the vendor module's namespace pon_ctrl. What
-- the module does is not part of this repository: it is a parameter, which answers each call
-- depending on the calls made before.
use tr181_xpon.Base.{ℕ, Bool, Option, none, List, [], ◌∷◌, ◌++◌, Text, if◌then◌else◌}
use tr181_xpon.Amxc.{Variants}
use tr181_xpon.World.{
  Env, World, VendorCall, set_max_nr_of_onus, set_enable, get_list_of_instances, get_object_content,
  get_param_values, handle_file_descriptor, set_password,
}
use tr181_xpon.DataModel.Change.{Var}

pub record Vendor (V : Variants) : Type 0 where
  pub loaded : Bool  -- mod_get_vendor_module_loaded() != NULL
  pub execute : List VendorCall → VendorCall → Option V.Var  -- *ret; none unless 0 is returned

module _ (E : Env) (vendor : Vendor E.variants) where
  -- What *ret is set to, none if 0 is not returned, and the state afterwards.
  unfoldable pub call_pon_ctrl_function_common : VendorCall → World E → Option (Var E) × World E
  call_pon_ctrl_function_common call w =
      if vendor.loaded
      then (vendor.execute w.calls call, record w { calls = w.calls ++ (call ∷ []) })
      else (none, w)

  unfoldable pub pon_ctrl_init : ℕ → World E → World E
  unfolding call_pon_ctrl_function_common
  pon_ctrl_init max_nr_of_onus w =
      (call_pon_ctrl_function_common (set_max_nr_of_onus max_nr_of_onus) w).1

  unfoldable pub pon_ctrl_set_enable : Text → Bool → World E → World E
  unfolding call_pon_ctrl_function_common
  pon_ctrl_set_enable path enable w = (call_pon_ctrl_function_common (set_enable path enable) w).1

  unfoldable pub pon_ctrl_get_list_of_instances : Text → World E → Option (Var E) × World E
  unfolding call_pon_ctrl_function_common
  pon_ctrl_get_list_of_instances path w =
      call_pon_ctrl_function_common (get_list_of_instances path) w

  -- The arguments have no index if it is 0.
  unfoldable pub pon_ctrl_get_object_content : Text → ℕ → World E → Option (Var E) × World E
  unfolding call_pon_ctrl_function_common
  pon_ctrl_get_object_content path index w =
      call_pon_ctrl_function_common (get_object_content path index) w

  unfoldable pub pon_ctrl_get_param_values : Text → Text → World E → Option (Var E) × World E
  unfolding call_pon_ctrl_function_common
  pon_ctrl_get_param_values path names w =
      call_pon_ctrl_function_common (get_param_values path names) w

  unfoldable pub pon_ctrl_handle_file_descriptor : ℕ → World E → World E
  unfolding call_pon_ctrl_function_common
  pon_ctrl_handle_file_descriptor fd w =
      (call_pon_ctrl_function_common (handle_file_descriptor fd) w).1

  unfoldable pub pon_ctrl_set_password : Text → Text → Bool → World E → World E
  unfolding call_pon_ctrl_function_common
  pon_ctrl_set_password ani_path password hex w =
      (call_pon_ctrl_function_common (set_password ani_path password hex) w).1
