-- ===== src/ModuleMgmt/Register.antt =====
-- module_mgmt.c: the functions that the vendor module may call, and their registration.
use tr181_xpon.Base.{
  Bool, true, false, Option, none, some, List, [], ◌∷◌, ◌++◌, Text, codes, if◌then◌else◌,
}
use tr181_xpon.PonStat.{
  StatFunction, dm_instance_added, dm_instance_removed, dm_object_changed,
  dm_add_or_change_instance, omci_reset_mib, watch_file_descriptor_start,
  watch_file_descriptor_stop, dm_set_xpon_parameter,
}

-- The function of PON_CFG_FUNCTIONS.
pub data CfgFunction : Type 0 where
  cfg_get_param_value : CfgFunction

abbrev pub mod_pon_stat : Text
mod_pon_stat = codes "pon_stat"

abbrev pub mod_pon_cfg : Text
mod_pon_cfg = codes "pon_cfg"

-- The two tables, less the sentinel.
unfoldable pub pon_stat_functions : List (Text × StatFunction)
pon_stat_functions =
    (codes "dm_instance_added", dm_instance_added)
    ∷ (codes "dm_instance_removed", dm_instance_removed)
    ∷ (codes "dm_object_changed", dm_object_changed)
    ∷ (codes "dm_add_or_change_instance", dm_add_or_change_instance)
    ∷ (codes "omci_reset_mib", omci_reset_mib)
    ∷ (codes "watch_file_descriptor_start", watch_file_descriptor_start)
    ∷ (codes "watch_file_descriptor_stop", watch_file_descriptor_stop)
    ∷ (codes "dm_set_xpon_parameter", dm_set_xpon_parameter)
    ∷ []

unfoldable pub pon_cfg_functions : List (Text × CfgFunction)
pon_cfg_functions = (codes "pon_cfg_get_param_value", cfg_get_param_value) ∷ []

-- libamxm: whether amxm_get_so("self") is not NULL; whether a namespace can be registered, a
-- function of it added, and the namespace deregistered, which resets the pointer to it.
pub record Registry : Type 0 where
  pub has_self : Bool
  pub module_register : Text → Bool
  pub add_function : Text → Text → Bool
  pub module_deregister : Text → Bool

-- The functions that a namespace has; none for the NULL pointer.
abbrev pub Namespace : Type 0 → Type 0
Namespace F = Option (List (Text × F))

-- The loops over the tables. A function that cannot be added is left out.
unfoldable pub add_functions :
    {F : Type 0} → (Text → Bool) → List (Text × F) → List (Text × F) → List (Text × F)
add_functions added [] registered = registered
add_functions added ((name, impl) ∷ rest) registered =
    add_functions added rest (if added name then registered ++ ((name, impl) ∷ []) else registered)

-- Whether true is returned, and the pointer afterwards.
abbrev register_module :
    {F : Type 0} → Registry → Text → List (Text × F) → Namespace F → Bool × Namespace F
register_module registry namespace functions before =
    if registry.has_self
    then if registry.module_register namespace
      then (true, some (add_functions (registry.add_function namespace) functions []))
      else (false, before)
    else (false, before)

unfoldable pub register_pon_stat_module :
    Registry → Namespace StatFunction → Bool × Namespace StatFunction
unfolding add_functions pon_stat_functions
register_pon_stat_module registry before =
    register_module registry mod_pon_stat pon_stat_functions before

unfoldable pub register_pon_cfg_module :
    Registry → Namespace CfgFunction → Bool × Namespace CfgFunction
unfolding add_functions pon_cfg_functions
register_pon_cfg_module registry before =
    register_module registry mod_pon_cfg pon_cfg_functions before

-- What mod_module_mgmt_cleanup does with a namespace.
abbrev pub deregister : {F : Type 0} → Registry → Text → Namespace F → Namespace F
deregister registry namespace none = none
deregister registry namespace (some functions) =
    if registry.module_deregister namespace then none else some functions
