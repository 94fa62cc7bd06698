-- ===== src/ModuleMgmt.antt =====
-- module_mgmt.c: finding and loading the vendor module.
mod Register
unfoldable pub use Register.*
pub mod Loading
pub mod Startup
use tr181_xpon.Base.{
  ℕ, ◌==◌, Bool, true, false, Option, none, some, List, [], ◌∷◌, ◌++◌, Text, codes, length,
  if◌then◌else◌,
}
use tr181_xpon.PonStat.{StatFunction}
use tr181_xpon.World.{Env, World}
use tr181_xpon.DataModel.Remove.{dm_set_vendor_module, dm_set_module_error}

abbrev pub modules_path : Text
modules_path = codes "/usr/lib/amx/tr181-xpon/modules/"

-- The variables of the file: the name, which may be empty, whether s_module_so is not NULL, and
-- the two namespaces.
pub record Mgmt : Type 0 where
  pub s_pon_stat_module : Namespace StatFunction
  pub s_pon_cfg_module : Namespace CfgFunction
  pub s_module_name : Text
  pub s_module_so : Bool

-- amxp_dir_scan of MODULES_PATH with the filter for vendor modules, for any callback that works
-- on a state and says whether it returns 0; and access(path, F_OK) and amxm_so_open.
pub record Modules (S : Type 0) : Type 0 where
  pub dir_scan : (Text → S → Bool × S) → S → Bool × S
  pub exists : Text → Bool
  pub so_open : Text → Text → Bool

module _ (E : Env) where
  abbrev pub State : Type 0
  State = Mgmt × World E

  -- The name without the folder and the suffix.
  unfoldable pub module_name : Text → Text
  module_name name =
      let without_folder = (E.strings.replace name modules_path [] 1).0 in
      (E.strings.replace without_folder (codes ".so") [] 1).0

  -- Whether 0 is returned, so that the scan goes on.
  unfoldable pub handle_vendor_module_match : Text → State → Bool × State
  handle_vendor_module_match name (mgmt, w) =
      if length mgmt.s_module_name == 0
      then (
        true,
        (
          record mgmt { s_module_name = module_name name },
          dm_set_vendor_module E (module_name name) w,
        ),
      )
      else (false, (mgmt, w))

  unfoldable pub find_vendor_module : Modules State → State → Bool × State
  find_vendor_module modules s =
      let (ok, s') = modules.dir_scan handle_vendor_module_match s in
      if ok then if length s'.0.s_module_name == 0 then (false, s') else (true, s') else (false, s')

  abbrev pub so_path : Text → Text
  so_path name = modules_path ++ (name ++ codes ".so")

  abbrev with_error : State → Bool × State
  with_error (mgmt, w) = (false, (mgmt, dm_set_module_error E w))

  unfoldable pub load_vendor_module : Modules State → State → Bool × State
  load_vendor_module modules s =
      let (found, s') = find_vendor_module modules s in
      if found
      then if modules.exists (so_path s'.0.s_module_name)
        then if modules.so_open s'.0.s_module_name (so_path s'.0.s_module_name)
          then (true, (record s'.0 { s_module_so = true }, s'.1))
          else with_error s'
        else with_error s'
      else with_error s'

  -- The results say whether the function succeeds and whether *module_error is set to true.
  unfoldable pub mod_module_mgmt_init : Registry → Modules State → State → (Bool × Bool) × State
  unfolding register_pon_stat_module register_pon_cfg_module
  mod_module_mgmt_init registry modules (mgmt, w) =
      let unnamed = record mgmt { s_module_name = [] } in
      let (stat_ok, stat) = register_pon_stat_module registry unnamed.s_pon_stat_module in
      let with_stat = record unnamed { s_pon_stat_module = stat } in
      if stat_ok
      then (let (cfg_ok, cfg) = register_pon_cfg_module registry with_stat.s_pon_cfg_module in
          let with_cfg = record with_stat { s_pon_cfg_module = cfg } in
          if cfg_ok
          then (let (loaded, s') = load_vendor_module modules (with_cfg, w) in
              if loaded then ((true, false), s') else ((false, true), s'))
          else ((false, false), (with_cfg, w)))
      else ((false, false), (with_stat, w))

-- The name that mod_get_vendor_module_loaded returns, none for NULL.
unfoldable pub mod_get_vendor_module_loaded : Mgmt → Option Text
mod_get_vendor_module_loaded mgmt = if mgmt.s_module_so then some mgmt.s_module_name else none

-- The first argument says whether amxm_so_close returns 0 and so resets the pointer.
unfoldable pub mod_module_mgmt_cleanup : Bool → Registry → Mgmt → Mgmt
mod_module_mgmt_cleanup closes registry mgmt = record {
  s_pon_stat_module = deregister registry mod_pon_stat mgmt.s_pon_stat_module;
  s_pon_cfg_module = deregister registry mod_pon_cfg mgmt.s_pon_cfg_module;
  s_module_name = [];
  s_module_so = if closes then false else mgmt.s_module_so;
}
