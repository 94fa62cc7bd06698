-- ===== src/Main.antt =====
-- xpon_mngr_main.c: starting and stopping the plugin.
pub mod Queries
pub mod Lifecycle
use tr181_xpon.Base.{ℕ, Bool, true, false, Option, none, some, List, [], ◌∷◌, Text, if◌then◌else◌}
use tr181_xpon.DmInfo.{dm_info_init}
use tr181_xpon.Persistency.{
  Folders, get_storage_dir, persistency_init, persistency_cleanup, persistency_get_folder,
}
use tr181_xpon.UpgradePersistency.{upgr_persistency_init, upgr_persistency_cleanup}
use tr181_xpon.RestoreToHal.{rth_init, rth_cleanup}
use tr181_xpon.World.{Env, World, VendorCall}
use tr181_xpon.DataModel.Change.{Var}
use tr181_xpon.PonCtrl.{Vendor, pon_ctrl_init}
use tr181_xpon.PopulateDm.{Populate, pplt_dm_init, pplt_dm_cleanup}
use tr181_xpon.ModuleMgmt.{
  Mgmt, Modules, State, Registry, mod_module_mgmt_init, mod_module_mgmt_cleanup,
}

-- What the operating system, the libraries and the vendor module do during a start and a stop.
pub record Outside (E : Env) : Type 0 where
  pub folders : Folders
  pub parser : Option (Option Text)  -- its storage-path, if it is not NULL
  pub resolve : Text → Text
  pub rth_timer_made : Bool
  pub registry : Registry
  pub modules : Modules (State E)
  pub execute : List VendorCall → VendorCall → Option (Var E)
  pub task_timer_made : Bool
  pub query_timer_made : Bool
  pub module_closes : Bool
  pub max_nr_of_onus : ℕ

-- The variables of all the parts. Those of s_app are set or NULL.
pub record App (E : Env) : Type 0 where
  pub s_app_is_set : Bool
  pub s_storage_dir : Option Text
  pub s_upgr_storage_dir : Option Text
  pub mgmt : Mgmt
  pub populate : Populate
  pub world : World E

-- The value that is returned; -1 is `failed_early`.
pub data ReturnCode : Type 0 where
  ok error failed_early : ReturnCode

module _ (E : Env) (o : Outside E) where
  unfoldable pub do_cleanup : App E → App E
  do_cleanup app = record app {
    populate = pplt_dm_cleanup app.populate;
    world = record app.world { rth = rth_cleanup app.world.rth };
    mgmt = mod_module_mgmt_cleanup o.module_closes o.registry app.mgmt;
    s_storage_dir = persistency_cleanup app.s_storage_dir;
    s_upgr_storage_dir = upgr_persistency_cleanup app.s_upgr_storage_dir;
  }

  -- persistency_init, upgr_persistency_init and rth_init.
  unfoldable pub prepared : App E → App E
  prepared app =
      let dir = persistency_init o.folders (get_storage_dir o.resolve o.parser) in
      record app {
        s_storage_dir = dir;
        s_upgr_storage_dir = upgr_persistency_init o.folders (persistency_get_folder dir);
        world = record app.world { rth = rth_init o.rth_timer_made };
      }

  -- The vendor module that pon_ctrl.c then calls.
  abbrev pub vendor_of : Mgmt → Vendor E.variants
  vendor_of mgmt = record { loaded = mgmt.s_module_so; execute = o.execute }

  -- pon_ctrl_init and pplt_dm_init.
  unfoldable pub start_queries : App E → ReturnCode × App E
  unfolding do_cleanup
  start_queries app =
      let w = pon_ctrl_init E (vendor_of app.mgmt) o.max_nr_of_onus app.world in
      let (ready, populate) = pplt_dm_init o.task_timer_made o.query_timer_made app.populate in
      let app' = record app { world = w; populate = populate } in
      if ready then (ok, app') else (error, do_cleanup app')

  -- The reason 0, after dm_info_init.
  unfoldable pub start_parts : App E → ReturnCode × App E
  unfolding prepared start_queries
  start_parts app =
      let p = prepared app in
      let ((success, module_error), (mgmt, w)) =
        mod_module_mgmt_init E o.registry o.modules (p.mgmt, p.world) in
      let p' = record p { mgmt = mgmt; world = w } in
      if success
      then start_queries p'
      else if module_error
      then (ok, do_cleanup p')
      else (error, do_cleanup p')

  unfoldable pub start : App E → ReturnCode × App E
  unfolding start_parts
  start app =
      let set = record app { s_app_is_set = true } in
      if dm_info_init then start_parts set else (failed_early, set)

  unfoldable pub stop : App E → ReturnCode × App E
  unfolding do_cleanup
  stop app = (ok, record (do_cleanup app) { s_app_is_set = false })
