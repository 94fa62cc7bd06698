-- ===== src/Main/Queries.antt =====
-- xpon_mngr_main.c: what is left after a cleanup, and after the last steps of a start.
use tr181_xpon.Base.{◌≡◌, refl, ◌∙◌, Bool, true, false, ◌&&◌, none, List, [], ◌∷◌, ◌++◌, arith}
use tr181_xpon.RestoreToHal.{no_timer, stopped, started, short_timeout_ms, rth_cleanup}
use tr181_xpon.World.{Env, VendorCall, set_max_nr_of_onus}
use tr181_xpon.PonCtrl.{pon_ctrl_init}
use tr181_xpon.PopulateDm.{Populate, pplt_dm_init, pplt_dm_cleanup}
use tr181_xpon.Persistency.{persistency_cleanup}
use tr181_xpon.UpgradePersistency.{upgr_persistency_cleanup}
use tr181_xpon.ModuleMgmt.{mod_module_mgmt_cleanup}
use tr181_xpon.ModuleMgmt.Startup.{OffersAll}
use tr181_xpon.Main.{App, Outside, ok, error, start_queries, do_cleanup, vendor_of}

module _ (E : Env) (o : Outside E) where
  -- No task, timer, name of a module or folder is left.
  abbrev pub IsClean : App E → Type 0
  IsClean app =
      (app.world.rth.tasks ≡ [])
      × (app.world.rth.timer ≡ no_timer)
      × (app.populate.s_tasks ≡ [])
      × (app.populate.s_timer_handle_tasks ≡ no_timer)
      × (app.populate.s_timer_query_onus ≡ no_timer)
      × (app.mgmt.s_module_name ≡ [])
      × (app.s_storage_dir ≡ none)
      × (app.s_upgr_storage_dir ≡ none)

  pub cleanup-IsClean : (app : App E) → IsClean (do_cleanup E o app)
  unfolding do_cleanup rth_cleanup pplt_dm_cleanup persistency_cleanup upgr_persistency_cleanup
      mod_module_mgmt_cleanup
  cleanup-IsClean app = (refl, refl, refl, refl, refl, refl, refl, refl)

  abbrev pub timers_made : Bool
  timers_made = o.task_timer_made && o.query_timer_made

  -- The vendor module is loaded, can call the functions offered to it and has last been told how
  -- many ONUs there may be; and the queries of it are scheduled.
  abbrev pub IsRunning : App E → Type 0
  IsRunning app =
      (app.mgmt.s_module_so ≡ true)
      × OffersAll app.mgmt
      × ((before : List VendorCall) × (app.world.calls
            ≡ before ++ (set_max_nr_of_onus o.max_nr_of_onus ∷ [])))
      × (app.populate.s_timer_query_onus ≡ started short_timeout_ms)
      × (app.populate.s_timer_handle_tasks ≡ stopped)

  told :
      (app : App E)
      → app.mgmt.s_module_so ≡ true
      → (pon_ctrl_init E (vendor_of E o app.mgmt) o.max_nr_of_onus app.world).calls
        ≡ app.world.calls ++ (set_max_nr_of_onus o.max_nr_of_onus ∷ [])
  unfolding pon_ctrl_init
  told app so = rw (so, pon_ctrl_init) refl

  ready_lem :
      (p : Populate)
      → ((pplt_dm_init o.task_timer_made o.query_timer_made p).0 ≡ timers_made)
        × (timers_made ≡ true
            → ((pplt_dm_init o.task_timer_made o.query_timer_made p).1.s_timer_query_onus
                ≡ started short_timeout_ms)
              × ((pplt_dm_init o.task_timer_made o.query_timer_made p).1.s_timer_handle_tasks
                  ≡ stopped))
  unfolding pplt_dm_init
  ready_lem p = ground arith

  with_queries : App E → App E
  with_queries app = record app {
    world = pon_ctrl_init E (vendor_of E o app.mgmt) o.max_nr_of_onus app.world;
    populate = (pplt_dm_init o.task_timer_made o.query_timer_made app.populate).1;
  }

  pub start_queries-IsRunning :
      (app : App E)
      → timers_made ≡ true
      → app.mgmt.s_module_so ≡ true
      → OffersAll app.mgmt
      → ((start_queries E o app).0 ≡ ok) × IsRunning (start_queries E o app).1
  unfolding start_queries
  start_queries-IsRunning app h so offers =
      let (ready, timers) = ready_lem app.populate in
      let (query, task) = timers h in
      rw (ready ∙ h, start_queries)
        (refl, (so, offers, (app.world.calls, told app so), query, task))

  pub start_queries-IsClean :
      (app : App E)
      → timers_made ≡ false
      → ((start_queries E o app).0 ≡ error) × IsClean (start_queries E o app).1
  unfolding start_queries with_queries
  start_queries-IsClean app h =
      rw ((ready_lem app.populate).0 ∙ h, start_queries) (refl, cleanup-IsClean (with_queries app))
