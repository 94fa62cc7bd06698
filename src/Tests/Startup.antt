-- ===== src/Tests/Startup.antt =====
-- Starting the plugin and the queries that follow, at concrete inputs.
use tr181_xpon.Base.{◌≡◌, refl, true, false, none, some, List, [], ◌∷◌, arith, Text, codes}
use tr181_xpon.Main.{App, Outside, start, stop}
use tr181_xpon.Main.Queries.{IsClean}
use tr181_xpon.Main.Lifecycle.{Starts, start_all_or_nothing}
use tr181_xpon.ModuleMgmt.{Modules, State, Mgmt, Registry, mod_module_mgmt_init, module_name}
use tr181_xpon.ModuleMgmt.Loading.{Finds, Scans, scan_all}
use tr181_xpon.ModuleMgmt.Startup.{registers, StaysOut, Loads, mod_module_mgmt_init_lem}
use tr181_xpon.PopulateDm.{Populate, query_indexes, onu_template, pplt_dm_init}
use tr181_xpon.PopulateDm.Queries.{AddsOnus, query_indexes_in_range}
use tr181_xpon.PopulateDm.Timers.{IsValid, Fire, query_timer, task_timer}
use tr181_xpon.RestoreToHal.{no_timer}
use tr181_xpon.Tests.Strings.{plain_strings}
use tr181_xpon.Tests.Fixtures.{env, world, vendor}

abbrev idle : Populate
idle = record {
  s_timer_query_onus = no_timer;
  s_cntr_query_onus = 0;
  s_tasks = [];
  s_timer_handle_tasks = no_timer;
  s_onu_initialised = λ i. false;
}

abbrev pub ready : Populate
ready = (pplt_dm_init true true idle).1

query_indexes_in_range_example :
    AddsOnus env vendor 1 idle (query_indexes env vendor 1 onu_template idle world).0
query_indexes_in_range_example = query_indexes_in_range env vendor 1 idle world

pub ready-IsValid : IsValid env vendor 1 ready
unfolding pplt_dm_init
ready-IsValid = record { room = λ h. omega arith; within = λ i h. refl; armed = refl }

abbrev pub some_fires : List Fire
some_fires = query_timer ∷ task_timer ∷ query_timer ∷ []

abbrev pub module_file : Text
module_file = codes "/usr/lib/amx/tr181-xpon/modules/mod-xpon-prpl.so"

-- A folder with one vendor module.
abbrev one_module : Modules (State env)
one_module = record {
  dir_scan = λ f s. scan_all (module_file ∷ []) f s;
  exists = λ path. true;
  so_open = λ name path. true;
}

pub one_module-Scans : Scans env one_module (module_file ∷ [])
unfolding module_name plain_strings
one_module-Scans = record {
  finds = record { scans = λ f s. refl; named = refl };
  opens = λ name path. refl;
  exist = λ path. refl;
}

-- A folder with one vendor module that cannot be opened.
abbrev broken_module : Modules (State env)
broken_module = record one_module { so_open = λ name path. false }

broken_module-Finds : Finds env broken_module (module_file ∷ [])
unfolding module_name plain_strings
broken_module-Finds = record { scans = λ f s. refl; named = refl }

abbrev all_registered : Registry
all_registered = record {
  has_self = true;
  module_register = λ namespace. true;
  add_function = λ namespace name. true;
  module_deregister = λ namespace. true;
}

abbrev pub before_start : Mgmt
before_start = record {
  s_pon_stat_module = none;
  s_pon_cfg_module = none;
  s_module_name = [];
  s_module_so = false;
}

mod_module_mgmt_init_lem_example :
    let result = mod_module_mgmt_init env all_registered broken_module (before_start, world) in
    (registers all_registered ≡ false
      → StaysOut all_registered (λ s t. refl) env broken_module before_start world result)
    × (registers all_registered ≡ true
        → Loads all_registered
            (λ s t. refl)
            env
            broken_module
            before_start
            world
            (module_file ∷ [])
            result)
mod_module_mgmt_init_lem_example =
    mod_module_mgmt_init_lem all_registered (λ s t. refl) env broken_module before_start world
      (module_file ∷ []) broken_module-Finds

abbrev pub outside : Outside env
outside = record {
  folders = record { accessible = λ path. true; mkdir = λ path. true };
  parser = some none;
  resolve = λ t. t;
  rth_timer_made = true;
  registry = all_registered;
  modules = one_module;
  execute = vendor.execute;
  task_timer_made = true;
  query_timer_made = true;
  module_closes = true;
  max_nr_of_onus = 1;
}

abbrev pub unstarted : App env
unstarted = record {
  s_app_is_set = false;
  s_storage_dir = none;
  s_upgr_storage_dir = none;
  mgmt = before_start;
  populate = idle;
  world = world;
}

start_all_or_nothing_example :
    Starts env outside
      (module_file ∷ [])
      one_module-Scans
      (λ s t. refl)
      (start env outside unstarted)
    × IsClean env outside (stop env outside unstarted).1
start_all_or_nothing_example =
    start_all_or_nothing env outside (module_file ∷ []) one_module-Scans (λ s t. refl) unstarted
      refl
