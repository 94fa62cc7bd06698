-- ===== src/ModuleMgmt/Startup.antt =====
-- module_mgmt.c: what the plugin offers to the vendor module, and what it has loaded, after
-- mod_module_mgmt_init.
use tr181_xpon.Base.{
  ◌≡◌, refl, subst, ◌∙◌, ap, sym, Bool, true, false, not, ◌&&◌, Option, none, some, List, [], ◌∷◌,
  ◌++◌, arith, Text, codes, text_eq, if◌then◌else◌, &&-true,
}
use mathlib.Core.List.{append_assoc, append-nil}
use tr181_xpon.World.{Env, World}
use tr181_xpon.PonStat.{
  StatFunction, dm_instance_added, dm_instance_removed, dm_object_changed,
  dm_add_or_change_instance, omci_reset_mib, watch_file_descriptor_start,
  watch_file_descriptor_stop, dm_set_xpon_parameter,
}
use tr181_xpon.ModuleMgmt.{
  Mgmt, Modules, State, load_vendor_module, mod_module_mgmt_init, Registry, Namespace, CfgFunction,
  add_functions, pon_stat_functions, pon_cfg_functions, register_pon_stat_module,
  register_pon_cfg_module, mod_pon_stat, mod_pon_cfg,
}
use tr181_xpon.ModuleMgmt.Loading.{Finds, can_load, unloaded, told, load_vendor_module_lem}

-- The first function of this name.
abbrev pub function_named : {F : Type 0} → Text → List (Text × F) → Option F
function_named name [] = none
function_named name ((n, f) ∷ rest) =
    let later = function_named name rest in if text_eq n name then some f else later

abbrev pub call_named : {F : Type 0} → Text → Namespace F → Option F
call_named name none = none
call_named name (some functions) = function_named name functions

-- Both namespaces can be registered.
abbrev pub registers : Registry → Bool
registers registry =
    registry.has_self
    && (registry.module_register mod_pon_stat && registry.module_register mod_pon_cfg)

add_functions_all :
    {F : Type 0} (added : Text → Bool) (functions before : List (Text × F))
    → ((name : Text) → added name ≡ true)
    → add_functions added functions before ≡ before ++ functions
unfolding add_functions
add_functions_all added [] before h = sym (append-nil before)
add_functions_all added ((name, impl) ∷ rest) before h =
    rw (h name, add_functions)
      (add_functions_all added rest (before ++ ((name, impl) ∷ [])) h
        ∙ append_assoc before ((name, impl) ∷ []) rest)

-- The name under which the vendor module calls each function.
abbrev pub stat_name : StatFunction → Text
stat_name dm_instance_added = codes "dm_instance_added"
stat_name dm_instance_removed = codes "dm_instance_removed"
stat_name dm_object_changed = codes "dm_object_changed"
stat_name dm_add_or_change_instance = codes "dm_add_or_change_instance"
stat_name omci_reset_mib = codes "omci_reset_mib"
stat_name watch_file_descriptor_start = codes "watch_file_descriptor_start"
stat_name watch_file_descriptor_stop = codes "watch_file_descriptor_stop"
stat_name dm_set_xpon_parameter = codes "dm_set_xpon_parameter"

finds : (f : StatFunction) → call_named (stat_name f) (some pon_stat_functions) ≡ some f
unfolding pon_stat_functions
finds dm_instance_added = refl
finds _ = refl

-- Every function of the tables can be called under its name.
abbrev pub OffersAll : Mgmt → Type 0
OffersAll mgmt =
    ((f : StatFunction) → call_named (stat_name f) mgmt.s_pon_stat_module ≡ some f)
    × (call_named (codes "pon_cfg_get_param_value") mgmt.s_pon_cfg_module
        ≡ some CfgFunction.cfg_get_param_value)

with_namespaces : Mgmt → Mgmt
with_namespaces mgmt = record mgmt {
  s_pon_stat_module = some pon_stat_functions;
  s_pon_cfg_module = some pon_cfg_functions;
}

module _ (registry : Registry) (added : (s t : Text) → registry.add_function s t ≡ true) where
  stat_registered :
      (before : Namespace StatFunction)
      → registers registry ≡ true
      → register_pon_stat_module registry before ≡ (true, some pon_stat_functions)
  unfolding register_pon_stat_module
  stat_registered before r =
      let (self, both) = &&-true registry.has_self _ r in
      let (stat, cfg) = &&-true (registry.module_register mod_pon_stat) _ both in
      rw (self, stat, register_pon_stat_module)
        (ap (λ fs. (true, some fs))
          (add_functions_all (registry.add_function mod_pon_stat) pon_stat_functions []
            (added mod_pon_stat)))

  cfg_registered :
      (before : Namespace CfgFunction)
      → registers registry ≡ true
      → register_pon_cfg_module registry before ≡ (true, some pon_cfg_functions)
  unfolding register_pon_cfg_module
  cfg_registered before r =
      let (self, both) = &&-true registry.has_self _ r in
      let (stat, cfg) = &&-true (registry.module_register mod_pon_stat) _ both in
      rw (self, cfg, register_pon_cfg_module)
        (ap (λ fs. (true, some fs))
          (add_functions_all (registry.add_function mod_pon_cfg) pon_cfg_functions []
            (added mod_pon_cfg)))

  module _ (E : Env) (modules : Modules (State E)) (mgmt : Mgmt) (w : World E) where
    registered :
        registers registry ≡ true
        → mod_module_mgmt_init E registry modules (unloaded E mgmt, w) ≡ (
            let (loaded, s') =
              load_vendor_module E modules (unloaded E (with_namespaces mgmt), w) in
            if loaded then ((true, false), s') else ((false, true), s'))
    unfolding mod_module_mgmt_init with_namespaces
    registered r = rw (
      stat_registered mgmt.s_pon_stat_module r,
      cfg_registered mgmt.s_pon_cfg_module r,
      mod_module_mgmt_init,
    )

    -- Nothing was loaded, and the data model was not changed.
    abbrev pub StaysOut : (Bool × Bool) × State E → Type 0
    StaysOut ((ok, error), (mgmt', w')) =
        (ok ≡ false) × (error ≡ false) × (mgmt'.s_module_so ≡ false) × (w' ≡ w)

    unregistered :
        registers registry ≡ false
        → StaysOut (mod_module_mgmt_init E registry modules (unloaded E mgmt, w))
    unfolding mod_module_mgmt_init register_pon_stat_module register_pon_cfg_module
    unregistered r = ground arith

    abbrev pub Loads : List Text → (Bool × Bool) × State E → Type 0
    Loads names ((ok, error), (mgmt', w')) =
        (ok ≡ can_load E modules names)
        × (error ≡ not (can_load E modules names))
        × (mgmt'.s_module_so ≡ can_load E modules names)
        × OffersAll mgmt'
        × (w' ≡ told E (can_load E modules names) names w)

    answered :
        (names : List Text) (loaded : Bool) (s' : State E)
        → loaded ≡ can_load E modules names
        → s'.0.s_module_so ≡ can_load E modules names
        → s'.0.s_pon_stat_module ≡ some pon_stat_functions
        → s'.0.s_pon_cfg_module ≡ some pon_cfg_functions
        → s'.1 ≡ told E (can_load E modules names) names w
        → Loads names (if loaded then ((true, false), s') else ((false, true), s'))
    unfolding pon_cfg_functions
    answered names loaded s' ok so stat cfg is_told =
        let offers : OffersAll s'.0 = (
          λ f. ap (call_named (stat_name f)) stat ∙ finds f,
          ap (call_named (codes "pon_cfg_get_param_value")) cfg,
        ) in
        elim loaded
            as (λ b.
              b ≡ can_load E modules names
              → Loads names (if b then ((true, false), s') else ((false, true), s'))) [
                | true ↦ λ e. (e, ap not e, so, offers, is_told)
                | false ↦ λ e. (e, ap not e, so, offers, is_told)
              ]
          ok

    -- mod_module_mgmt_init, if no module is loaded yet, every function can be added and no name of a
    -- module is empty. If a namespace cannot be registered, it fails without a module error, loads
    -- nothing and does not change the data model. Else the vendor module may call every function
    -- of the two tables under its name; a module is loaded and true returned if the scan finds
    -- exactly one, its file exists and it can be opened, and otherwise *module_error and
    -- XPON.ModuleError are set; dm_set_vendor_module is called for the first name that is found.
    pub mod_module_mgmt_init_lem :
        (names : List Text)
        → Finds E modules names
        → (registers registry ≡ false
            → StaysOut (mod_module_mgmt_init E registry modules (unloaded E mgmt, w)))
          × (registers registry ≡ true
              → Loads names (mod_module_mgmt_init E registry modules (unloaded E mgmt, w)))
    unfolding with_namespaces
    mod_module_mgmt_init_lem names h = (
      unregistered,
      λ r.
          let (ok, so, stat, cfg, is_told) =
            load_vendor_module_lem E (with_namespaces mgmt) modules names w h in
          let (loaded, s') = load_vendor_module E modules (unloaded E (with_namespaces mgmt), w) in
          subst (Loads names) (sym (registered r))
            (answered names loaded s' ok so stat cfg is_told),
    )
