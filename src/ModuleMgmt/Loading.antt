-- ===== src/ModuleMgmt/Loading.antt =====
-- module_mgmt.c: a vendor module is loaded if there is exactly one.
use tr181_xpon.Base.{
  ◌≡◌, refl, ℕ, suc, ◌==◌, Bool, true, false, not, ◌&&◌, List, [], ◌∷◌, arith, Text, length,
  if◌then◌else◌,
}
use tr181_xpon.Amxc.{all}
use tr181_xpon.World.{Env, World}
use tr181_xpon.DataModel.Remove.{dm_set_vendor_module, dm_set_module_error}
use tr181_xpon.ModuleMgmt.{
  Mgmt, Modules, State, module_name, handle_vendor_module_match, find_vendor_module,
  load_vendor_module, so_path,
}

-- The callback is called for each name until it does not return 0.
abbrev pub scan_all : {S : Type 0} → List Text → (Text → S → Bool × S) → S → Bool × S
scan_all [] f s = (true, s)
scan_all (name ∷ names) f s =
    let rest = scan_all names f (f name s).1 in if (f name s).0 then rest else f name s

abbrev pub count : List Text → ℕ
count [] = 0
count (name ∷ names) = suc (count names)

module _ (E : Env) where
  abbrev has_name : Text → Bool
  has_name name = not (length (module_name E name) == 0)

  -- The scan finds these names.
  pub record Finds (modules : Modules (State E)) (names : List Text) : Type 0 where
    pub scans :
        (f : Text → State E → Bool × State E) (s : State E)
        → modules.dir_scan f s ≡ scan_all names f s
    pub named : all has_name names ≡ true

  -- The scan finds these names, and a module can be opened.
  pub record Scans (modules : Modules (State E)) (names : List Text) : Type 0 where
    pub finds : Finds modules names
    pub opens : (name path : Text) → modules.so_open name path ≡ true
    pub exist : (path : Text) → modules.exists path ≡ true

  -- One name is found, and the module's file exists and can be opened.
  abbrev pub can_load : Modules (State E) → List Text → Bool
  can_load modules [] = false
  can_load modules (name ∷ []) =
      let path = so_path E (module_name E name) in
      modules.exists path && modules.so_open (module_name E name) path
  can_load modules (name ∷ other ∷ rest) = false

  -- No module has been looked for.
  abbrev pub unloaded : Mgmt → Mgmt
  unloaded mgmt = record mgmt { s_module_name = []; s_module_so = false }

  named_state : Mgmt → Text → World E → State E
  named_state mgmt name w = (
    record mgmt { s_module_name = module_name E name; s_module_so = false },
    dm_set_vendor_module E (module_name E name) w,
  )

  named_first :
      (name : Text) (rest : List Text)
      → all has_name (name ∷ rest) ≡ true
      → (length (module_name E name) == 0) ≡ false
  named_first name rest h = ground arith

  find_one :
      (mgmt : Mgmt) (modules : Modules (State E)) (name : Text) (w : World E)
      → Finds modules (name ∷ [])
      → find_vendor_module E modules (unloaded mgmt, w) ≡ (true, named_state mgmt name w)
  unfolding find_vendor_module handle_vendor_module_match named_state
  find_one mgmt modules name w h =
      rw (h.scans (handle_vendor_module_match E) (unloaded mgmt, w), find_vendor_module)
        (rw (named_first name [] h.named) refl)

  find_more :
      (mgmt : Mgmt) (modules : Modules (State E)) (name other : Text) (rest : List Text)
      (w : World E)
      → Finds modules (name ∷ other ∷ rest)
      → find_vendor_module E modules (unloaded mgmt, w) ≡ (false, named_state mgmt name w)
  unfolding find_vendor_module handle_vendor_module_match named_state
  find_more mgmt modules name other rest w h =
      rw (h.scans (handle_vendor_module_match E) (unloaded mgmt, w), find_vendor_module)
        (rw (named_first name (other ∷ rest) h.named) refl)

  -- What the data model is told: the first name, and an error unless the module is loaded.
  abbrev pub told : Bool → List Text → World E → World E
  told loads [] w = dm_set_module_error E w
  told loads (name ∷ rest) w =
      let named = dm_set_vendor_module E (module_name E name) w in
      if loads then named else dm_set_module_error E named

  -- load_vendor_module succeeds, and has loaded a module, exactly if the scan finds one name
  -- and the module exists and can be opened, if no name is empty; else XPON.ModuleError is set
  -- and no module is loaded.
  pub load_vendor_module_lem :
      (mgmt : Mgmt) (modules : Modules (State E)) (names : List Text) (w : World E)
      → Finds modules names
      → let (ok, s') = load_vendor_module E modules (unloaded mgmt, w) in
        (ok ≡ can_load modules names)
        × (s'.0.s_module_so ≡ can_load modules names)
        × (s'.0.s_pon_stat_module ≡ mgmt.s_pon_stat_module)
        × (s'.0.s_pon_cfg_module ≡ mgmt.s_pon_cfg_module)
        × (s'.1 ≡ told (can_load modules names) names w)
  unfolding named_state load_vendor_module find_vendor_module handle_vendor_module_match
  load_vendor_module_lem mgmt modules [] w h =
      rw (h.scans (handle_vendor_module_match E) (unloaded mgmt, w), load_vendor_module)
        (refl, refl, refl, refl, refl)
  load_vendor_module_lem mgmt modules (name ∷ []) w h =
      rw (find_one mgmt modules name w h, load_vendor_module) (ground arith)
  load_vendor_module_lem mgmt modules (name ∷ other ∷ rest) w h =
      rw (find_more mgmt modules name other rest w h, load_vendor_module) (ground arith)

  -- If every module can be opened, it is enough that the scan finds one.
  pub can_load_lem :
      (modules : Modules (State E)) (names : List Text)
      → Scans modules names
      → can_load modules names ≡ (count names == 1)
  can_load_lem modules [] h = refl
  can_load_lem modules (name ∷ []) h =
      let path = so_path E (module_name E name) in
      rw (h.exist path, h.opens (module_name E name) path) refl
  can_load_lem modules (name ∷ other ∷ rest) h = ground arith
