-- ===== src/Main/Lifecycle.antt =====
-- xpon_mngr_main.c: what a start and a stop leave.
use tr181_xpon.Base.{
  if◌then◌else◌, ◌≡◌, refl, ap, sym, ◌∙◌, subst, ◌==◌, Bool, true, false, not, ◌&&◌, List, Text,
  Bool-cases, inl, inr,
}
use tr181_xpon.DmInfo.{dm_info_init}
use tr181_xpon.World.{Env}
use tr181_xpon.ModuleMgmt.{State, mod_module_mgmt_init}
use tr181_xpon.ModuleMgmt.Loading.{Scans, count, unloaded, can_load_lem}
use tr181_xpon.ModuleMgmt.Startup.{registers, OffersAll, StaysOut, Loads, mod_module_mgmt_init_lem}
use tr181_xpon.Main.{
  App, Outside, ReturnCode, ok, error, start, start_parts, start_queries, prepared, stop,
  do_cleanup,
}
use tr181_xpon.Main.Queries.{
  IsClean, IsRunning, timers_made, cleanup-IsClean, start_queries-IsRunning, start_queries-IsClean,
}

pub init_ok : dm_info_init ≡ true
unfolding dm_info_init
init_ok = refl

module _ (E : Env) (o : Outside E) where
  module _ (names : List Text) (scan : Scans E o.modules names)
      (added : (s t : Text) → o.registry.add_function s t ≡ true) where
    -- Without a vendor module, or with several, 0 is returned all the same.
    abbrev pub start_code : ReturnCode
    start_code =
        if registers o.registry
        then if count names == 1 then if timers_made E o then ok else error else ok
        else error

    -- Exactly one vendor module is found, the namespaces can be registered and the timers made.
    abbrev pub succeeds : Bool
    succeeds = registers o.registry && ((count names == 1) && timers_made E o)

    abbrev pub Starts : ReturnCode × App E → Type 0
    Starts (rc, app) = (rc ≡ start_code) × (if succeeds then IsRunning E o app else IsClean E o app)

    unfoldable pub mgmt_init : App E → (Bool × Bool) × State E
    mgmt_init app = mod_module_mgmt_init E o.registry o.modules (app.mgmt, (prepared E o app).world)

    -- The module is NULL before a start.
    pub mgmt_init_lem :
        (app : App E)
        → app.mgmt.s_module_so ≡ false
        → mgmt_init app
          ≡ mod_module_mgmt_init E o.registry o.modules
              (unloaded E app.mgmt, (prepared E o app).world)
    unfolding mgmt_init mod_module_mgmt_init
    mgmt_init_lem app so =
        ap
          (λ b.
            mod_module_mgmt_init E o.registry o.modules
              (record app.mgmt { s_module_so = b }, (prepared E o app).world))
          so

    unfoldable pub started_app : App E → App E
    started_app app = record (prepared E o app) {
      mgmt = (mgmt_init app).1.0;
      world = (mgmt_init app).1.1;
    }

    pub parts_by_init :
        (app : App E)
        → start_parts E o app ≡ (
            if (mgmt_init app).0.0
            then start_queries E o (started_app app)
            else if (mgmt_init app).0.1
            then (ok, do_cleanup E o (started_app app))
            else (error, do_cleanup E o (started_app app)))
    unfolding start_parts mgmt_init started_app prepared
    parts_by_init app = refl

    -- The three outcomes of mod_module_mgmt_init.
    left_out :
        (app : App E)
        → registers o.registry ≡ false
        → (mgmt_init app).0.0 ≡ false
        → (mgmt_init app).0.1 ≡ false
        → Starts (start_parts E o app)
    left_out app r fails no_error =
        rw (parts_by_init app, fails, no_error, r) (refl, cleanup-IsClean E o (started_app app))

    none_or_several :
        (app : App E)
        → registers o.registry ≡ true
        → (count names == 1) ≡ false
        → (mgmt_init app).0.0 ≡ false
        → (mgmt_init app).0.1 ≡ true
        → Starts (start_parts E o app)
    none_or_several app r several fails module_error =
        rw (parts_by_init app, fails, module_error, r, several)
          (refl, cleanup-IsClean E o (started_app app))

    one_found :
        (app : App E)
        → registers o.registry ≡ true
        → (count names == 1) ≡ true
        → (mgmt_init app).0.0 ≡ true
        → (mgmt_init app).1.0.s_module_so ≡ true
        → OffersAll (mgmt_init app).1.0
        → Starts (start_parts E o app)
    unfolding started_app
    one_found app r single loads so offers = elim (Bool-cases (timers_made E o)) [
      | inl made ↦
          rw (parts_by_init app, loads, r, single, made)
            (start_queries-IsRunning E o (started_app app) made so offers)
      | inr missing ↦
          rw (parts_by_init app, loads, r, single, missing)
            (start_queries-IsClean E o (started_app app) missing)
    ]

    parts-Starts : (app : App E) → app.mgmt.s_module_so ≡ false → Starts (start_parts E o app)
    parts-Starts app so =
        let (outside, inside) =
          mod_module_mgmt_init_lem o.registry added E o.modules app.mgmt (prepared E o app).world
            names scan.finds in
        let one = can_load_lem E o.modules names scan in
        let same = sym (mgmt_init_lem app so) in
        elim (Bool-cases (registers o.registry)) [
          | inl r ↦
              let (loads, error', opened, offers, w) =
                subst (Loads o.registry added E o.modules app.mgmt (prepared E o app).world names)
                  same (inside r) in
              elim (Bool-cases (count names == 1)) [
                | inl single ↦
                    one_found app r single (loads ∙ one ∙ single) (opened ∙ one ∙ single) offers
                | inr several ↦
                    none_or_several app r several (loads ∙ one ∙ several)
                      (error' ∙ ap not (one ∙ several))
              ]
          | inr r ↦
              let (fails, no_error, closed, w) =
                subst (StaysOut o.registry added E o.modules app.mgmt (prepared E o app).world) same
                  (outside r) in
              left_out app r fails no_error
        ]

    -- A start from a state without a vendor module, if every function can be added to a namespace,
    -- no name of a module is empty and each can be opened: it leaves the plugin running exactly
    -- if the namespaces can be registered, exactly one vendor module is found and the two timers
    -- are made. The vendor module is then loaded, may call every function offered to it, has last
    -- been told how many ONUs there may be, and the queries of it are scheduled. Else no task,
    -- timer, name or folder is left; 0 is returned also if only the vendor module is at fault. A
    -- stop leaves nothing either.
    pub start_all_or_nothing :
        (app : App E)
        → app.mgmt.s_module_so ≡ false
        → Starts (start E o app) × IsClean E o (stop E o app).1
    unfolding start stop
    start_all_or_nothing app so =
        rw (init_ok, start)
          (parts-Starts (record app { s_app_is_set = true }) so, cleanup-IsClean E o app)
