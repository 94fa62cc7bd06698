-- ===== src/System/Started.antt =====
-- What a start leaves, and so what holds of the running plugin.
use tr181_xpon.Base.{
  ◌≡◌, refl, ◌∙◌, ap, sym, subst, ℕ, Bool, true, false, List, [], ◌∷◌, arith, Text, ◌≤◌, Option,
  Bool-cases, inl, inr,
}
use tr181_xpon.RestoreToHal.{rth_init, rth_cleanup}
use tr181_xpon.RestoreToHal.Invariant as Waiting
use tr181_xpon.RestoreToHal.Reach.{rth_init-IsValid}
use tr181_xpon.World.{Env, World}
use tr181_xpon.PonCtrl.{Vendor, pon_ctrl_init}
use tr181_xpon.PonStat.{Connections}
use tr181_xpon.DataModel.Remove.{dm_set_vendor_module, dm_set_module_error}
use tr181_xpon.PopulateDm.{Populate, pplt_dm_init, pplt_dm_cleanup, query_onus_nr_times}
use tr181_xpon.PopulateDm.Timers
use tr181_xpon.ModuleMgmt.{module_name}
use tr181_xpon.ModuleMgmt.Loading.{Scans, can_load, told}
use tr181_xpon.ModuleMgmt.Startup.{registers, mod_module_mgmt_init_lem}
use tr181_xpon.Main.{
  App, Outside, vendor_of, start, start_parts, start_queries, prepared, do_cleanup,
}
use tr181_xpon.Main.Lifecycle.{init_ok, mgmt_init, mgmt_init_lem, started_app, parts_by_init}
use tr181_xpon.System.{Event, System, handle_all}
use tr181_xpon.System.Invariant as Running
use tr181_xpon.System.Invariant.{handle_all-IsValid, IsSafe}

module _ (E : Env) (o : Outside E) where
  -- Reads are not ignored, at most 30 queries have been counted, and nothing stands in the array
  -- beyond its end: as it is when the process starts, since the variables are then 0.
  pub record IsFresh (app : App E) : Type 0 where
    pub reads : app.world.s_ignore_param_reads ≡ false
    pub counted : app.populate.s_cntr_query_onus ≤ query_onus_nr_times
    pub within : (i : ℕ) → o.max_nr_of_onus ≤ i → app.populate.s_onu_initialised i ≡ false

  -- The invariant of the running plugin, of its variables alone, and that no task waits.
  abbrev pub Holds : App E → Type 0
  Holds app =
      IsSafe E app.world
      × Timers.IsValid E (vendor_of E o app.mgmt) o.max_nr_of_onus app.populate
      × (app.world.rth.tasks ≡ [])
      × (app.populate.s_tasks ≡ [])

  cleanup-Holds : (app : App E) → IsFresh app → Holds (do_cleanup E o app)
  unfolding do_cleanup rth_cleanup pplt_dm_cleanup
  cleanup-Holds app f = (
    record { waiting = record { counted = tt; distinct = tt; armed = tt }; reads = f.reads },
    record { room = λ h. absurd (cc h); within = f.within; armed = refl },
    refl,
    refl,
  )

  -- Whatever the answers, the queries are then scheduled with a valid state.
  queries-IsValid :
      (v : Vendor E.variants) (p : Populate) (task query : Bool)
      → p.s_cntr_query_onus ≤ query_onus_nr_times
      → ((i : ℕ) → o.max_nr_of_onus ≤ i → p.s_onu_initialised i ≡ false)
      → (pplt_dm_init task query p).0 ≡ true
      → Timers.IsValid E v o.max_nr_of_onus (pplt_dm_init task query p).1
        × ((pplt_dm_init task query p).1.s_tasks ≡ [])
  unfolding pplt_dm_init
  queries-IsValid v p true true counted within ok =
      (record { room = λ h. counted; within = within; armed = refl }, refl)
  queries-IsValid v p true false counted within ok = absurd cc
  queries-IsValid v p false query counted within ok = absurd cc

  told_same :
      (v : Vendor E.variants) (n : ℕ) (w : World E)
      → ((pon_ctrl_init E v n w).rth ≡ w.rth)
        × ((pon_ctrl_init E v n w).s_ignore_param_reads ≡ w.s_ignore_param_reads)
  unfolding pon_ctrl_init
  told_same v n w = ground arith

  same-within :
      (p : Populate) (task query : Bool) (i : ℕ)
      → ((pplt_dm_init task query p).1.s_onu_initialised i ≡ p.s_onu_initialised i)
        × ((pplt_dm_init task query p).1.s_cntr_query_onus ≡ p.s_cntr_query_onus)
  unfolding pplt_dm_init
  same-within p true true i = (refl, refl)
  same-within p true false i = (refl, refl)
  same-within p false query i = (refl, refl)

  rth_init_empty : (made : Bool) → (rth_init made).tasks ≡ []
  unfolding rth_init
  rth_init_empty true = refl
  rth_init_empty false = refl

  queries-Holds :
      (app : App E)
      → IsFresh app
      → app.world.rth ≡ rth_init o.rth_timer_made
      → Holds (start_queries E o app).1
  unfolding start_queries
  queries-Holds app f v =
      let told : World E = pon_ctrl_init E (vendor_of E o app.mgmt) o.max_nr_of_onus app.world in
      let (ready, p) = pplt_dm_init o.task_timer_made o.query_timer_made app.populate in
      let (rth, reads) = told_same (vendor_of E o app.mgmt) o.max_nr_of_onus app.world in
      let safe : IsSafe E told = record {
        waiting = subst Waiting.IsValid (sym (rth ∙ v)) (rth_init-IsValid o.rth_timer_made);
        reads = reads ∙ f.reads;
      } in
      elim (Bool-cases ready) [
        | inl made ↦
            let (queries, no_tasks) =
              queries-IsValid (vendor_of E o app.mgmt) app.populate o.task_timer_made
                o.query_timer_made f.counted f.within made in
            rw (made, start_queries)
              (
                safe,
                queries,
                ap (λ x. x.tasks) (rth ∙ v) ∙ rth_init_empty o.rth_timer_made,
                no_tasks,
              )
        | inr missing ↦
            rw (missing, start_queries)
              (cleanup-Holds (record app { world = told; populate = p })
                (record {
                  reads = safe.reads;
                  counted =
                      rw (same-within app.populate o.task_timer_made o.query_timer_made 0).1
                        f.counted;
                  within = λ i h.
                      (same-within app.populate o.task_timer_made o.query_timer_made i).0
                      ∙ f.within i h;
                }))
      ]

  -- Neither the list nor the flag differs.
  abbrev SameLists : World E → World E → Type 0
  SameLists w w' = (w'.rth ≡ w.rth) × (w'.s_ignore_param_reads ≡ w.s_ignore_param_reads)

  named_same : (name : Text) (w : World E) → SameLists w (dm_set_vendor_module E name w)
  unfolding dm_set_vendor_module
  named_same name w = ground arith

  error_same : (w : World E) → SameLists w (dm_set_module_error E w)
  unfolding dm_set_module_error
  error_same w = ground arith

  loading_same :
      (loads : Bool) (names : List Text) (w : World E) → SameLists w (told E loads names w)
  loading_same loads [] w = error_same w
  loading_same loads (name ∷ rest) w =
      let named = dm_set_vendor_module E (module_name E name) w in
      let (r, i) = named_same (module_name E name) w in
      let (s, j) = error_same named in
      elim (Bool-cases loads) [
        | inl single ↦ rw single (r, i)
        | inr several ↦ rw several (s ∙ r, j ∙ i)
      ]

  module _ (names : List Text) (scan : Scans E o.modules names)
      (added : (s t : Text) → o.registry.add_function s t ≡ true) where
    init_same :
        (app : App E)
        → app.mgmt.s_module_so ≡ false
        → SameLists (prepared E o app).world (mgmt_init E o names scan added app).1.1
    init_same app so =
        let w = (prepared E o app).world in
        let (outside, inside) =
          mod_module_mgmt_init_lem o.registry added E o.modules app.mgmt w names scan.finds in
        let same = mgmt_init_lem E o names scan added app so in
        elim (Bool-cases (registers o.registry)) [
          | inl r ↦
              let (loads, error', opened, offers, is_told) = inside r in
              subst (SameLists w) (sym (ap (λ s. s.1.1) same ∙ is_told))
                (loading_same (can_load E o.modules names) names w)
          | inr r ↦
              let (fails, no_error, closed, is_told) = outside r in
              subst (SameLists w) (sym (ap (λ s. s.1.1) same ∙ is_told)) (refl, refl)
        ]

    started-IsFresh :
        (app : App E)
        → app.mgmt.s_module_so ≡ false
        → IsFresh app
        → IsFresh (started_app E o names scan added app)
          × ((started_app E o names scan added app).world.rth ≡ rth_init o.rth_timer_made)
    unfolding started_app prepared
    started-IsFresh app so f =
        let (r, i) = init_same app so in
        (record { reads = i ∙ f.reads; counted = f.counted; within = f.within }, r)

    parts-Holds :
        (app : App E) → app.mgmt.s_module_so ≡ false → IsFresh app → Holds (start_parts E o app).1
    parts-Holds app so f =
        let (fresh, v) = started-IsFresh app so f in
        let started = started_app E o names scan added app in
        let ((loads, module_error), s) = mgmt_init E o names scan added app in
        elim (Bool-cases loads) [
          | inl loaded ↦
              rw (parts_by_init E o names scan added app, loaded) (queries-Holds started fresh v)
          | inr failed ↦ elim (Bool-cases module_error) [
            | inl wrong ↦
                rw (parts_by_init E o names scan added app, failed, wrong)
                  (cleanup-Holds started fresh)
            | inr right ↦
                rw (parts_by_init E o names scan added app, failed, right)
                  (cleanup-Holds started fresh)
          ]
        ]

    pub start-Holds :
        (app : App E) → app.mgmt.s_module_so ≡ false → IsFresh app → Holds (start E o app).1
    unfolding start
    start-Holds app so f =
        rw (init_ok, start)
          (parts-Holds (record app { s_app_is_set = true }) so
            (record { reads = f.reads; counted = f.counted; within = f.within }))

    module _ (C : Connections) where
      abbrev pub begun : App E → Option C.Parser → System E C
      begun app parser = record { app = (start E o app).1; parser = parser }

      -- After a start and any events in any order, whatever fails and whatever the vendor module
      -- answers: no object has two tasks of restore_to_hal.c, none of their counters is over 5 and
      -- their timer runs while one waits; reads are not ignored; the timer of the queries runs
      -- only while at most 30 have been counted; nothing is written beyond the end of the array
      -- of ONUs; and the timer of the queries' tasks runs while one waits. The conditions are that
      -- the process has just started, every function can be added to a namespace, no name of a
      -- module is empty and each can be opened.
      pub running-IsValid :
          (app : App E) (parser : Option C.Parser) (es : List (Event E))
          → app.mgmt.s_module_so ≡ false
          → IsFresh app
          → Running.IsValid E o C (handle_all E o C es (begun app parser))
      running-IsValid app parser es so f =
          let (safe, queries, none-Waits, no_task) = start-Holds app so f in
          handle_all-IsValid E o C es (begun app parser) (record { safe = safe; queries = queries })
