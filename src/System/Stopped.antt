-- ===== src/System/Stopped.antt =====
-- A plugin that has been stopped stays quiet.
use tr181_xpon.Base.{
  ◌≡◌, refl, ◌∙◌, ap, ℕ, Bool, true, false, Option, List, [], ◌∷◌, arith, Text, Option-cases, inl,
  inr,
}
use tr181_xpon.Posix.{Disk}
use tr181_xpon.RestoreToHal.{no_timer, Rth, rth_schedule_enable, rth_disable, rth_cleanup}
use tr181_xpon.World.{Env, World}
use tr181_xpon.PonCtrl.{Vendor, pon_ctrl_set_password}
use tr181_xpon.DataModel.Local.{Schedules, no_more, one_more}
use tr181_xpon.DmEvents.{
  EventData, isdot, enable_changed, onu_or_ani_enable_changed, onu_enable_changed,
  ani_enable_changed, password_changed,
}
use tr181_xpon.PonStat.{Connections}
use tr181_xpon.PopulateDm.{Populate, pplt_dm_cleanup}
use tr181_xpon.PopulateDm.Timers.{Fire, query_timer, task_timer, fire, is_started}
use tr181_xpon.Main.{App, Outside, vendor_of, do_cleanup, stop}
use tr181_xpon.System.{
  Event, onu_enable_signal, ani_enable_signal, password_signal, rth_timer, populate_timer, System,
  handle, handle_all,
}
use tr181_xpon.System.Frame.{set_enable-Quiet}
use tr181_xpon.System.Frame.Handle.{handle-Quiet}

-- No task and no timer.
abbrev pub no_rth : Rth
no_rth = record { tasks = []; timer = no_timer }

nothing_scheduled : (allocates : Bool) (p : Text) → rth_schedule_enable allocates p no_rth ≡ no_rth
unfolding rth_schedule_enable
nothing_scheduled allocates p = refl

nothing_disabled : (p : Text) → rth_disable p no_rth ≡ no_rth
unfolding rth_disable
nothing_disabled p = refl

module _ (E : Env) where
  -- Without a timer nothing is scheduled.
  Schedules-no_rth :
      {d : Disk} {rth rth' : Rth} → Schedules E d rth rth' → rth ≡ no_rth → rth' ≡ no_rth
  Schedules-no_rth (no_more rth) e = e
  Schedules-no_rth (one_more object rth rth' on more) e =
      Schedules-no_rth more
        (ap (rth_schedule_enable E.allocates object) e ∙ nothing_scheduled E.allocates object)

  module _ (vendor : Vendor E.variants) where
    enable_changed-no_rth :
        (object : Text) (on onu : Bool) (w : World E)
        → w.rth ≡ no_rth
        → (enable_changed E vendor object on onu w).rth ≡ no_rth
    enable_changed-no_rth object true true w e =
        ap (rth_schedule_enable E.allocates object) e ∙ nothing_scheduled E.allocates object
    enable_changed-no_rth object true false w e =
        Schedules-no_rth (set_enable-Quiet E vendor object true w).rth e
    enable_changed-no_rth object false onu w e =
        ap (rth_disable object) (Schedules-no_rth (set_enable-Quiet E vendor object false w).rth e)
        ∙ nothing_disabled object

    signal-no_rth :
        (d : EventData) (onu : Bool) (w : World E)
        → w.rth ≡ no_rth
        → (onu_or_ani_enable_changed E vendor d onu w).rth ≡ no_rth
    unfolding onu_or_ani_enable_changed
    signal-no_rth d onu w e = elim (Option-cases d.path) [
      | inl none' ↦ rw (none', onu_or_ani_enable_changed) e
      | inr (path, f) ↦
          rw (f, onu_or_ani_enable_changed)
            (enable_changed-no_rth (E.strings.trimr path isdot) d.enable_to onu w e)
    ]

    password_same : (d : EventData) (w : World E) → (password_changed E vendor d w).rth ≡ w.rth
    unfolding password_changed pon_ctrl_set_password
    password_same d w = ground arith

    -- The timers that are not there do not fire.
    no_fire :
        (n : ℕ) (f : Fire) (p : Populate) (w : World E)
        → p.s_timer_query_onus ≡ no_timer
        → p.s_timer_handle_tasks ≡ no_timer
        → fire E vendor n f p w ≡ (p, w)
    unfolding fire
    no_fire n query_timer p w q t =
        let still : is_started p.s_timer_query_onus ≡ false = ap is_started q in
        simp (still, fire) refl
    no_fire n task_timer p w q t =
        let still : is_started p.s_timer_handle_tasks ≡ false = ap is_started t in
        simp (still, fire) refl

module _ (E : Env) (o : Outside E) (C : Connections) where
  -- No task waits, and there are no timers.
  pub record IsIdle (s : System E C) : Type 0 where
    pub nothing_waits : s.app.world.rth ≡ no_rth
    pub no_tasks : s.app.populate.s_tasks ≡ []
    pub no_query_timer : s.app.populate.s_timer_query_onus ≡ no_timer
    pub no_task_timer : s.app.populate.s_timer_handle_tasks ≡ no_timer

  handle-no_rth :
      (e : Event E) (s : System E C)
      → s.app.world.rth ≡ no_rth
      → (handle E o C e s).app.world.rth ≡ no_rth
  unfolding handle onu_enable_changed ani_enable_changed
  handle-no_rth (onu_enable_signal d) s h =
      signal-no_rth E (vendor_of E o s.app.mgmt) d true s.app.world h
  handle-no_rth (ani_enable_signal d) s h =
      signal-no_rth E (vendor_of E o s.app.mgmt) d false s.app.world h
  handle-no_rth (password_signal d) s h =
      password_same E (vendor_of E o s.app.mgmt) d s.app.world ∙ h
  handle-no_rth rth_timer s h =
      let still : is_started s.app.world.rth.timer ≡ false = ap (λ r. is_started r.timer) h in
      simp (still, handle) h
  handle-no_rth e s h = Schedules-no_rth E (handle-Quiet E o C e s refl).rth h

  same_populate :
      (e : Event E) (s : System E C) → IsIdle s → (handle E o C e s).app.populate ≡ s.app.populate
  unfolding handle
  same_populate rth_timer s i =
      let still : is_started s.app.world.rth.timer ≡ false =
        ap (λ r. is_started r.timer) i.nothing_waits in
      simp (still, handle) refl
  same_populate (populate_timer f) s i =
      ap (λ r. r.0)
        (no_fire E (vendor_of E o s.app.mgmt) o.max_nr_of_onus f s.app.populate s.app.world
          i.no_query_timer i.no_task_timer)
  same_populate e s i = refl

  handle_all-IsIdle :
      (es : List (Event E)) (s : System E C) → IsIdle s → IsIdle (handle_all E o C es s)
  unfolding handle_all
  handle_all-IsIdle [] s i = i
  handle_all-IsIdle (e ∷ es) s i =
      let same = same_populate e s i in
      handle_all-IsIdle es (handle E o C e s) (record {
        nothing_waits = handle-no_rth e s i.nothing_waits;
        no_tasks = ap (λ p. p.s_tasks) same ∙ i.no_tasks;
        no_query_timer = ap (λ p. p.s_timer_query_onus) same ∙ i.no_query_timer;
        no_task_timer = ap (λ p. p.s_timer_handle_tasks) same ∙ i.no_task_timer;
      })

  -- After a stop, and then any events in any order, whatever fails: no task waits, and there are
  -- no timers that could fire, although signals of the data model and calls of the vendor module
  -- may still come.
  pub stopped-IsIdle :
      (app : App E) (parser : Option C.Parser) (es : List (Event E))
      → IsIdle (handle_all E o C es (record { app = (stop E o app).1; parser = parser }))
  unfolding stop do_cleanup rth_cleanup pplt_dm_cleanup
  stopped-IsIdle app parser es =
      handle_all-IsIdle es (record { app = (stop E o app).1; parser = parser })
        (record {
          nothing_waits = refl;
          no_tasks = refl;
          no_query_timer = refl;
          no_task_timer = refl;
        })
