-- ===== src/System/Served/Enabled.antt =====
-- An ONU that a signal enables is enabled in the vendor module, whatever else happens.
use tr181_xpon.Base.{
  ◌≡◌, refl, ◌≢◌, ◌∙◌, ap, sym, subst, ℕ, ◌≤◌, true, false, some, List, [], ◌∷◌, ◌++◌, arith, Text,
  inl, inr,
}
use tr181_xpon.Amxc.{IsLawful}
use tr181_xpon.RestoreToHal.{RthTask, no_timer, is_scheduled, rth_schedule_enable}
use tr181_xpon.World.{Env}
use tr181_xpon.DmEvents.{
  EventData, isdot, enable_changed, onu_or_ani_enable_changed, onu_enable_changed,
}
use tr181_xpon.DmEvents.Enable.{event_lem}
use tr181_xpon.DmEvents.Reached.{scheduled_tasks}
use tr181_xpon.PonStat.{Connections}
use tr181_xpon.Main.{Outside, vendor_of}
use tr181_xpon.System.{Event, onu_enable_signal, System, handle, handle_all}
use tr181_xpon.System.Invariant.{IsValid, handle-IsValid}
use tr181_xpon.System.Served.Waits.{Waits}
use tr181_xpon.System.Served.Spares.{IsTold, Grows-IsTold, onu_or_ani-Grows}
use tr181_xpon.System.Served.Fair.{AllKeepOn, rounds_in, waiting-IsTold}

appended-Waits :
    (p : Text) (ts : List RthTask) → Waits p 6 (ts ++ (record { path = p; cntr = 0 } ∷ []))
appended-Waits p [] = inl (refl, omega arith)
appended-Waits p (t ∷ ts) = inr (appended-Waits p ts)

module _ (E : Env) (o : Outside E) (C : Connections) where
  signalled-Waits :
      IsLawful E.strings
      → E.allocates ≡ true
      → (t : Text) (c : ℕ) → isdot c ≡ false
      → (d : EventData) (s : System E C) → d.path ≡ some ((t ++ (c ∷ [])) ++ (b'.' ∷ []))
      → d.enable_to ≡ true
      → s.app.world.rth.timer ≢ no_timer
      → is_scheduled (t ++ (c ∷ [])) s.app.world.rth.tasks ≡ false
      → Waits
          (t ++ (c ∷ []))
          6
          (onu_or_ani_enable_changed E (vendor_of E o s.app.mgmt) d true s.app.world).rth.tasks
  signalled-Waits lawful alloc t c nodot d s path on timer new =
      let object = t ++ (c ∷ []) in
      let w = s.app.world in
      let vendor = vendor_of E o s.app.mgmt in
      let same =
        event_lem E vendor lawful t c nodot d true w path
        ∙ ap (λ e. enable_changed E vendor object e true w) on in
      subst (Waits object 6)
        (sym (
          ap (λ v. v.rth.tasks) same
          ∙ ap (λ a. (rth_schedule_enable a object w.rth).tasks) alloc
          ∙ scheduled_tasks object w.rth timer new))
        (appended-Waits object w.rth.tasks)

  -- When a signal says that an ONU is enabled, and then any events happen in any order in which
  -- the timer of restore_to_hal.c fires at least six times, the vendor module is told to enable
  -- the ONU, unless one of these events is a signal that it is disabled. The conditions are that
  -- the string functions are lawful, a task can be allocated, the path ends in one dot, a vendor
  -- module is loaded, the plugin is in a valid state and has the timer, and no waiting task's path
  -- begins with the ONU's.
  pub enabled_onu-IsTold :
      IsLawful E.strings
      → E.allocates ≡ true
      → (t : Text) (c : ℕ) → isdot c ≡ false
      → (d : EventData) (s : System E C) → d.path ≡ some ((t ++ (c ∷ [])) ++ (b'.' ∷ []))
      → d.enable_to ≡ true
      → s.app.mgmt.s_module_so ≡ true
      → IsValid E o C s
      → s.app.world.rth.timer ≢ no_timer
      → is_scheduled (t ++ (c ∷ [])) s.app.world.rth.tasks ≡ false
      → (es : List (Event E)) → AllKeepOn E o C (t ++ (c ∷ [])) es
      → 6 ≤ rounds_in E o C es
      → IsTold (t ++ (c ∷ [])) s.app.world (handle_all E o C (onu_enable_signal d ∷ es) s).app.world
  unfolding handle_all handle onu_enable_changed
  enabled_onu-IsTold lawful alloc t c nodot d s path on loaded v timer new es keep enough =
      let object = t ++ (c ∷ []) in
      let s' = handle E o C (onu_enable_signal d) s in
      Grows-IsTold E object s.app.world s'.app.world (handle_all E o C es s').app.world
        (onu_or_ani-Grows E (vendor_of E o s.app.mgmt) d true s.app.world)
        (waiting-IsTold E o C object 6 es s' loaded (handle-IsValid E o C (onu_enable_signal d) s v)
          (signalled-Waits lawful alloc t c nodot d s path on timer new) keep enough)
