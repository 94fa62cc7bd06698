-- ===== src/System/Invariant.antt =====
-- What holds of the running plugin between any two events.
use tr181_xpon.Base.{
  ◌≡◌, refl, ◌∙◌, sym, subst, Bool, true, false, List, [], ◌∷◌, arith, Text, Bool-cases,
  Option-cases, inl, inr,
}
use tr181_xpon.Posix.{Disk}
use tr181_xpon.RestoreToHal.{Rth, handle_rth_tasks}
use tr181_xpon.RestoreToHal.Invariant
use tr181_xpon.RestoreToHal.Invariant.{rth_schedule_enable-IsValid}
use tr181_xpon.RestoreToHal.Reach
use tr181_xpon.RestoreToHal.Reach.{disable-IsValid}
use tr181_xpon.World.{Env, World}
use tr181_xpon.PonCtrl.{Vendor, pon_ctrl_set_enable, pon_ctrl_set_password}
use tr181_xpon.DataModel.Local.{Schedules, no_more, one_more}
use tr181_xpon.DmEvents.{
  EventData, isdot, enable_changed, onu_or_ani_enable_changed, onu_enable_changed,
  ani_enable_changed, password_changed, found_in, enable_each, rth_round,
}
use tr181_xpon.PonStat.{Connections}
use tr181_xpon.PopulateDm.Timers
use tr181_xpon.PopulateDm.Timers.{is_started, fire-IsValid}
use tr181_xpon.Main.{Outside, vendor_of}
use tr181_xpon.System.{
  Event, onu_enable_signal, ani_enable_signal, password_signal, rth_timer, populate_timer, System,
  handle, handle_all,
}
use tr181_xpon.System.Frame.{Quiet, set_enable-Quiet}
use tr181_xpon.System.Frame.Handle.{handle-Quiet}

module _ (E : Env) where
  -- The list of restore_to_hal.c is valid, and reads are not ignored.
  pub record IsSafe (w : World E) : Type 0 where
    pub waiting : Invariant.IsValid w.rth
    pub reads : w.s_ignore_param_reads ≡ false

  Schedules-IsValid :
      {d : Disk} {rth rth' : Rth}
      → Schedules E d rth rth'
      → Invariant.IsValid rth
      → Invariant.IsValid rth'
  Schedules-IsValid (no_more rth) v = v
  Schedules-IsValid (one_more object rth rth' e h) v =
      Schedules-IsValid h (rth_schedule_enable-IsValid E.allocates object rth.tasks rth.timer v)

  pub Quiet-IsSafe : {w w' : World E} → Quiet E w w' → IsSafe w → IsSafe w'
  Quiet-IsSafe q v = record { waiting = Schedules-IsValid q.rth v.waiting; reads = q.reads v.reads }

  -- Another list in the same state otherwise.
  moved :
      {w w' : World E}
      → w'.rth ≡ w.rth
      → w'.s_ignore_param_reads ≡ w.s_ignore_param_reads
      → IsSafe w
      → IsSafe w'
  moved r i v = record { waiting = subst Invariant.IsValid (sym r) v.waiting; reads = i ∙ v.reads }

  module _ (vendor : Vendor E.variants) where
    pub set_enable-IsSafe :
        (path : Text) (on : Bool) (w : World E)
        → IsSafe w
        → IsSafe (pon_ctrl_set_enable E vendor path on w)
    set_enable-IsSafe path on w v = Quiet-IsSafe (set_enable-Quiet E vendor path on w) v

    enable_changed-IsSafe :
        (path : Text) (on onu : Bool) (w : World E)
        → IsSafe w
        → IsSafe (enable_changed E vendor path on onu w)
    enable_changed-IsSafe path true true w v = record {
      waiting = rth_schedule_enable-IsValid E.allocates path w.rth.tasks w.rth.timer v.waiting;
      reads = v.reads;
    }
    enable_changed-IsSafe path true false w v =
        let u = set_enable-IsSafe path true w v in record { waiting = u.waiting; reads = u.reads }
    enable_changed-IsSafe path false onu w v =
        let u = set_enable-IsSafe path false w v in
        record { waiting = disable-IsValid path _ u.waiting; reads = u.reads }

    enable_signal-IsSafe :
        (d : EventData) (onu : Bool) (w : World E)
        → IsSafe w
        → IsSafe (onu_or_ani_enable_changed E vendor d onu w)
    unfolding onu_or_ani_enable_changed
    enable_signal-IsSafe d onu w v = elim (Option-cases d.path) [
      | inl none' ↦ rw (none', onu_or_ani_enable_changed) v
      | inr (path, e) ↦
          rw (e, onu_or_ani_enable_changed)
            (enable_changed-IsSafe (E.strings.trimr path isdot) d.enable_to onu w v)
    ]

    password_changed-IsSafe :
        (d : EventData) (w : World E) → IsSafe w → IsSafe (password_changed E vendor d w)
    unfolding password_changed pon_ctrl_set_password
    password_changed-IsSafe d w v = moved (ground arith) (ground arith) v

    enable_each-IsSafe :
        (paths : List Text) (w : World E) → IsSafe w → IsSafe (enable_each E vendor paths w)
    unfolding enable_each
    enable_each-IsSafe [] w v = v
    enable_each-IsSafe (p ∷ ps) w v = enable_each-IsSafe ps _ (set_enable-IsSafe p true w v)

    rth_round-IsSafe : (w : World E) → IsSafe w → IsSafe (rth_round E vendor w)
    unfolding rth_round
    rth_round-IsSafe w v =
        let (rth, enabled) = handle_rth_tasks (found_in E vendor w) w.rth in
        enable_each-IsSafe enabled (record w { rth = rth })
          (record {
            waiting = Reach.fire-IsValid (found_in E vendor w) w.rth.tasks w.rth.timer v.waiting;
            reads = v.reads;
          })

module _ (E : Env) (o : Outside E) (C : Connections) where
  -- As `IsSafe`, and the state of populate_dm_startup.c is valid.
  pub record IsValid (s : System E C) : Type 0 where
    pub safe : IsSafe E s.app.world
    pub queries : Timers.IsValid E (vendor_of E o s.app.mgmt) o.max_nr_of_onus s.app.populate

  handle-IsSafe :
      (e : Event E) (s : System E C) → IsSafe E s.app.world → IsSafe E (handle E o C e s).app.world
  unfolding handle onu_enable_changed ani_enable_changed
  handle-IsSafe (onu_enable_signal d) s v =
      enable_signal-IsSafe E (vendor_of E o s.app.mgmt) d true s.app.world v
  handle-IsSafe (ani_enable_signal d) s v =
      enable_signal-IsSafe E (vendor_of E o s.app.mgmt) d false s.app.world v
  handle-IsSafe (password_signal d) s v =
      password_changed-IsSafe E (vendor_of E o s.app.mgmt) d s.app.world v
  handle-IsSafe rth_timer s v = elim (Bool-cases (is_started s.app.world.rth.timer)) [
    | inl running ↦
        simp (running, handle) (rth_round-IsSafe E (vendor_of E o s.app.mgmt) s.app.world v)
    | inr still ↦ simp (still, handle) v
  ]
  handle-IsSafe e s v = Quiet-IsSafe E (handle-Quiet E o C e s refl) v

  -- Only its two timers change the state of populate_dm_startup.c, and no event the vendor module.
  handle-queries :
      (e : Event E) (s : System E C)
      → Timers.IsValid E (vendor_of E o s.app.mgmt) o.max_nr_of_onus s.app.populate
      → let app = (handle E o C e s).app in
        Timers.IsValid E (vendor_of E o app.mgmt) o.max_nr_of_onus app.populate
  unfolding handle
  handle-queries rth_timer s v = elim (Bool-cases (is_started s.app.world.rth.timer)) [
    | inl running ↦ simp (running, handle) v
    | inr still ↦ simp (still, handle) v
  ]
  handle-queries (populate_timer f) s v =
      fire-IsValid E (vendor_of E o s.app.mgmt) o.max_nr_of_onus f s.app.populate s.app.world v
  handle-queries e s v = v

  pub handle-IsValid : (e : Event E) (s : System E C) → IsValid s → IsValid (handle E o C e s)
  handle-IsValid e s v = record {
    safe = handle-IsSafe e s v.safe;
    queries = handle-queries e s v.queries;
  }

  pub handle_all-IsValid :
      (es : List (Event E)) (s : System E C) → IsValid s → IsValid (handle_all E o C es s)
  unfolding handle_all
  handle_all-IsValid [] s v = v
  handle_all-IsValid (e ∷ es) s v = handle_all-IsValid es (handle E o C e s) (handle-IsValid e s v)
