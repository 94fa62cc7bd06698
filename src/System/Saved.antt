-- ===== src/System/Saved.antt =====
-- What a running plugin keeps over a restart and an upgrade: what the signals on Enable and on
-- Password say, in the order of the signals.
use tr181_xpon.Base.{
  ◌≡◌, refl, ◌∙◌, ap, sym, Bool, true, false, none, some, List, [], ◌∷◌, ◌++◌, arith, Text, length,
  ◌==◌, if◌then◌else◌, Bool-cases, inl, inr,
}
use tr181_xpon.Posix.{Disk, IsReliable}
use tr181_xpon.Ani.{ani_strip_tc_authentication}
use tr181_xpon.Settings.Refinement.{
  Op, enable, save, perform, replay, view, AreSavable, perform_refines,
}
use tr181_xpon.RestoreToHal.{handle_rth_tasks}
use tr181_xpon.World.{Env, World}
use tr181_xpon.PonCtrl.{Vendor, pon_ctrl_set_enable, pon_ctrl_set_password}
use tr181_xpon.DataModel.Reads.{dm_is_hex_password}
use tr181_xpon.DmEvents.{
  EventData, isdot, onu_or_ani_enable_changed, onu_enable_changed, ani_enable_changed,
  password_changed, found_in, enable_each, rth_round,
}
use tr181_xpon.PonStat.{Connections}
use tr181_xpon.PopulateDm.Timers.{is_started}
use tr181_xpon.Main.{Outside, vendor_of}
use tr181_xpon.System.{
  Event, onu_enable_signal, ani_enable_signal, password_signal, rth_timer, System, handle,
  handle_all,
}
use tr181_xpon.System.Frame.Handle.{handle-Quiet}

module _ (E : Env) where
  -- What a signal on Enable says, if it has a path.
  abbrev pub enables : EventData → List Op
  enables d = elim (d.path) [
    | none ↦ []
    | some path ↦ enable (E.strings.trimr path isdot) d.enable_to ∷ []
  ]

  abbrev passwords : Text → Text → E.amxd.Store → List Op
  passwords ani_path password s =
      if length password == 0
      then save ani_path password false ∷ []
      else elim (dm_is_hex_password E.amxd s ani_path) [
        | none ↦ []
        | some hex ↦ save ani_path password hex ∷ []
      ]

  -- What a signal on Password says, if it has a path to the password of an ANI. The data model
  -- says whether it is hexadecimal.
  abbrev pub saves_password : EventData → E.amxd.Store → List Op
  saves_password d s = elim (d.path) [
    | none ↦ []
    | some path ↦ elim (d.password_to) [
      | none ↦ []
      | some password ↦
          let (rv, ani_path) = ani_strip_tc_authentication E.strings (E.strings.trimr path isdot) in
          if rv then passwords ani_path password s else []
    ]
  ]

  abbrev pub saves : Event E → World E → List Op
  saves (onu_enable_signal d) w = enables d
  saves (ani_enable_signal d) w = enables d
  saves (password_signal d) w = saves_password d w.store
  saves _ w = []

module _ (E : Env) (o : Outside E) (C : Connections) where
  -- What the signals among the events say, each when it comes.
  abbrev pub log : List (Event E) → System E C → List Op
  log [] s = []
  log (e ∷ es) s = saves E e s.app.world ++ log es (handle E o C e s)

module _ (E : Env) (dir upgr_dir : Text) (has_dir : E.s_storage_dir ≡ some dir)
    (has_upgr_dir : E.s_upgr_storage_dir ≡ some upgr_dir) where
  abbrev kept : List Op → Disk → Disk
  kept ops d = perform E.faults dir upgr_dir ops d

  module _ (vendor : Vendor E.variants) where
    enable-kept :
        (d : EventData) (onu : Bool) (w : World E)
        → (onu_or_ani_enable_changed E vendor d onu w).disk ≡ kept (enables E d) w.disk
    unfolding onu_or_ani_enable_changed pon_ctrl_set_enable
    enable-kept d onu w = ground (arith, has_dir)

    pub password-kept :
        (d : EventData) (w : World E)
        → (password_changed E vendor d w).disk ≡ kept (saves_password E d w.store) w.disk
    unfolding password_changed pon_ctrl_set_password
    password-kept d w = ground (arith, has_upgr_dir)

    pub enable_each-kept :
        (paths : List Text) (w : World E) → (enable_each E vendor paths w).disk ≡ w.disk
    unfolding enable_each pon_ctrl_set_enable
    enable_each-kept [] w = refl
    enable_each-kept (p ∷ ps) w =
        enable_each-kept ps (pon_ctrl_set_enable E vendor p true w) ∙ ground arith

    pub round-kept : (w : World E) → (rth_round E vendor w).disk ≡ w.disk
    unfolding rth_round
    round-kept w =
        let (rth, enabled) = handle_rth_tasks (found_in E vendor w) w.rth in
        enable_each-kept enabled (record w { rth = rth })

  perform_both : (ops more : List Op) (d : Disk) → kept (ops ++ more) d ≡ kept more (kept ops d)
  perform_both [] more d = refl
  perform_both (op ∷ ops) more d = perform_both ops more (kept (op ∷ []) d)

  module _ (o : Outside E) (C : Connections) where
    pub handle-kept :
        (e : Event E) (s : System E C)
        → (handle E o C e s).app.world.disk ≡ kept (saves E e s.app.world) s.app.world.disk
    unfolding handle onu_enable_changed ani_enable_changed
    handle-kept (onu_enable_signal d) s = enable-kept (vendor_of E o s.app.mgmt) d true s.app.world
    handle-kept (ani_enable_signal d) s = enable-kept (vendor_of E o s.app.mgmt) d false s.app.world
    handle-kept (password_signal d) s = password-kept (vendor_of E o s.app.mgmt) d s.app.world
    handle-kept rth_timer s = elim (Bool-cases (is_started s.app.world.rth.timer)) [
      | inl running ↦ simp (running, handle) (round-kept (vendor_of E o s.app.mgmt) s.app.world)
      | inr still ↦ simp (still, handle) refl
    ]
    handle-kept e s = (handle-Quiet E o C e s refl).disk

    pub handle_all-kept :
        (es : List (Event E)) (s : System E C)
        → (handle_all E o C es s).app.world.disk ≡ kept (log E o C es s) s.app.world.disk
    unfolding handle_all
    handle_all-kept [] s = refl
    handle_all-kept (e ∷ es) s =
        handle_all-kept es (handle E o C e s)
        ∙ ap (kept (log E o C es (handle E o C e s))) (handle-kept e s)
        ∙ sym (
            perform_both (saves E e s.app.world) (log E o C es (handle E o C e s)) s.app.world.disk)

    -- Over any events in any order, what is saved changes only by the signals on Enable and on
    -- Password, and as if each wrote its value into a map: for each object and each ANI it is what
    -- the last signal for it said, and what it was before if there was none. The conditions are
    -- that both folders exist, no call on the disk fails, the paths of the ANIs are short enough
    -- for the names of their files and every password of a signal is empty or fits its file.
    pub saved_by_signals :
        IsReliable E.faults
        → (es : List (Event E)) (s : System E C) → AreSavable E.faults dir upgr_dir (log E o C es s)
        → view E.faults dir upgr_dir (handle_all E o C es s).app.world.disk
          ≡ replay (log E o C es s) (view E.faults dir upgr_dir s.app.world.disk)
    saved_by_signals r es s ok =
        ap (view E.faults dir upgr_dir) (handle_all-kept es s)
        ∙ perform_refines E.faults dir upgr_dir r (log E o C es s) s.app.world.disk ok
