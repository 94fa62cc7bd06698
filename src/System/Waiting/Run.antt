-- ===== src/System/Waiting/Run.antt =====
-- Over a whole run of the plugin, restore_to_hal.c enables only what is saved as enabled.
use tr181_xpon.Base.{
  ◌≡◌, refl, sym, subst, true, false, some, List, [], ◌∷◌, ◌++◌, Text, Bool-cases, inl, inr,
}
use tr181_xpon.Posix.{IsReliable}
use tr181_xpon.Settings.Refinement.{Op, enable, save, AreSavable}
use tr181_xpon.World.{Env}
use tr181_xpon.DmEvents.{onu_enable_changed, ani_enable_changed}
use tr181_xpon.PonStat.{Connections}
use tr181_xpon.PopulateDm.Timers.{is_started}
use tr181_xpon.Main.{Outside, vendor_of}
use tr181_xpon.System.{
  Event, onu_enable_signal, ani_enable_signal, password_signal, rth_timer, System, handle,
  handle_all,
}
use tr181_xpon.System.Frame.Handle.{handle-Quiet}
use tr181_xpon.System.Invariant.{IsValid, handle-IsValid}
use tr181_xpon.System.Saved.{saves, log}
use tr181_xpon.System.Waiting.{AreSaved}
use tr181_xpon.System.Waiting.Events.{
  is_saved, WaitsForSaved, EnablesSaved, Quiet-WaitsForSaved, enable_signal-WaitsForSaved,
  password-WaitsForSaved, round-WaitsForSaved,
}

module _ (E : Env) (dir upgr_dir : Text) (has_dir : E.s_storage_dir ≡ some dir)
    (has_upgr_dir : E.s_upgr_storage_dir ≡ some upgr_dir) (r : IsReliable E.faults) (o : Outside E)
    (C : Connections) where
  abbrev Savable : List Op → Type 0
  Savable ops = AreSavable E.faults dir upgr_dir ops

  Savable-both : (ops more : List Op) → Savable (ops ++ more) → Savable ops × Savable more
  Savable-both [] more h = (tt, h)
  Savable-both (enable object on ∷ ops) more h = Savable-both ops more h
  Savable-both (save ani_path password hex ∷ ops) more (short, ok, h) =
      let (now, later) = Savable-both ops more h in ((short, ok, now), later)

  handle-WaitsForSaved :
      (e : Event E) (s : System E C)
      → Savable (saves E e s.app.world)
      → IsValid E o C s
      → WaitsForSaved E s.app.world
      → WaitsForSaved E (handle E o C e s).app.world
  unfolding handle onu_enable_changed ani_enable_changed
  handle-WaitsForSaved (onu_enable_signal d) s ok v a =
      enable_signal-WaitsForSaved E dir upgr_dir has_dir has_upgr_dir r (vendor_of E o s.app.mgmt) d
        true s.app.world v.safe a
  handle-WaitsForSaved (ani_enable_signal d) s ok v a =
      enable_signal-WaitsForSaved E dir upgr_dir has_dir has_upgr_dir r (vendor_of E o s.app.mgmt) d
        false s.app.world v.safe a
  handle-WaitsForSaved (password_signal d) s ok v a =
      password-WaitsForSaved E dir upgr_dir has_dir has_upgr_dir r (vendor_of E o s.app.mgmt) d
        s.app.world ok a
  handle-WaitsForSaved rth_timer s ok v a = elim (Bool-cases (is_started s.app.world.rth.timer)) [
    | inl running ↦
        simp (running, handle)
          (round-WaitsForSaved E dir upgr_dir has_dir has_upgr_dir r (vendor_of E o s.app.mgmt)
            s.app.world a).0
    | inr still ↦ simp (still, handle) a
  ]
  handle-WaitsForSaved e s ok v a = Quiet-WaitsForSaved E (handle-Quiet E o C e s refl) a

  handle_all-WaitsForSaved :
      (es : List (Event E)) (s : System E C)
      → Savable (log E o C es s)
      → IsValid E o C s
      → WaitsForSaved E s.app.world
      → WaitsForSaved E (handle_all E o C es s).app.world
  unfolding handle_all
  handle_all-WaitsForSaved [] s ok v a = a
  handle_all-WaitsForSaved (e ∷ es) s ok v a =
      let (now, later) = Savable-both (saves E e s.app.world) _ ok in
      handle_all-WaitsForSaved es (handle E o C e s) later (handle-IsValid E o C e s v)
        (handle-WaitsForSaved e s now v a)

  -- From a valid state in which no task of restore_to_hal.c waits, such as a start leaves, and
  -- after any events in any order: each object that waits is saved as enabled, and what the timer
  -- of restore_to_hal.c then tells the vendor module is only to enable objects that are saved as
  -- enabled. The conditions are that both folders exist, no call on the disk fails, the paths of
  -- the ANIs are short enough for the names of their files and every password of a signal is
  -- empty or fits its file.
  pub only_saved_are_enabled :
      (es : List (Event E)) (s : System E C)
      → Savable (log E o C es s)
      → IsValid E o C s
      → s.app.world.rth.tasks ≡ []
      → let s' = handle_all E o C es s in
        WaitsForSaved E s'.app.world
        × (is_started s'.app.world.rth.timer ≡ true
            → EnablesSaved E s'.app.world (handle E o C rth_timer s').app.world)
  unfolding handle
  only_saved_are_enabled es s ok v nothing =
      let s' = handle_all E o C es s in
      let none-Waits = subst (AreSaved (is_saved E s.app.world.disk)) (sym nothing) tt in
      let waits = handle_all-WaitsForSaved es s ok v none-Waits in
      (
        waits,
        λ running.
            simp (running, handle)
              (round-WaitsForSaved E dir upgr_dir has_dir has_upgr_dir r (vendor_of E o s'.app.mgmt)
                s'.app.world waits).1,
      )
