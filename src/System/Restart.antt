-- ===== src/System/Restart.antt =====
-- What a plugin restores after a restart or an upgrade: what the last signals before it said.
use tr181_xpon.Base.{
  ◌≡◌, refl, ◌≢◌, ◌∙◌, ap, subst, Bool, true, false, some, none, List, [], Text, length, ◌==◌,
  if◌then◌else◌,
}
use tr181_xpon.Posix.{IsReliable}
use tr181_xpon.Amxd.{set_param, Transaction}
use tr181_xpon.DmInfo.{enable_param}
use tr181_xpon.Persistency.{persistency_is_enabled}
use tr181_xpon.UpgradePersistency.{Saved, upgr_persistency_get_password}
use tr181_xpon.RestoreToHal.{rth_schedule_enable}
use tr181_xpon.Settings.Refinement.{replay, view, AreSavable}
use tr181_xpon.World.{Env, World}
use tr181_xpon.DataModel.Args.{ActionInfo}
use tr181_xpon.DataModel.Transactions.{instance_path, append_if_possible}
use tr181_xpon.DataModel.Change.{
  Var, restore_onu_enable, update_password_in_dm, passwd_restore_password,
}
use tr181_xpon.DataModel.Change.Once.{restore_first}
use tr181_xpon.PonStat.{Connections}
use tr181_xpon.Main.{Outside}
use tr181_xpon.System.{Event, System, handle_all}
use tr181_xpon.System.Saved.{log, saved_by_signals}

module _ (E : Env) where
  -- What the first change of an ONU does after a restart, and what is done when an ANI is added.
  abbrev pub RestoresEnable : Bool → Text → ActionInfo (Var E) → World E → Type 0
  RestoresEnable enabled object info w =
      (t : Transaction (Var E))
      → let (t', w') = restore_onu_enable E object info t w in
        (t' ≡ (
          if enabled
          then append_if_possible E.amxd w.store t
              (set_param enable_param (E.variants.of_bool true))
          else t))
        × (w'.rth ≡ (
            if enabled
            then rth_schedule_enable E.allocates (instance_path info.path info.index) w.rth
            else w.rth))

  abbrev pub RestoresPassword : Saved → Text → World E → Type 0
  RestoresPassword saved ani_path w = passwd_restore_password E ani_path w ≡ (
      if saved.rv
      then if length saved.password == 0
        then w
        else update_password_in_dm E ani_path saved.password saved.hex w
      else w)

  password_restored :
      (ani_path : Text) (w : World E)
      → RestoresPassword
          (upgr_persistency_get_password E.faults E.s_upgr_storage_dir ani_path [] false w.disk)
          ani_path
          w
  unfolding passwd_restore_password
  password_restored ani_path w = refl

  module _ (dir upgr_dir : Text) (has_dir : E.s_storage_dir ≡ some dir)
      (has_upgr_dir : E.s_upgr_storage_dir ≡ some upgr_dir) (r : IsReliable E.faults)
      (o : Outside E) (C : Connections) where
    -- A plugin that starts on the files that another run has left sets Enable of an ONU and
    -- schedules it, when it is changed for the first time, exactly if the last signal of that run
    -- on its Enable said so; and writes into the data model, when an ANI is added, the password
    -- that the last signal on it said, unless that is empty. Without a signal it is what the files
    -- said before that run. The conditions are that both folders exist, no call on the disk fails,
    -- the paths of the ANIs are short enough for the names of their files and every password of a
    -- signal is empty or fits its file.
    pub restored_as_signalled :
        (es : List (Event E)) (s : System E C)
        → AreSavable E.faults dir upgr_dir (log E o C es s)
        → (later : World E) → later.disk ≡ (handle_all E o C es s).app.world.disk
        → let said = replay (log E o C es s) (view E.faults dir upgr_dir s.app.world.disk) in
          ((object : Text) (info : ActionInfo (Var E))
            → later.privs object ≡ none
            → info.index ≢ 0
            → RestoresEnable (said.enabled (instance_path info.path info.index)) object info later)
          × ((ani_path : Text) → RestoresPassword (said.password ani_path) ani_path later)
    restored_as_signalled es s ok later same =
        let kept =
          ap (view E.faults dir upgr_dir) same
          ∙ saved_by_signals E dir upgr_dir has_dir has_upgr_dir o C r es s ok in
        (
          λ object info bare index.
              let path = instance_path info.path info.index in
              subst (λ b. RestoresEnable b object info later)
                (ap (λ d. persistency_is_enabled d path later.disk) has_dir
                  ∙ ap (λ v. v.enabled path) kept)
                (λ t. restore_first E object later info t bare index),
          λ ani_path.
              subst (λ v. RestoresPassword v ani_path later)
                (ap (λ d. upgr_persistency_get_password E.faults d ani_path [] false later.disk)
                    has_upgr_dir
                  ∙ ap (λ v. v.password ani_path) kept)
                (password_restored ani_path later),
        )
