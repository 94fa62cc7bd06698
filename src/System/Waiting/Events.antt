-- ===== src/System/Waiting/Events.antt =====
-- No event makes restore_to_hal.c wait for an object that is not saved as enabled.
use mathlib.Core.List.{append-nil}
use tr181_xpon.Base.{
  ◌≡◌, refl, ◌≢◌, ◌∙◌, ap, sym, subst, Bool, true, false, some, List, [], ◌∷◌, ◌++◌, map, arith,
  Text, text_eq, text_eq_iff, text_eq_refl, if◌then◌else◌, Bool-cases, Option-cases, inl, inr,
}
use tr181_xpon.Posix.{Disk, IsReliable}
use tr181_xpon.Persistency.{persistency_enable, persistency_is_enabled}
use tr181_xpon.Persistency.Laws.{is_enabled-enable}
use tr181_xpon.Settings.Refinement.{Settings, replay, view, AreSavable, perform_refines}
use tr181_xpon.RestoreToHal.{Rth, handle_rth_tasks, rth_disable}
use tr181_xpon.RestoreToHal.Invariant.{remove_first_removes}
use tr181_xpon.World.{Env, World, set_enable}
use tr181_xpon.PonCtrl.{Vendor, pon_ctrl_set_enable, pon_ctrl_set_password}
use tr181_xpon.DataModel.Local.{Schedules, no_more, one_more}
use tr181_xpon.DmEvents.{
  EventData, isdot, enable_changed, onu_or_ani_enable_changed, password_changed, found_in,
  rth_round, enable_each,
}
use tr181_xpon.DmEvents.Reached.{round_tasks, enable_each_keeps}
use tr181_xpon.DmEvents.Enable.{enable_each_calls}
use tr181_xpon.System.Frame.{Quiet, set_enable-Quiet}
use tr181_xpon.System.Invariant.{IsSafe, set_enable-IsSafe}
use tr181_xpon.System.Saved.{saves_password, password-kept, round-kept}
use tr181_xpon.System.Waiting.{
  AreSaved, AllSaved, AreSaved-same, schedule-AreSaved, remove-AreSaved, round-AreSaved,
}

module _ (E : Env) where
  abbrev pub is_saved : Disk → Text → Bool
  is_saved d object = persistency_is_enabled E.s_storage_dir object d

  -- Each object that waits for restore_to_hal.c is saved as enabled.
  abbrev pub WaitsForSaved : World E → Type 0
  WaitsForSaved w = AreSaved (is_saved w.disk) w.rth.tasks

  -- The vendor module has been told to enable objects that were saved as enabled, and no more.
  abbrev pub EnablesSaved : World E → World E → Type 0
  EnablesSaved w w' =
      (enabled : List Text) × AllSaved (is_saved w.disk) enabled
      × (w'.calls ≡ w.calls ++ map (λ q. set_enable q true) enabled)

  Schedules-AreSaved :
      {d : Disk} {rth rth' : Rth}
      → Schedules E d rth rth'
      → AreSaved (is_saved d) rth.tasks
      → AreSaved (is_saved d) rth'.tasks
  Schedules-AreSaved (no_more rth) a = a
  Schedules-AreSaved {d} (one_more object rth rth' e h) a =
      Schedules-AreSaved h (schedule-AreSaved (is_saved d) E.allocates object rth e a)

  pub Quiet-WaitsForSaved : {w w' : World E} → Quiet E w w' → WaitsForSaved w → WaitsForSaved w'
  Quiet-WaitsForSaved {w} {w'} q a =
      subst (λ d. AreSaved (is_saved d) w'.rth.tasks) (sym q.disk) (Schedules-AreSaved q.rth a)

  module _ (dir upgr_dir : Text) (has_dir : E.s_storage_dir ≡ some dir)
      (has_upgr_dir : E.s_upgr_storage_dir ≡ some upgr_dir) (r : IsReliable E.faults)
      (vendor : Vendor E.variants) where
    saved_after :
        (object q : Text) (on : Bool) (d : Disk)
        → is_saved (persistency_enable E.faults E.s_storage_dir object on d) q
          ≡ (if text_eq object q then on else is_saved d q)
    saved_after object q on d =
        subst
          (λ s.
            persistency_is_enabled s q (persistency_enable E.faults s object on d)
            ≡ (if text_eq object q then on else persistency_is_enabled s q d))
          (sym has_dir) (is_enabled-enable E.faults d dir object q on (r.writes _) (r.unlinks _))

    still_saved :
        (object p : Text) (d : Disk)
        → is_saved d p ≡ true
        → is_saved (persistency_enable E.faults E.s_storage_dir object true d) p ≡ true
    still_saved object p d h = ground (arith, saved_after object p true d)

    saved_elsewhere :
        (object p : Text) (d : Disk)
        → object ≢ p
        → is_saved (persistency_enable E.faults E.s_storage_dir object false d) p ≡ is_saved d p
    saved_elsewhere object p d h = elim (Bool-cases (text_eq object p)) [
      | inl same ↦ absurd (h ((text_eq_iff object p).0 same))
      | inr differ ↦ saved_after object p false d ∙ rw differ refl
    ]

    enable_changed-WaitsForSaved :
        (object : Text) (on onu : Bool) (w : World E)
        → IsSafe E w
        → WaitsForSaved w
        → WaitsForSaved (enable_changed E vendor object on onu w)
    unfolding rth_disable
    enable_changed-WaitsForSaved object true true w v a =
        let d = persistency_enable E.faults E.s_storage_dir object true w.disk in
        schedule-AreSaved (is_saved d) E.allocates object w.rth
          (saved_after object object true w.disk ∙ rw (text_eq_refl object) refl)
          (AreSaved-same (is_saved w.disk) (is_saved d) w.rth.tasks
            (λ p h. still_saved object p w.disk h) a)
    enable_changed-WaitsForSaved object true false w v a =
        let u = pon_ctrl_set_enable E vendor object true w in
        let d = persistency_enable E.faults E.s_storage_dir object true u.disk in
        AreSaved-same (is_saved u.disk) (is_saved d) u.rth.tasks
          (λ p h. still_saved object p u.disk h)
          (Quiet-WaitsForSaved (set_enable-Quiet E vendor object true w) a)
    enable_changed-WaitsForSaved object false onu w v a =
        let u = pon_ctrl_set_enable E vendor object false w in
        let d = persistency_enable E.faults E.s_storage_dir object false u.disk in
        let safe = set_enable-IsSafe E vendor object false w v in
        remove-AreSaved (is_saved u.disk) (is_saved d) object u.rth.tasks
          (λ p h. saved_elsewhere object p u.disk h)
          (remove_first_removes object u.rth.tasks safe.waiting.distinct)
          (Quiet-WaitsForSaved (set_enable-Quiet E vendor object false w) a)

    pub enable_signal-WaitsForSaved :
        (d : EventData) (onu : Bool) (w : World E)
        → IsSafe E w
        → WaitsForSaved w
        → WaitsForSaved (onu_or_ani_enable_changed E vendor d onu w)
    unfolding onu_or_ani_enable_changed
    enable_signal-WaitsForSaved d onu w v a = elim (Option-cases d.path) [
      | inl none' ↦ rw (none', onu_or_ani_enable_changed) a
      | inr (path, e) ↦
          rw (e, onu_or_ani_enable_changed)
            (enable_changed-WaitsForSaved (E.strings.trimr path isdot) d.enable_to onu w v a)
    ]

    passwords_only :
        (d : EventData) (s : E.amxd.Store) (kept : Settings) (q : Text)
        → (replay (saves_password E d s) kept).enabled q ≡ kept.enabled q
    passwords_only d s kept q = ground arith

    password_same : (d : EventData) (w : World E) → (password_changed E vendor d w).rth ≡ w.rth
    unfolding password_changed pon_ctrl_set_password
    password_same d w = ground arith

    password_keeps :
        (d : EventData) (w : World E)
        → AreSavable E.faults dir upgr_dir (saves_password E d w.store)
        → (q : Text) → is_saved (password_changed E vendor d w).disk q ≡ is_saved w.disk q
    password_keeps d w ok q =
        let u = password_changed E vendor d w in
        let ops = saves_password E d w.store in
        ap (λ s. persistency_is_enabled s q u.disk) has_dir
        ∙ ap (persistency_is_enabled (some dir) q)
            (password-kept E dir upgr_dir has_dir has_upgr_dir vendor d w)
        ∙ ap (λ s. s.enabled q) (perform_refines E.faults dir upgr_dir r ops w.disk ok)
        ∙ passwords_only d w.store (view E.faults dir upgr_dir w.disk) q
        ∙ ap (λ s. persistency_is_enabled s q w.disk) (sym has_dir)

    pub password-WaitsForSaved :
        (d : EventData) (w : World E)
        → AreSavable E.faults dir upgr_dir (saves_password E d w.store)
        → WaitsForSaved w
        → WaitsForSaved (password_changed E vendor d w)
    password-WaitsForSaved d w ok a =
        let u = password_changed E vendor d w in
        subst (λ rth. AreSaved (is_saved u.disk) rth.tasks) (sym (password_same d w))
          (AreSaved-same (is_saved w.disk) (is_saved u.disk) w.rth.tasks
            (λ p h. password_keeps d w ok p ∙ h) a)

    unloaded_calls :
        vendor.loaded ≡ false
        → (paths : List Text) (w : World E) → (enable_each E vendor paths w).calls ≡ w.calls
    unfolding enable_each pon_ctrl_set_enable
    unloaded_calls missing [] w = refl
    unloaded_calls missing (p ∷ ps) w =
        unloaded_calls missing ps (pon_ctrl_set_enable E vendor p true w) ∙ rw missing refl

    round_calls :
        (w : World E)
        → AllSaved (is_saved w.disk) (handle_rth_tasks (found_in E vendor w) w.rth).1
        → EnablesSaved w (rth_round E vendor w)
    unfolding rth_round
    round_calls w all_saved =
        let (rth, enabled) = handle_rth_tasks (found_in E vendor w) w.rth in
        elim (Bool-cases vendor.loaded) [
          | inl loaded ↦ (
            enabled,
            all_saved,
            enable_each_calls E vendor loaded enabled (record w { rth = rth }),
          )
          | inr missing ↦ (
            [],
            tt,
            unloaded_calls missing enabled (record w { rth = rth }) ∙ sym (append-nil w.calls),
          )
        ]

    round_left :
        (w : World E)
        → (rth_round E vendor w).rth ≡ (handle_rth_tasks (found_in E vendor w) w.rth).0
    unfolding rth_round
    round_left w =
        let (rth, enabled) = handle_rth_tasks (found_in E vendor w) w.rth in
        (enable_each_keeps E vendor enabled (record w { rth = rth })).0

    pub round-WaitsForSaved :
        (w : World E)
        → WaitsForSaved w
        → WaitsForSaved (rth_round E vendor w) × EnablesSaved w (rth_round E vendor w)
    round-WaitsForSaved w a =
        let f = is_saved w.disk in
        let (tasks, calls) = round_tasks (found_in E vendor w) w.rth in
        let (left, enabled) = round-AreSaved f (found_in E vendor w) w.rth.tasks a in
        let same = round-kept E dir upgr_dir has_dir has_upgr_dir vendor w in
        (
          subst (λ d. AreSaved (is_saved d) (rth_round E vendor w).rth.tasks) (sym same)
              (subst (AreSaved f) (sym (ap (λ rth. rth.tasks) (round_left w) ∙ tasks)) left),
          round_calls w (subst (AllSaved f) (sym calls) enabled),
        )
