-- ===== src/DmEvents/Enable.antt =====
-- dm_events.c and restore_to_hal.c: what follows when an ONU or an ANI is enabled or disabled.
use mathlib.Core.List.{append_assoc, append-nil}
use tr181_xpon.Base.{
  ◌≡◌, refl, ◌≢◌, ◌∙◌, ap, sym, subst, ℕ, Bool, true, false, some, List, [], ◌∷◌, ◌++◌, map, arith,
  Text, Bool-cases, inl, inr,
}
use tr181_xpon.Amxc.{Strings, IsLawful}
use tr181_xpon.Persistency.{persistency_is_enabled, persistency_enable, create_enabled_file_path}
use tr181_xpon.Persistency.Laws.{unlink_self, touch_file_self}
use tr181_xpon.RestoreToHal.{
  RthTask, Found, Rth, is_due, handle_tasks, handle_rth_tasks, rth_disable, remove_first,
  rth_schedule_enable,
}
use tr181_xpon.RestoreToHal.Invariant.{Absent, IsValid, remove_first_removes}
use tr181_xpon.World.{Env, World, set_enable}
use tr181_xpon.PonCtrl.{Vendor, pon_ctrl_set_enable}
use tr181_xpon.DmEvents.{
  EventData, isdot, enable_changed, onu_or_ani_enable_changed, enable_each, rth_round, found_in,
}

-- The path that an event gives for an object ends in a dot, which is trimmed.
pub trimmed :
    (S : Strings)
    → IsLawful S
    → (t : Text) (c : ℕ) → isdot c ≡ false
    → S.trimr ((t ++ (c ∷ [])) ++ (b'.' ∷ [])) isdot ≡ t ++ (c ∷ [])
trimmed S lawful t c h =
    lawful.trimr_step (t ++ (c ∷ [])) b'.' isdot refl ∙ lawful.trimr_stop t c isdot h

-- A path is not among some.
abbrev pub Missing : Text → List Text → Type 0
Missing p [] = Unit
Missing p (q ∷ qs) = (q ≢ p) × Missing p qs

handle_tasks-Missing :
    (find : Text → Found) (p : Text) (ts : List RthTask)
    → Absent p ts
    → Missing p (handle_tasks find ts).1
unfolding handle_tasks
handle_tasks-Missing find p [] a = tt
handle_tasks-Missing find p (t ∷ ts) (n, a) = elim (Bool-cases (is_due (find t.path) t)) [
  | inl due ↦ rw due (n, handle_tasks-Missing find p ts a)
  | inr wait ↦ rw wait (handle_tasks-Missing find p ts a)
]

handle_rth_tasks-Missing :
    (find : Text → Found) (p : Text) (rth : Rth)
    → Absent p rth.tasks
    → Missing p (handle_rth_tasks find rth).1
unfolding handle_rth_tasks
handle_rth_tasks-Missing find p rth a = from rth.tasks refl
  where
    from : (ts : List RthTask) → rth.tasks ≡ ts → Missing p (handle_rth_tasks find rth).1
    from [] e = rw (e, handle_rth_tasks) tt
    from (t ∷ ts) e =
        rw (e, handle_rth_tasks) (handle_tasks-Missing find p (t ∷ ts) (subst (Absent p) e a))

module _ (E : Env) (vendor : Vendor E.variants) where
  pub enable_each_calls :
      vendor.loaded ≡ true
      → (paths : List Text) (w : World E)
      → (enable_each E vendor paths w).calls ≡ w.calls ++ map (λ q. set_enable q true) paths
  unfolding enable_each pon_ctrl_set_enable
  enable_each_calls loaded [] w = sym (append-nil w.calls)
  enable_each_calls loaded (q ∷ qs) w =
      enable_each_calls loaded qs (pon_ctrl_set_enable E vendor q true w)
      ∙ ap (λ calls. calls ++ map (λ q. set_enable q true) qs) (rw loaded refl)
      ∙ append_assoc w.calls (set_enable q true ∷ []) (map (λ q. set_enable q true) qs)

  rth_same :
      (path : Text) (enable : Bool) (w : World E)
      → (pon_ctrl_set_enable E vendor path enable w).rth ≡ w.rth
  unfolding pon_ctrl_set_enable
  rth_same path enable w = ground arith

  disabled-Absent :
      (object : Text) (onu : Bool) (w : World E)
      → IsValid w.rth
      → Absent object (enable_changed E vendor object false onu w).rth.tasks
  unfolding rth_disable pon_ctrl_set_enable
  disabled-Absent object onu w v =
      subst (λ r. Absent object (remove_first object r.tasks)) (sym (rth_same object false w))
        (remove_first_removes object w.rth.tasks v.distinct)

  disabled_file :
      (dir : Text)
      → E.s_storage_dir ≡ some dir
      → (object : Text) → E.faults.unlink (create_enabled_file_path (some dir) object) ≡ true
      → (onu : Bool) (w : World E)
      → persistency_is_enabled E.s_storage_dir object
          (enable_changed E vendor object false onu w).disk
        ≡ false
  unfolding persistency_is_enabled persistency_enable
  disabled_file dir d object unlinks onu w = rw d (
      ground (
        arith,
        unlink_self E.faults (pon_ctrl_set_enable E vendor object false w).disk
            (create_enabled_file_path (some dir) object) unlinks,
      ))

  enabled_file :
      (dir : Text)
      → E.s_storage_dir ≡ some dir
      → (object : Text) → E.faults.fopen_write (create_enabled_file_path (some dir) object) ≡ true
      → (w : World E)
      → persistency_is_enabled E.s_storage_dir object
          (persistency_enable E.faults E.s_storage_dir object true w.disk)
        ≡ true
  unfolding persistency_is_enabled persistency_enable
  enabled_file dir d object writes w =
      rw d (touch_file_self E.faults w.disk (create_enabled_file_path (some dir) object) writes)

  -- The event of an object is handled for the path without the dot.
  pub event_lem :
      IsLawful E.strings
      → (t : Text) (c : ℕ) → isdot c ≡ false
      → (event_data : EventData) (onu : Bool) (w : World E)
      → event_data.path ≡ some ((t ++ (c ∷ [])) ++ (b'.' ∷ []))
      → onu_or_ani_enable_changed E vendor event_data onu w
        ≡ enable_changed E vendor (t ++ (c ∷ [])) event_data.enable_to onu w
  unfolding onu_or_ani_enable_changed
  event_lem lawful t c nodot event_data onu w path =
      rw (path, onu_or_ani_enable_changed)
        (ap (λ o. enable_changed E vendor o event_data.enable_to onu w)
          (trimmed E.strings lawful t c nodot))

  -- The object does not count as enabled after a restart, and the next round of
  -- restore_to_hal.c tells the vendor module to enable only other objects.
  abbrev pub StaysDisabled : Text → World E → Type 0
  StaysDisabled object w =
      (persistency_is_enabled E.s_storage_dir object w.disk ≡ false)
      × (enabled : List Text) × Missing object enabled
      × ((rth_round E vendor w).calls ≡ w.calls ++ map (λ q. set_enable q true) enabled)

  Absent-not_enabled :
      (object : Text) (w : World E)
      → vendor.loaded ≡ true
      → persistency_is_enabled E.s_storage_dir object w.disk ≡ false
      → Absent object w.rth.tasks
      → StaysDisabled object w
  unfolding rth_round
  Absent-not_enabled object w loaded off absent = (
    off,
    (handle_rth_tasks (found_in E vendor w) w.rth).1,
    handle_rth_tasks-Missing (found_in E vendor w) object w.rth absent,
    enable_each_calls loaded _ _,
  )

  -- When an event says that an object is disabled, the object does not count as enabled after a
  -- restart and the next round of restore_to_hal.c tells the vendor module to enable only other
  -- objects, if a vendor module is loaded and the file of the object can be removed.
  pub disabled-StaysDisabled :
      IsLawful E.strings
      → vendor.loaded ≡ true
      → (dir : Text) → E.s_storage_dir ≡ some dir
      → (t : Text) (c : ℕ) → isdot c ≡ false
      → E.faults.unlink (create_enabled_file_path (some dir) (t ++ (c ∷ []))) ≡ true
      → (event_data : EventData) (onu : Bool) (w : World E)
      → event_data.path ≡ some ((t ++ (c ∷ [])) ++ (b'.' ∷ []))
      → event_data.enable_to ≡ false
      → IsValid w.rth
      → StaysDisabled (t ++ (c ∷ [])) (onu_or_ani_enable_changed E vendor event_data onu w)
  disabled-StaysDisabled lawful loaded dir d t c nodot unlinks event_data onu w path off v =
      subst (StaysDisabled (t ++ (c ∷ [])))
        (sym (
          event_lem lawful t c nodot event_data onu w path
          ∙ ap (λ e. enable_changed E vendor (t ++ (c ∷ [])) e onu w) off))
        (Absent-not_enabled (t ++ (c ∷ [])) _ loaded (disabled_file dir d _ unlinks onu w)
          (disabled-Absent (t ++ (c ∷ [])) onu w v))

  -- When an event says that an ONU is enabled, nothing is asked of the vendor module and no object
  -- changes for now; the object counts as enabled after a restart, if its file can be created.
  enabled_onu_saved :
      IsLawful E.strings
      → (dir : Text) → E.s_storage_dir ≡ some dir
      → (t : Text) (c : ℕ) → isdot c ≡ false
      → E.faults.fopen_write (create_enabled_file_path (some dir) (t ++ (c ∷ []))) ≡ true
      → (event_data : EventData) (w : World E)
      → event_data.path ≡ some ((t ++ (c ∷ [])) ++ (b'.' ∷ []))
      → event_data.enable_to ≡ true
      → let w' = onu_or_ani_enable_changed E vendor event_data true w in
        (persistency_is_enabled E.s_storage_dir (t ++ (c ∷ [])) w'.disk ≡ true)
        × (w'.rth ≡ rth_schedule_enable E.allocates (t ++ (c ∷ [])) w.rth)
        × (w'.store ≡ w.store)
        × (w'.calls ≡ w.calls)
  enabled_onu_saved lawful dir d t c nodot writes event_data w path on =
      subst
        (λ w'.
          (persistency_is_enabled E.s_storage_dir (t ++ (c ∷ [])) w'.disk ≡ true)
          × (w'.rth ≡ rth_schedule_enable E.allocates (t ++ (c ∷ [])) w.rth)
          × (w'.store ≡ w.store)
          × (w'.calls ≡ w.calls))
        (sym (
          event_lem lawful t c nodot event_data true w path
          ∙ ap (λ e. enable_changed E vendor (t ++ (c ∷ [])) e true w) on))
        (enabled_file dir d (t ++ (c ∷ [])) writes w, refl, refl, refl)
