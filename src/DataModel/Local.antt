-- ===== src/DataModel/Local.antt =====
-- data_model.c: what a call from the vendor module leaves alone.
pub mod Calls
use tr181_xpon.Base.{
  ◌≡◌, refl, ◌∙◌, sym, subst, ℕ, Bool, true, false, Option, none, some, [], Text, length, ◌==◌,
  Bool-cases, Option-cases, inl, inr,
}
use tr181_xpon.Amxd.{Transaction}
use tr181_xpon.DmInfo.{onu}
use tr181_xpon.Persistency.{persistency_is_enabled}
use tr181_xpon.UpgradePersistency.{upgr_persistency_get_password}
use tr181_xpon.RestoreToHal.{Rth, rth_schedule_enable, is_onu}
use tr181_xpon.Posix.{Disk}
use tr181_xpon.World.{Env, World}
use tr181_xpon.DataModel.Args.{ActionInfo, process_args_common, change_obj_args_required}
use tr181_xpon.DataModel.Transactions.{instance_path, add_params_to_transaction, update_enable}
use tr181_xpon.DataModel.Change.{
  Var, apply, onu_priv_attach_private_data, restore_onu_enable, target_path, change_found,
  dm_change_object, password_args, update_password_in_dm, passwd_restore_password,
}

module _ (E : Env) where
  -- What is scheduled is an object that a file says is enabled.
  pub data Schedules (d : Disk) : Rth → Rth → Type 0 where
    no_more : (rth : Rth) → Schedules d rth rth
    one_more :
        (object : Text) (rth rth' : Rth)
        → persistency_is_enabled E.s_storage_dir object d ≡ true
        → Schedules d (rth_schedule_enable E.allocates object rth) rth'
        → Schedules d rth rth'

  pub Schedules-trans :
      {d : Disk} {q r s : Rth} → Schedules d q r → Schedules d r s → Schedules d q s
  Schedules-trans (no_more rth) t = t
  Schedules-trans (one_more object rth rth' e h) t = one_more object rth _ e (Schedules-trans h t)

  -- No file, flag or call differs, and objects that are saved as enabled may have been scheduled.
  pub record Local (w w' : World E) : Type 0 where
    pub rth : Schedules w.disk w.rth w'.rth
    pub disk : w'.disk ≡ w.disk
    pub reads : w.s_ignore_param_reads ≡ false → w'.s_ignore_param_reads ≡ false
    pub calls : w'.calls ≡ w.calls

  pub Local-refl : (w : World E) → Local w w
  Local-refl w = record { rth = no_more w.rth; disk = refl; reads = λ h. h; calls = refl }

  pub Local-trans : {u v w : World E} → Local u v → Local v w → Local u w
  Local-trans {u} {v} {w} a b = record {
    rth = Schedules-trans a.rth (subst (λ d. Schedules d v.rth w.rth) a.disk b.rth);
    disk = b.disk ∙ a.disk;
    reads = λ h. b.reads (a.reads h);
    calls = b.calls ∙ a.calls;
  }

  -- Only the objects and their private data differ.
  pub Local-same :
      {w w' : World E}
      → w'.rth ≡ w.rth
      → w'.disk ≡ w.disk
      → (w.s_ignore_param_reads ≡ false → w'.s_ignore_param_reads ≡ false)
      → w'.calls ≡ w.calls
      → Local w w'
  Local-same {w} {w'} r d i c = record {
    rth = subst (Schedules w.disk w.rth) (sym r) (no_more w.rth);
    disk = d;
    reads = i;
    calls = c;
  }

  pub apply-Local : (t : Transaction (Var E)) (w : World E) → Local w (apply E t w).1
  apply-Local t w = elim (Option-cases (E.amxd.apply w.s_ignore_param_reads w.store t)) [
    | inl failed ↦ rw (failed, apply) (Local-refl w)
    | inr (s', done) ↦ rw (done, apply) (Local-same refl refl (λ h. h) refl)
  ]

  pub attach-Local : (object : Text) (w : World E) → Local w (onu_priv_attach_private_data object w)
  unfolding onu_priv_attach_private_data
  attach-Local object w = elim (Option-cases (w.privs object)) [
    | inl none' ↦ rw (none', onu_priv_attach_private_data) (Local-same refl refl (λ h. h) refl)
    | inr (p, e) ↦ rw (e, onu_priv_attach_private_data) (Local-refl w)
  ]

  update_enable-Schedules :
      (w : World E) (t : Transaction (Var E)) (path : Text) (index : ℕ)
      → Schedules w.disk w.rth (update_enable E w t path index).1
  unfolding update_enable
  update_enable-Schedules w t path index = elim (Bool-cases (index == 0)) [
    | inl zero' ↦ rw (zero', update_enable) (no_more w.rth)
    | inr given ↦
        elim (Bool-cases
          (persistency_is_enabled E.s_storage_dir (instance_path path index) w.disk)) [
            | inl on ↦
                rw (given, on, update_enable)
                  (one_more (instance_path path index) w.rth _ on (no_more _))
            | inr off ↦ rw (given, off, update_enable) (no_more w.rth)
          ]
  ]

  pub update_enable-Local :
      (w : World E) (t : Transaction (Var E)) (path : Text) (index : ℕ)
      → Local w (record w { rth = (update_enable E w t path index).1 })
  update_enable-Local w t path index = record {
    rth = update_enable-Schedules w t path index;
    disk = refl;
    reads = λ h. h;
    calls = refl;
  }

  restore_onu_enable-Local :
      (object : Text) (info : ActionInfo (Var E)) (t : Transaction (Var E)) (w : World E)
      → Local w (restore_onu_enable E object info t w).1
  unfolding restore_onu_enable
  restore_onu_enable-Local object info t w = elim (Option-cases (w.privs object)) [
    | inl none' ↦
        rw (none', restore_onu_enable)
          (Local-trans (attach-Local object w)
            (update_enable-Local (onu_priv_attach_private_data object w) t info.path info.index))
    | inr (p, e) ↦ rw (e, restore_onu_enable) (Local-refl w)
  ]

  change_found-Local :
      (object : Text) (info : ActionInfo (Var E)) (w : World E)
      → Local w (change_found E object info w).1
  unfolding change_found
  change_found-Local object info w =
      let t =
        add_params_to_transaction E.amxd w.store (record { object = object; actions = [] })
          info.params info.obj_id in
      elim (Bool-cases (E.amxd.can_select w.store object)) [
        | inl can ↦ elim (Bool-cases (is_onu info.obj_id)) [
          | inl onu' ↦
              let (t', w') = restore_onu_enable E object info t w in
              rw (can, onu', change_found)
                (Local-trans (restore_onu_enable-Local object info t w) (apply-Local t' w'))
          | inr other ↦ rw (can, other, change_found) (apply-Local t w)
        ]
        | inr cannot ↦ rw (cannot, change_found) (Local-refl w)
      ]

  pub dm_change_object-Local :
      (args : Option (Var E)) (w : World E) → Local w (dm_change_object E args w).1
  unfolding dm_change_object
  dm_change_object-Local args w =
      elim (Option-cases (process_args_common E.strings E.variants args change_obj_args_required)) [
        | inl none' ↦ rw (none', dm_change_object) (Local-refl w)
        | inr (info, e) ↦ elim (Option-cases (E.amxd.find w.store (target_path E info))) [
          | inl none' ↦ rw (e, none', dm_change_object) (Local-refl w)
          | inr (object, f) ↦ rw (e, f, dm_change_object) (change_found-Local object info w)
        ]
      ]

  update_password_in_dm-Local :
      (ani_path password : Text) (hex : Bool) (w : World E)
      → Local w (update_password_in_dm E ani_path password hex w)
  unfolding update_password_in_dm
  update_password_in_dm-Local ani_path password hex w =
      elim (Option-cases (password_args E ani_path password hex)) [
        | inl none' ↦ rw (none', update_password_in_dm) (Local-refl w)
        | inr (args, e) ↦ rw (e, update_password_in_dm) (dm_change_object-Local (some args) w)
      ]

  pub passwd_restore_password-Local :
      (ani_path : Text) (w : World E) → Local w (passwd_restore_password E ani_path w)
  unfolding passwd_restore_password
  passwd_restore_password-Local ani_path w =
      let saved =
        upgr_persistency_get_password E.faults E.s_upgr_storage_dir ani_path [] false w.disk in
      elim (Bool-cases saved.rv) [
        | inl read ↦ elim (Bool-cases (length saved.password == 0)) [
          | inl empty ↦ rw (read, empty, passwd_restore_password) (Local-refl w)
          | inr given ↦
              rw (read, given, passwd_restore_password)
                (update_password_in_dm-Local ani_path saved.password saved.hex w)
        ]
        | inr unread ↦ rw (unread, passwd_restore_password) (Local-refl w)
      ]
