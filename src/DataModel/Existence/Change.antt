-- ===== src/DataModel/Existence/Change.antt =====
-- data_model.c: changing an object, and restoring a password, adds and removes no object.
use tr181_xpon.Base.{
  ◌≡◌, refl, ◌∙◌, ap, ℕ, Bool, true, false, Option, some, [], Text, Bool-cases, Option-cases, inl,
  inr, ◌==◌, length,
}
use tr181_xpon.Amxc.{all}
use tr181_xpon.Amxd.{Transaction}
use tr181_xpon.RestoreToHal.{is_onu}
use tr181_xpon.UpgradePersistency.{upgr_persistency_get_password}
use tr181_xpon.World.{Env, World}
use tr181_xpon.DataModel.Args.{ActionInfo, process_args_common, change_obj_args_required}
use tr181_xpon.DataModel.Change.{
  Var, apply, restore_onu_enable, target_path, change_found, dm_change_object,
  update_password_in_dm, passwd_restore_password, password_args,
}
use tr181_xpon.DataModel.Transactions.{add_params_to_transaction}
use tr181_xpon.DataModel.Existence.{AppliesActions, is_set}
use tr181_xpon.DataModel.Existence.Steps.{restored}
use tr181_xpon.DataModel.Existence.Sets.{Extends, Extends-both, add_params_to_transaction-Extends}

module _ (E : Env) (laws : AppliesActions E.amxd) where
  -- The same objects and instances are found.
  pub record SameObjects (w w' : World E) : Type 0 where
    pub objects : (path : Text) → E.amxd.find w'.store path ≡ E.amxd.find w.store path
    pub instances :
        (templ : Text) (index : ℕ)
        → E.amxd.get_instance w'.store templ index ≡ E.amxd.get_instance w.store templ index

  pub same_store : (w w' : World E) → w'.store ≡ w.store → SameObjects w w'
  same_store w w' e = record {
    objects = λ path. ap (λ s. E.amxd.find s path) e;
    instances = λ templ index. ap (λ s. E.amxd.get_instance s templ index) e;
  }

  apply-SameObjects :
      (object : Text) (t : Transaction (Var E)) (w w' : World E)
      → Extends (record { object = object; actions = [] }) t
      → w'.store ≡ w.store
      → SameObjects w (apply E t w').1
  apply-SameObjects object t w w' (sets, e, h) same =
      let only : all is_set t.actions ≡ true = ap (λ x. all is_set x.actions) e ∙ h in
      elim (Option-cases (E.amxd.apply w'.s_ignore_param_reads w'.store t)) [
        | inl failed ↦ rw (failed, apply) (same_store w w' same)
        | inr (s', ok) ↦
            rw (ok, apply)
              (record {
                objects = λ path.
                    laws.keeps_objects w'.s_ignore_param_reads w'.store s' t path only ok
                    ∙ ap (λ s. E.amxd.find s path) same;
                instances = λ templ index.
                    laws.keeps_instances w'.s_ignore_param_reads w'.store s' t templ index only ok
                    ∙ ap (λ s. E.amxd.get_instance s templ index) same;
              })
      ]

  change_found-SameObjects :
      (object : Text) (info : ActionInfo (Var E)) (w : World E)
      → SameObjects w (change_found E object info w).1
  unfolding change_found
  change_found-SameObjects object info w =
      let t : Transaction (Var E) = record { object = object; actions = [] } in
      let t' = add_params_to_transaction E.amxd w.store t info.params info.obj_id in
      let params = add_params_to_transaction-Extends E.amxd w.store t info.params info.obj_id in
      let (t'', w') = restore_onu_enable E object info t' w in
      let (enable, same) = restored E object info t' w in
      elim (Bool-cases (E.amxd.can_select w.store object)) [
        | inl selects ↦ elim (Bool-cases (is_onu info.obj_id)) [
          | inl onu' ↦
              rw (selects, onu', change_found)
                (apply-SameObjects object t'' w w' (Extends-both t t' t'' params enable) same)
          | inr other ↦
              rw (selects, other, change_found) (apply-SameObjects object t' w w params refl)
        ]
        | inr fails ↦ rw (fails, change_found) (same_store w w refl)
      ]

  -- If transactions do what libamxd documents, dm_change_object leaves the objects and the
  -- instances that can be found, whatever its arguments.
  pub dm_change_object-SameObjects :
      (args : Option (Var E)) (w : World E) → SameObjects w (dm_change_object E args w).1
  unfolding dm_change_object
  dm_change_object-SameObjects args w =
      elim (Option-cases (process_args_common E.strings E.variants args change_obj_args_required)) [
        | inl none' ↦ rw (none', dm_change_object) (same_store w w refl)
        | inr (info, e) ↦ elim (Option-cases (E.amxd.find w.store (target_path E info))) [
          | inl none' ↦ rw (e, none', dm_change_object) (same_store w w refl)
          | inr (object, f) ↦ rw (e, f, dm_change_object) (change_found-SameObjects object info w)
        ]
      ]

  update_password_in_dm-SameObjects :
      (ani_path password : Text) (hex : Bool) (w : World E)
      → SameObjects w (update_password_in_dm E ani_path password hex w)
  unfolding update_password_in_dm
  update_password_in_dm-SameObjects ani_path password hex w =
      elim (Option-cases (password_args E ani_path password hex)) [
        | inl none' ↦ rw (none', update_password_in_dm) (same_store w w refl)
        | inr (args, e) ↦ rw (e, update_password_in_dm) (dm_change_object-SameObjects (some args) w)
      ]

  pub passwd_restore_password-SameObjects :
      (ani_path : Text) (w : World E) → SameObjects w (passwd_restore_password E ani_path w)
  unfolding passwd_restore_password
  passwd_restore_password-SameObjects ani_path w =
      let saved =
        upgr_persistency_get_password E.faults E.s_upgr_storage_dir ani_path [] false w.disk in
      let nothing = same_store w w refl in
      elim (Bool-cases saved.rv) [
        | inl found ↦ elim (Bool-cases (length saved.password == 0)) [
          | inl empty ↦ rw (found, empty, passwd_restore_password) nothing
          | inr full ↦
              rw (found, full, passwd_restore_password)
                (update_password_in_dm-SameObjects ani_path saved.password saved.hex w)
        ]
        | inr failed ↦ rw (failed, passwd_restore_password) nothing
      ]
