-- ===== src/DataModel/Local/Calls.antt =====
-- data_model.c, pon_stat.c: every function that the vendor module may call leaves the files alone
-- and makes no call itself.
use tr181_xpon.Base.{
  refl, ◌∙◌, ap, ℕ, Bool, true, false, Option, some, arith, Text, Bool-cases, Option-cases, inl,
  inr, if◌then◌else◌,
}
use tr181_xpon.Amxd.{Transaction}
use tr181_xpon.DmInfo.{ObjectId, ObjectInfo, onu, ani, dm_get_object_info}
use tr181_xpon.RestoreToHal.{Rth}
use tr181_xpon.World.{Env, World}
use tr181_xpon.DataModel.Args.{
  ActionInfo, process_args_common, process_add_instance_args, process_remove_instance_args,
  add_or_change_inst_args_required,
}
use tr181_xpon.DataModel.Reads.{dm_does_instance_exist}
use tr181_xpon.DataModel.Transactions.{instance_path, add_params_to_transaction, update_enable}
use tr181_xpon.DataModel.Change.{Var, apply}
use tr181_xpon.DataModel.Add.{
  prepare_adding_instance, add_private_data_to_onu, begin_adding, after_adding, apply_adding,
  add_instance, dm_add_instance, dm_add_or_change_instance_impl,
}
use tr181_xpon.DataModel.Remove.{
  delete_instance, remove_instance, dm_remove_instance, dm_set_xpon_parameter_impl,
}
use tr181_xpon.DataModel.Reset.{dm_omci_reset_mib}
use tr181_xpon.DataModel.Reset.Frame.{dm_omci_reset_mib-OnlyStore}
use tr181_xpon.DataModel.Local.{
  Local, Local-refl, Local-trans, Local-same, apply-Local, attach-Local, update_enable-Local,
  dm_change_object-Local, passwd_restore_password-Local,
}
use tr181_xpon.PonStat.{
  Connections, StatFunction, dm_instance_added, dm_instance_removed, dm_object_changed,
  dm_add_or_change_instance, omci_reset_mib, watch_file_descriptor_start,
  watch_file_descriptor_stop, dm_set_xpon_parameter, call_stat,
}

module _ (E : Env) where
  add_private_data-Local :
      (path : Text) (index : ℕ) (w : World E) → Local E w (add_private_data_to_onu E path index w)
  unfolding add_private_data_to_onu
  add_private_data-Local path index w = elim (Option-cases (E.amxd.find w.store path)) [
    | inl none' ↦ rw (none', add_private_data_to_onu) (Local-refl E w)
    | inr (templ, f) ↦ elim (Option-cases (E.amxd.get_instance w.store templ index)) [
      | inl none' ↦ rw (f, none', add_private_data_to_onu) (Local-refl E w)
      | inr (obj, g) ↦ rw (f, g, add_private_data_to_onu) (attach-Local E obj w)
    ]
  ]

  after_adding-Local :
      (id : ObjectId) (path : Text) (index : ℕ) (w : World E)
      → Local E w (after_adding E id path index w)
  unfolding after_adding
  after_adding-Local onu path index w = add_private_data-Local path index w
  after_adding-Local ani path index w = passwd_restore_password-Local E (instance_path path index) w
  after_adding-Local _ path index w = Local-refl E w

  -- The end of apply_adding.
  finish : ObjectId → Text → ℕ → Bool × World E → Bool × World E
  finish id path index (done, w) =
      if done then (true, after_adding E id path index w) else (false, w)

  finish-Local :
      (id : ObjectId) (path : Text) (index : ℕ) (r : Bool × World E)
      → Local E r.1 (finish id path index r).1
  unfolding finish
  finish-Local id path index (true, w) = after_adding-Local id path index w
  finish-Local id path index (false, w) = Local-refl E w

  enable_step :
      ObjectInfo → ActionInfo (Var E) → Transaction (Var E) → World E → Transaction (Var E) × Rth
  enable_step obj_info info t w =
      if obj_info.has_rw_enable then update_enable E w t info.path info.index else (t, w.rth)

  enable_step-Local :
      (obj_info : ObjectInfo) (info : ActionInfo (Var E)) (t : Transaction (Var E)) (w : World E)
      → Local E w (record w { rth = (enable_step obj_info info t w).1 })
  unfolding enable_step
  enable_step-Local obj_info info t w = elim (Bool-cases obj_info.has_rw_enable) [
    | inl has ↦ rw (has, enable_step) (update_enable-Local E w t info.path info.index)
    | inr has_not ↦ rw (has_not, enable_step) (Local-same E refl refl (λ h. h) refl)
  ]

  apply_adding-Local :
      (obj_info : ObjectInfo) (info : ActionInfo (Var E)) (t : Transaction (Var E)) (w : World E)
      → Local E w (apply_adding E obj_info info t w).1
  unfolding apply_adding finish enable_step
  apply_adding-Local obj_info info t w =
      let t' = add_params_to_transaction E.amxd w.store t info.params info.obj_id in
      let (t'', rth) = enable_step obj_info info t' w in
      let w' : World E = record w { rth = rth } in
      Local-trans E (enable_step-Local obj_info info t' w) (
        Local-trans E (apply-Local E t'' w')
          (finish-Local obj_info.id info.path info.index (apply E t'' w')))

  add_instance-Local :
      (info : ActionInfo (Var E)) (w : World E) → Local E w (add_instance E info w).1
  unfolding add_instance
  add_instance-Local info w = elim (Option-cases (dm_get_object_info info.obj_id)) [
    | inl none' ↦ rw (none', add_instance) (Local-refl E w)
    | inr (obj_info, e) ↦
        elim (Option-cases (prepare_adding_instance E info.path info.index w.store)) [
          | inl none' ↦ rw (e, none', add_instance) (Local-refl E w)
          | inr (templ, f) ↦ elim (Option-cases obj_info.key_name) [
            | inl none' ↦ rw (e, f, none', add_instance) (Local-refl E w)
            | inr (key_name, g) ↦ elim (Option-cases info.key_value) [
              | inl none' ↦ rw (e, f, g, none', add_instance) (Local-refl E w)
              | inr (key_value, h) ↦
                  elim (Option-cases (begin_adding E w.store templ key_name info.index key_value)) [
                    | inl none' ↦ rw (e, f, g, h, none', add_instance) (Local-refl E w)
                    | inr (t, b) ↦
                        rw (e, f, g, h, b, add_instance) (apply_adding-Local obj_info info t w)
                  ]
            ]
          ]
        ]
  ]

  dm_add_instance-Local :
      (args : Option (Var E)) (w : World E) → Local E w (dm_add_instance E args w).1
  unfolding dm_add_instance
  dm_add_instance-Local args w =
      elim (Option-cases (process_add_instance_args E.strings E.variants args)) [
        | inl none' ↦ rw (none', dm_add_instance) (Local-refl E w)
        | inr (info, e) ↦ rw (e, dm_add_instance) (add_instance-Local info w)
      ]

  pub dm_add_or_change_instance_impl-Local :
      (args : Option (Var E)) (w : World E) → Local E w (dm_add_or_change_instance_impl E args w).1
  unfolding dm_add_or_change_instance_impl
  dm_add_or_change_instance_impl-Local args w =
      elim (Option-cases
        (process_args_common E.strings E.variants args add_or_change_inst_args_required)) [
          | inl none' ↦ rw (none', dm_add_or_change_instance_impl) (Local-refl E w)
          | inr (info, e) ↦
              elim (Bool-cases (dm_does_instance_exist E.amxd w.store info.path info.index)) [
                | inl there ↦
                    rw (e, there, dm_add_or_change_instance_impl) (dm_change_object-Local E args w)
                | inr missing ↦
                    rw (e, missing, dm_add_or_change_instance_impl) (dm_add_instance-Local args w)
              ]
        ]

  -- While an instance is deleted reads are ignored.
  delete_instance-Local :
      (templ : Text) (index : ℕ) (w : World E) → Local E w (delete_instance E templ index w).1
  unfolding delete_instance
  delete_instance-Local templ index w =
      Local-same E (ground arith) (ground arith) (λ h. ground arith) (ground arith)

  remove_instance-Local :
      (info : ActionInfo (Var E)) (w : World E) → Local E w (remove_instance E info w).1
  unfolding remove_instance
  remove_instance-Local info w = elim (Option-cases (E.amxd.find w.store info.path)) [
    | inl none' ↦ rw (none', remove_instance) (Local-refl E w)
    | inr (templ, f) ↦ elim (Bool-cases (E.amxd.is_template w.store templ)) [
      | inl template ↦ elim (Option-cases (E.amxd.get_instance w.store templ info.index)) [
        | inl none' ↦ rw (f, template, none', remove_instance) (Local-refl E w)
        | inr (obj, g) ↦
            rw (f, template, g, remove_instance) (delete_instance-Local templ info.index w)
      ]
      | inr no_template ↦ rw (f, no_template, remove_instance) (Local-refl E w)
    ]
  ]

  dm_remove_instance-Local :
      (args : Option (Var E)) (w : World E) → Local E w (dm_remove_instance E args w).1
  unfolding dm_remove_instance
  dm_remove_instance-Local args w =
      elim (Option-cases (process_remove_instance_args E.strings E.variants args)) [
        | inl none' ↦ rw (none', dm_remove_instance) (Local-refl E w)
        | inr (info, e) ↦ rw (e, dm_remove_instance) (remove_instance-Local info w)
      ]

  dm_set_xpon_parameter_impl-Local :
      (args : Var E) (w : World E) → Local E w (dm_set_xpon_parameter_impl E args w).1
  unfolding dm_set_xpon_parameter_impl
  dm_set_xpon_parameter_impl-Local args w =
      Local-same E (ground arith) (ground arith) (λ h. ground arith) (ground arith)

  dm_omci_reset_mib-Local :
      (args : Option (Var E)) (w : World E) → Local E w (dm_omci_reset_mib E args w).1
  dm_omci_reset_mib-Local args w =
      let (same, result, unchanged) = dm_omci_reset_mib-OnlyStore E args w in
      Local-same E (ap (λ v. v.rth) same) (ap (λ v. v.disk) same)
        (λ h. ap (λ v. v.s_ignore_param_reads) same ∙ h) (ap (λ v. v.calls) same)

  -- Whichever function the vendor module calls, with whatever arguments and whatever fails: no
  -- file is changed, the vendor module is not called, reads are not ignored afterwards if they
  -- were not before, and restore_to_hal.c is at most told of objects that are saved as enabled.
  pub call_stat-Local :
      (C : Connections) (f : StatFunction) (args : Var E) (parser : Option C.Parser) (w : World E)
      → Local E w (call_stat E C f args parser w).2
  unfolding call_stat
  call_stat-Local C dm_instance_added args parser w = dm_add_instance-Local (some args) w
  call_stat-Local C dm_instance_removed args parser w = dm_remove_instance-Local (some args) w
  call_stat-Local C dm_object_changed args parser w = dm_change_object-Local E (some args) w
  call_stat-Local C dm_add_or_change_instance args parser w =
      dm_add_or_change_instance_impl-Local (some args) w
  call_stat-Local C omci_reset_mib args parser w = dm_omci_reset_mib-Local (some args) w
  call_stat-Local C watch_file_descriptor_start args parser w = Local-refl E w
  call_stat-Local C watch_file_descriptor_stop args parser w = Local-refl E w
  call_stat-Local C dm_set_xpon_parameter args parser w = dm_set_xpon_parameter_impl-Local args w
