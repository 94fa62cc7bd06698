-- ===== src/DataModel/Asked/Instances.antt =====
-- data_model.c: adding and removing instances asks the vendor module for nothing.
use tr181_xpon.Base.{
  ◌≡◌, refl, sym, ◌∙◌, ap, subst, ℕ, Bool, true, false, Option, some, [], ◌∷◌, Text, Bool-cases,
  Option-cases, inl, inr,
}
use tr181_xpon.Amxd.{del_inst, set_param, Transaction}
use tr181_xpon.DmInfo.{ObjectId, ObjectInfo, onu, ani, dm_get_object_info}
use tr181_xpon.World.{Env, World}
use tr181_xpon.DataModel.Args.{
  ActionInfo, process_args_common, process_add_instance_args, process_remove_instance_args,
  add_or_change_inst_args_required,
}
use tr181_xpon.DataModel.Reads.{dm_does_instance_exist}
use tr181_xpon.DataModel.Transactions.{instance_path, add_params_to_transaction}
use tr181_xpon.DataModel.Change.{Var, apply}
use tr181_xpon.DataModel.Add.{
  prepare_adding_instance, begin_adding, after_adding, apply_adding, add_instance, dm_add_instance,
  dm_add_or_change_instance_impl,
}
use tr181_xpon.DataModel.Remove.{
  dm_actions_set_ignore_param_reads, delete_instance, remove_instance, dm_remove_instance,
}
use tr181_xpon.DataModel.Existence.Sets.{Extends, Extends-both, add_params_to_transaction-Extends}
use tr181_xpon.DataModel.Existence.Steps.{
  private_same, adding, begun, finish, enable_step, enable_step-Extends,
}
use tr181_xpon.DataModel.Asked.{
  AsksOnDeletion, Silent, apply-Silent, dm_change_object-Silent, passwd_restore_password-Silent,
}

module _ (E : Env) (laws : AsksOnDeletion E.amxd) where
  after_adding-Silent :
      (id : ObjectId) (path : Text) (index : ℕ) (w : World E)
      → Silent E laws w (after_adding E id path index w)
  unfolding after_adding
  after_adding-Silent onu path index w = ap E.amxd.asked (private_same E path index w)
  after_adding-Silent ani path index w =
      passwd_restore_password-Silent E laws (instance_path path index) w
  after_adding-Silent _ path index w = refl

  finish-Silent :
      (id : ObjectId) (path : Text) (index : ℕ) (r : Bool × World E)
      → Silent E laws r.1 (finish E id path index r).1
  unfolding finish
  finish-Silent id path index (true, w) = after_adding-Silent id path index w
  finish-Silent id path index (false, w) = refl

  added-Silent :
      (templ key_name : Text) (index : ℕ) (key_value : Var E) (t : Transaction (Var E))
      (w : World E)
      → Extends (adding E templ key_name index key_value) t
      → Silent E laws w (apply E t w).1
  added-Silent templ key_name index key_value t w (sets, e, h) = apply-Silent E laws t w (λ s' done.
      laws.adds w.s_ignore_param_reads w.store s' templ index (set_param key_name key_value ∷ sets)
        h (subst (λ x. E.amxd.apply w.s_ignore_param_reads w.store x ≡ some s') e done))

  apply_adding-Silent :
      (obj_info : ObjectInfo) (info : ActionInfo (Var E)) (templ key_name : Text)
      (key_value : Var E) (w : World E)
      → let t = adding E templ key_name info.index key_value in
        Silent E laws w (apply_adding E obj_info info t w).1
  unfolding apply_adding finish enable_step
  apply_adding-Silent obj_info info templ key_name key_value w =
      let t = adding E templ key_name info.index key_value in
      let t' = add_params_to_transaction E.amxd w.store t info.params info.obj_id in
      let (t'', rth) = enable_step E obj_info info t' w in
      let extends =
        Extends-both t t' t''
          (add_params_to_transaction-Extends E.amxd w.store t info.params info.obj_id)
          (enable_step-Extends E obj_info info t' w) in
      let w1 : World E = record w { rth = rth } in
      finish-Silent obj_info.id info.path info.index (apply E t'' w1)
      ∙ added-Silent templ key_name info.index key_value t'' w1 extends

  add_instance-Silent :
      (info : ActionInfo (Var E)) (w : World E) → Silent E laws w (add_instance E info w).1
  unfolding add_instance
  add_instance-Silent info w = elim (Option-cases (dm_get_object_info info.obj_id)) [
    | inl none' ↦ rw (none', add_instance) refl
    | inr (obj_info, o) ↦
        elim (Option-cases (prepare_adding_instance E info.path info.index w.store)) [
          | inl none' ↦ rw (o, none', add_instance) refl
          | inr (templ, p) ↦ elim (Option-cases obj_info.key_name) [
            | inl none' ↦ rw (o, p, none', add_instance) refl
            | inr (key_name, k) ↦ elim (Option-cases info.key_value) [
              | inl none' ↦ rw (o, p, k, none', add_instance) refl
              | inr (key_value, v) ↦
                  elim (Option-cases (begin_adding E w.store templ key_name info.index key_value)) [
                    | inl none' ↦ rw (o, p, k, v, none', add_instance) refl
                    | inr (t, b) ↦
                        rw (o, p, k, v, b, add_instance)
                          (subst (λ x. Silent E laws w (apply_adding E obj_info info x w).1)
                            (sym (begun E w.store templ key_name info.index key_value t b))
                            (apply_adding-Silent obj_info info templ key_name key_value w))
                  ]
            ]
          ]
        ]
  ]

  pub dm_add_instance-Silent :
      (args : Option (Var E)) (w : World E) → Silent E laws w (dm_add_instance E args w).1
  unfolding dm_add_instance
  dm_add_instance-Silent args w =
      elim (Option-cases (process_add_instance_args E.strings E.variants args)) [
        | inl none' ↦ rw (none', dm_add_instance) refl
        | inr (info, e) ↦ rw (e, dm_add_instance) (add_instance-Silent info w)
      ]

  pub dm_add_or_change_instance_impl-Silent :
      (args : Option (Var E)) (w : World E)
      → Silent E laws w (dm_add_or_change_instance_impl E args w).1
  unfolding dm_add_or_change_instance_impl
  dm_add_or_change_instance_impl-Silent args w =
      elim (Option-cases
        (process_args_common E.strings E.variants args add_or_change_inst_args_required)) [
          | inl none' ↦ rw (none', dm_add_or_change_instance_impl) refl
          | inr (info, e) ↦
              elim (Bool-cases (dm_does_instance_exist E.amxd w.store info.path info.index)) [
                | inl there ↦
                    rw (e, there, dm_add_or_change_instance_impl)
                      (dm_change_object-Silent E laws args w)
                | inr missing ↦
                    rw (e, missing, dm_add_or_change_instance_impl) (dm_add_instance-Silent args w)
              ]
        ]

  -- The handlers are called while an instance is deleted, but return first.
  delete_instance-Silent :
      (templ : Text) (index : ℕ) (w : World E) → Silent E laws w (delete_instance E templ index w).1
  unfolding delete_instance dm_actions_set_ignore_param_reads
  delete_instance-Silent templ index w =
      let t : Transaction (Var E) = record { object = templ; actions = [] } in
      let t' : Transaction (Var E) = record { object = templ; actions = del_inst index ∷ [] } in
      elim (Bool-cases (E.amxd.can_select w.store templ)) [
        | inr fails ↦ rw (fails, delete_instance) refl
        | inl selects ↦ elim (Bool-cases (E.amxd.can_append w.store t (del_inst index))) [
          | inr fails ↦ rw (selects, fails, delete_instance) refl
          | inl appends ↦ elim (Option-cases (E.amxd.apply true w.store t')) [
            | inl fails ↦ rw (selects, appends, fails, apply, delete_instance) refl
            | inr (s', done) ↦
                rw (selects, appends, done, apply, delete_instance)
                  (laws.ignored w.store s' t' done)
          ]
        ]
      ]

  remove_instance-Silent :
      (info : ActionInfo (Var E)) (w : World E) → Silent E laws w (remove_instance E info w).1
  unfolding remove_instance
  remove_instance-Silent info w = elim (Option-cases (E.amxd.find w.store info.path)) [
    | inl none' ↦ rw (none', remove_instance) refl
    | inr (templ, f) ↦ elim (Bool-cases (E.amxd.is_template w.store templ)) [
      | inr no_template ↦ rw (f, no_template, remove_instance) refl
      | inl template ↦ elim (Option-cases (E.amxd.get_instance w.store templ info.index)) [
        | inl none' ↦ rw (f, template, none', remove_instance) refl
        | inr (obj, g) ↦
            rw (f, template, g, remove_instance) (delete_instance-Silent templ info.index w)
      ]
    ]
  ]

  pub dm_remove_instance-Silent :
      (args : Option (Var E)) (w : World E) → Silent E laws w (dm_remove_instance E args w).1
  unfolding dm_remove_instance
  dm_remove_instance-Silent args w =
      elim (Option-cases (process_remove_instance_args E.strings E.variants args)) [
        | inl none' ↦ rw (none', dm_remove_instance) refl
        | inr (info, e) ↦ rw (e, dm_remove_instance) (remove_instance-Silent info w)
      ]
