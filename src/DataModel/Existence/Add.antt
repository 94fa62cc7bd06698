-- ===== src/DataModel/Existence/Add.antt =====
-- data_model.c: an instance exists once it has been added.
use tr181_xpon.Base.{
  ◌≡◌, ◌∙◌, ap, sym, subst, ℕ, true, false, Option, some, arith, Text, Option-cases, Bool-cases,
  inl, inr, is_some,
}
use mathlib.Core.Option.{some-injective}
use tr181_xpon.Amxd.{Transaction}
use tr181_xpon.DmInfo.{ObjectInfo, dm_get_object_info}
use tr181_xpon.World.{Env, World}
use tr181_xpon.DataModel.Args.{
  ActionInfo, process_add_instance_args, process_args_common, add_or_change_inst_args_required,
}
use tr181_xpon.DataModel.Args.Target.{same_target}
use tr181_xpon.DataModel.Reads.{dm_does_instance_exist}
use tr181_xpon.DataModel.Change.{Var, dm_change_object}
use tr181_xpon.DataModel.Add.{
  begin_adding, apply_adding, add_instance, dm_add_instance, prepare_adding_instance,
  dm_add_or_change_instance_impl,
}
use tr181_xpon.DataModel.Existence.{AppliesActions}
use tr181_xpon.DataModel.Add.Atomic.{dm_add_instance_new}
use tr181_xpon.DataModel.Existence.Change.{dm_change_object-SameObjects}
use tr181_xpon.DataModel.Existence.Steps.{adding, begun}
use tr181_xpon.DataModel.Existence.Adding.{Exists, still, exist_lem, apply_adding-Exists}

module _ (E : Env) (laws : AppliesActions E.amxd) where
  pub prepared_find :
      (path : Text) (index : ℕ) (s : E.amxd.Store) (templ : Text)
      → prepare_adding_instance E path index s ≡ some templ
      → E.amxd.find s path ≡ some templ
  unfolding prepare_adding_instance
  prepared_find path index s templ h = ground arith

  begun_adding :
      (obj_info : ObjectInfo) (info : ActionInfo (Var E)) (templ key_name : Text)
      (key_value : Var E) (t : Transaction (Var E)) (w : World E)
      → t ≡ adding E templ key_name info.index key_value
      → E.amxd.find w.store info.path ≡ some templ
      → (apply_adding E obj_info info t w).0 ≡ true
      → Exists E laws info.path info.index (apply_adding E obj_info info t w).1
  begun_adding obj_info info templ key_name key_value t w begins f ok =
      subst (λ x. Exists E laws info.path info.index (apply_adding E obj_info info x w).1)
        (sym begins)
        (apply_adding-Exists E laws obj_info info templ key_name key_value w f
          (subst (λ x. (apply_adding E obj_info info x w).0 ≡ true) begins ok))

  add_instance-Exists :
      (info : ActionInfo (Var E)) (w : World E)
      → (add_instance E info w).0 ≡ true
      → Exists E laws info.path info.index (add_instance E info w).1
  unfolding add_instance
  add_instance-Exists info w ok = elim (Option-cases (dm_get_object_info info.obj_id)) [
    | inl none' ↦ absurd (cc (rw (none', add_instance) at ok))
    | inr (obj_info, o) ↦
        elim (Option-cases (prepare_adding_instance E info.path info.index w.store)) [
          | inl none' ↦ absurd (cc (rw (o, none', add_instance) at ok))
          | inr (templ, p) ↦ elim (Option-cases obj_info.key_name) [
            | inl none' ↦ absurd (cc (rw (o, p, none', add_instance) at ok))
            | inr (key_name, k) ↦ elim (Option-cases info.key_value) [
              | inl none' ↦ absurd (cc (rw (o, p, k, none', add_instance) at ok))
              | inr (key_value, v) ↦
                  elim (Option-cases (begin_adding E w.store templ key_name info.index key_value)) [
                    | inl none' ↦ absurd (cc (rw (o, p, k, v, none', add_instance) at ok))
                    | inr (t, b) ↦
                        rw (o, p, k, v, b, add_instance)
                          (begun_adding obj_info info templ key_name key_value t w
                            (begun E w.store templ key_name info.index key_value t b)
                            (prepared_find info.path info.index w.store templ p)
                            (rw (o, p, k, v, b, add_instance) at ok))
                  ]
            ]
          ]
        ]
  ]

  was_new :
      (args : Option (Var E)) (w : World E)
      → (dm_add_instance E args w).0 ≡ true
      → (info : ActionInfo (Var E))
      → process_add_instance_args E.strings E.variants args ≡ some info
      → dm_does_instance_exist E.amxd w.store info.path info.index ≡ false
  was_new args w ok info e =
      let (info', templ, e', f, kind, absent) = dm_add_instance_new E w args ok in
      subst (λ i. dm_does_instance_exist E.amxd w.store i.path i.index ≡ false)
        (some-injective info' info (sym e' ∙ e))
        (exist_lem E laws w.store info'.path templ info'.index f ∙ ap is_some absent)

  -- If transactions do what libamxd documents and dm_add_instance succeeds, its arguments are
  -- accepted and the instance that they name did not exist before and exists afterwards.
  pub dm_add_instance-Exists :
      (args : Option (Var E)) (w : World E)
      → (dm_add_instance E args w).0 ≡ true
      → (info : ActionInfo (Var E)) × (process_add_instance_args E.strings E.variants args
          ≡ some info)
        × (dm_does_instance_exist E.amxd w.store info.path info.index ≡ false)
        × (dm_does_instance_exist E.amxd (dm_add_instance E args w).1.store info.path info.index
            ≡ true)
  unfolding dm_add_instance
  dm_add_instance-Exists args w ok =
      elim (Option-cases (process_add_instance_args E.strings E.variants args)) [
        | inl none' ↦ absurd (cc (rw (none', dm_add_instance) at ok))
        | inr (info, e) ↦ (
          info,
          e,
          was_new args w ok info e,
          rw (e, dm_add_instance) (add_instance-Exists info w (rw (e, dm_add_instance) at ok)),
        )
      ]

  -- If transactions do what libamxd documents and dm_add_or_change_instance_impl succeeds, its
  -- arguments are accepted and the instance that they name exists afterwards, whether it was
  -- added or changed.
  pub dm_add_or_change_instance_impl-Exists :
      (args : Var E) (w : World E)
      → (dm_add_or_change_instance_impl E (some args) w).0 ≡ true
      → (info : ActionInfo (Var E)) × (process_args_common E.strings E.variants
            (some args)
            add_or_change_inst_args_required
          ≡ some info)
        × (dm_does_instance_exist E.amxd
              (dm_add_or_change_instance_impl E (some args) w).1.store
              info.path
              info.index
            ≡ true)
  unfolding dm_add_or_change_instance_impl
  dm_add_or_change_instance_impl-Exists args w ok =
      elim (Option-cases
        (process_args_common E.strings E.variants (some args) add_or_change_inst_args_required)) [
          | inl none' ↦ absurd (cc (rw (none', dm_add_or_change_instance_impl) at ok))
          | inr (info, e) ↦ (info, e, present info e)
        ]
    where
      present :
          (info : ActionInfo (Var E))
          → process_args_common E.strings E.variants (some args) add_or_change_inst_args_required
            ≡ some info
          → Exists E laws info.path info.index (dm_add_or_change_instance_impl E (some args) w).1
      present info e =
          elim (Bool-cases (dm_does_instance_exist E.amxd w.store info.path info.index)) [
            | inl exists ↦
                rw (e, exists, dm_add_or_change_instance_impl)
                  (still E laws info.path info.index w (dm_change_object E (some args) w).1
                    (dm_change_object-SameObjects E laws (some args) w) exists)
            | inr new ↦
                let (info', a, before, after) =
                  dm_add_instance-Exists (some args) w
                    (rw (e, new, dm_add_or_change_instance_impl) at ok) in
                let (path, index) = same_target E.strings E.variants args info' info a e in
                rw (e, new, dm_add_or_change_instance_impl)
                  (subst (λ p. Exists E laws p info.index (dm_add_instance E (some args) w).1) path
                    (subst (λ i. Exists E laws info'.path i (dm_add_instance E (some args) w).1)
                      index after))
          ]
