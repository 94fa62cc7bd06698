-- ===== src/DataModel/Existence/Others.antt =====
-- data_model.c: adding or removing an instance leaves the other instances alone.
use tr181_xpon.Base.{
  ◌≡◌, refl, ◌≢◌, ◌∙◌, ap, sym, subst, ℕ, Bool, true, false, none, some, [], ◌∷◌, arith, Text,
  Bool-cases, Option-cases, inl, inr, is_some,
}
use tr181_xpon.Amxd.{del_inst, set_param, Transaction}
use tr181_xpon.DmInfo.{ObjectId, ObjectInfo, dm_get_object_info}
use tr181_xpon.World.{Env, World}
use tr181_xpon.DataModel.Args.{ActionInfo}
use tr181_xpon.DataModel.Reads.{dm_does_instance_exist}
use tr181_xpon.DataModel.Transactions.{add_params_to_transaction}
use tr181_xpon.DataModel.Change.{Var, apply}
use tr181_xpon.DataModel.Add.{
  begin_adding, after_adding, apply_adding, add_instance, prepare_adding_instance,
}
use tr181_xpon.DataModel.Remove.{
  delete_instance, remove_instance, dm_actions_set_ignore_param_reads,
}
use tr181_xpon.DataModel.Existence.{AppliesActions, ActsAlone}
use tr181_xpon.DataModel.Existence.Sets.{Extends, Extends-both, add_params_to_transaction-Extends}
use tr181_xpon.DataModel.Existence.Change.{SameObjects}
use tr181_xpon.DataModel.Existence.Steps.{adding, begun, finish, enable_step, enable_step-Extends}
use tr181_xpon.DataModel.Existence.Adding.{exist_lem, after_adding-SameObjects}
use tr181_xpon.DataModel.Existence.Add.{prepared_find}

module _ (E : Env) (laws : AppliesActions E.amxd) (alone : ActsAlone E.amxd) where
  -- Which instances of a template object exist.
  abbrev pub shown : World E → Text → ℕ → Bool
  shown w path index = dm_does_instance_exist E.amxd w.store path index

  none-shown :
      (w : World E) (path : Text) (index : ℕ)
      → E.amxd.find w.store path ≡ none
      → shown w path index ≡ false
  unfolding dm_does_instance_exist
  none-shown w path index f = rw (f, dm_does_instance_exist) refl

  pub SameObjects-shown :
      (w w' : World E) (path : Text) (index : ℕ)
      → SameObjects E laws w w'
      → shown w' path index ≡ shown w path index
  SameObjects-shown w w' path index same = elim (Option-cases (E.amxd.find w.store path)) [
    | inl none' ↦
        none-shown w' path index (same.objects path ∙ none') ∙ sym (none-shown w path index none')
    | inr (templ, f) ↦
        exist_lem E laws w'.store path templ index (same.objects path ∙ f)
        ∙ ap is_some (same.instances templ index)
        ∙ sym (exist_lem E laws w.store path templ index f)
  ]

  -- The transaction that adds an instance, with whatever it sets.
  applied-shown :
      (templ key_name path : Text) (index other : ℕ) (key_value : Var E) (t : Transaction (Var E))
      (w : World E)
      → Extends (adding E templ key_name index key_value) t
      → E.amxd.find w.store path ≡ some templ
      → index ≢ other
      → shown (apply E t w).1 path other ≡ shown w path other
  applied-shown templ key_name path index other key_value t w (sets, e, h) f differ =
      elim (Option-cases (E.amxd.apply w.s_ignore_param_reads w.store t)) [
        | inl failed ↦ rw (failed, apply) refl
        | inr (s', done) ↦
            let ignore = w.s_ignore_param_reads in
            let selected : t.object ≡ templ = ap (λ x. x.object) e in
            let found =
              laws.keeps_selected ignore w.store s' t path done (f ∙ ap some (sym selected))
              ∙ ap some selected in
            let kept =
              alone.adds_one ignore w.store s' templ index other
                (set_param key_name key_value ∷ sets) h differ
                (subst (λ x. E.amxd.apply ignore w.store x ≡ some s') e done) in
            rw (done, apply)
              (exist_lem E laws s' path templ other found
                ∙ ap is_some kept
                ∙ sym (exist_lem E laws w.store path templ other f))
      ]

  finish-shown :
      (id : ObjectId) (path : Text) (index other : ℕ) (r : Bool × World E)
      → shown (finish E id path index r).1 path other ≡ shown r.1 path other
  unfolding finish
  finish-shown id path index other (true, w) =
      SameObjects-shown w (after_adding E id path index w) path other
        (after_adding-SameObjects E laws id path index w)
  finish-shown id path index other (false, w) = refl

  apply_adding-shown :
      (obj_info : ObjectInfo) (info : ActionInfo (Var E)) (templ key_name : Text) (other : ℕ)
      (key_value : Var E) (w : World E)
      → let t = adding E templ key_name info.index key_value in
        E.amxd.find w.store info.path ≡ some templ
        → info.index ≢ other
        → shown (apply_adding E obj_info info t w).1 info.path other ≡ shown w info.path other
  unfolding apply_adding finish enable_step
  apply_adding-shown obj_info info templ key_name other key_value w f differ =
      let t = adding E templ key_name info.index key_value in
      let t' = add_params_to_transaction E.amxd w.store t info.params info.obj_id in
      let (t'', rth) = enable_step E obj_info info t' w in
      let extends =
        Extends-both t t' t''
          (add_params_to_transaction-Extends E.amxd w.store t info.params info.obj_id)
          (enable_step-Extends E obj_info info t' w) in
      let w1 : World E = record w { rth = rth } in
      finish-shown obj_info.id info.path info.index other (apply E t'' w1)
      ∙ applied-shown templ key_name info.path info.index other key_value t'' w1 extends f differ

  pub add_instance-shown :
      (info : ActionInfo (Var E)) (other : ℕ) (w : World E)
      → info.index ≢ other
      → shown (add_instance E info w).1 info.path other ≡ shown w info.path other
  unfolding add_instance
  add_instance-shown info other w differ = elim (Option-cases (dm_get_object_info info.obj_id)) [
    | inl none' ↦ rw (none', add_instance) refl
    | inr (obj_info, o) ↦
        elim (Option-cases (prepare_adding_instance E info.path info.index w.store)) [
          | inl none' ↦ rw (o, none', add_instance) refl
          | inr (templ, p) ↦ elim (Option-cases obj_info.key_name) [
            | inl none' ↦ rw (o, p, none', add_instance) refl
            | inr (key_name, k) ↦ elim (Option-cases info.key_value) [
              | inl none' ↦ rw (o, p, k, none', add_instance) refl
              | inr (key_value, v) ↦
                  elim (Option-cases (begin_adding E w.store templ key_name info.index key_value)) [
                    | inl none' ↦ rw (o, p, k, v, none', add_instance) refl
                    | inr (t, b) ↦
                        rw (o, p, k, v, b, add_instance)
                          (subst
                            (λ x.
                              shown (apply_adding E obj_info info x w).1 info.path other
                              ≡ shown w info.path other)
                            (sym (begun E w.store templ key_name info.index key_value t b))
                            (apply_adding-shown obj_info info templ key_name other key_value w
                              (prepared_find E laws info.path info.index w.store templ p) differ))
                  ]
            ]
          ]
        ]
  ]

  delete_instance-shown :
      (path templ : Text) (index other : ℕ) (w : World E)
      → E.amxd.find w.store path ≡ some templ
      → index ≢ other
      → shown (delete_instance E templ index w).1 path other ≡ shown w path other
  unfolding delete_instance dm_actions_set_ignore_param_reads
  delete_instance-shown path templ index other w f differ =
      let t : Transaction (Var E) = record { object = templ; actions = [] } in
      let t' : Transaction (Var E) = record { object = templ; actions = del_inst index ∷ [] } in
      elim (Bool-cases (E.amxd.can_select w.store templ)) [
        | inr fails ↦ rw (fails, delete_instance) refl
        | inl selects ↦ elim (Bool-cases (E.amxd.can_append w.store t (del_inst index))) [
          | inr fails ↦ rw (selects, fails, delete_instance) refl
          | inl appends ↦ elim (Option-cases (E.amxd.apply true w.store t')) [
            | inl fails ↦ rw (selects, appends, fails, apply, delete_instance) refl
            | inr (s', done) ↦
                rw (selects, appends, done, apply, delete_instance)
                  (exist_lem E laws s' path templ other
                      (laws.keeps_selected true w.store s' t' path done f)
                    ∙ ap is_some (alone.deletes_one true w.store s' templ index other differ done)
                    ∙ sym (exist_lem E laws w.store path templ other f))
          ]
        ]
      ]

  pub remove_instance-shown :
      (info : ActionInfo (Var E)) (other : ℕ) (w : World E)
      → info.index ≢ other
      → shown (remove_instance E info w).1 info.path other ≡ shown w info.path other
  unfolding remove_instance
  remove_instance-shown info other w differ = elim (Option-cases (E.amxd.find w.store info.path)) [
    | inl none' ↦ rw (none', remove_instance) refl
    | inr (templ, f) ↦ elim (Bool-cases (E.amxd.is_template w.store templ)) [
      | inr no_template ↦ rw (f, no_template, remove_instance) refl
      | inl template ↦ elim (Option-cases (E.amxd.get_instance w.store templ info.index)) [
        | inl none' ↦ rw (f, template, none', remove_instance) refl
        | inr (obj, g) ↦
            rw (f, template, g, remove_instance)
              (delete_instance-shown info.path templ info.index other w f differ)
      ]
    ]
  ]

  -- A removal that fails has removed nothing.
  pub remove_instance_failed :
      (info : ActionInfo (Var E)) (w : World E)
      → (remove_instance E info w).0 ≡ false
      → (remove_instance E info w).1.store ≡ w.store
  unfolding remove_instance delete_instance dm_actions_set_ignore_param_reads
  remove_instance_failed info w h = ground arith
