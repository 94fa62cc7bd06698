-- ===== src/DataModel/Existence/Adding.antt =====
-- data_model.c: the end of add_instance makes the instance exist.
use tr181_xpon.Base.{
  ◌≡◌, refl, ◌∙◌, ap, sym, subst, ℕ, Bool, true, false, some, ◌∷◌, Text, Option-cases, inl, inr,
  is_some,
}
use tr181_xpon.Amxd.{set_param, Transaction}
use tr181_xpon.DmInfo.{ObjectId, ObjectInfo, onu, ani}
use tr181_xpon.World.{Env, World}
use tr181_xpon.DataModel.Args.{ActionInfo}
use tr181_xpon.DataModel.Reads.{dm_does_instance_exist}
use tr181_xpon.DataModel.Change.{Var, apply}
use tr181_xpon.DataModel.Transactions.{add_params_to_transaction, instance_path}
use tr181_xpon.DataModel.Add.{add_private_data_to_onu, after_adding, apply_adding}
use tr181_xpon.DataModel.Existence.{AppliesActions}
use tr181_xpon.DataModel.Existence.Sets.{Extends, Extends-both, add_params_to_transaction-Extends}
use tr181_xpon.DataModel.Existence.Steps.{
  private_same, adding, finish, enable_step, enable_step-Extends,
}
use tr181_xpon.DataModel.Existence.Change.{
  SameObjects, same_store, passwd_restore_password-SameObjects,
}

module _ (E : Env) (laws : AppliesActions E.amxd) where
  abbrev pub Exists : Text → ℕ → World E → Type 0
  Exists path index w = dm_does_instance_exist E.amxd w.store path index ≡ true

  pub exist_lem :
      (s : E.amxd.Store) (path templ : Text) (index : ℕ)
      → E.amxd.find s path ≡ some templ
      → dm_does_instance_exist E.amxd s path index ≡ is_some (E.amxd.get_instance s templ index)
  unfolding dm_does_instance_exist
  exist_lem s path templ index f = rw (f, dm_does_instance_exist) refl

  pub after_adding-SameObjects :
      (id : ObjectId) (path : Text) (index : ℕ) (w : World E)
      → SameObjects E laws w (after_adding E id path index w)
  unfolding after_adding
  after_adding-SameObjects onu path index w =
      same_store E laws w (add_private_data_to_onu E path index w) (private_same E path index w)
  after_adding-SameObjects ani path index w =
      passwd_restore_password-SameObjects E laws (instance_path path index) w
  after_adding-SameObjects _ path index w = same_store E laws w w refl

  applied :
      (templ key_name path : Text) (index : ℕ) (key_value : Var E) (t : Transaction (Var E))
      (w : World E)
      → Extends (adding E templ key_name index key_value) t
      → E.amxd.find w.store path ≡ some templ
      → (apply E t w).0 ≡ true
      → Exists path index (apply E t w).1
  applied templ key_name path index key_value t w (sets, e, h) f ok =
      elim (Option-cases (E.amxd.apply w.s_ignore_param_reads w.store t)) [
        | inl failed ↦ absurd (cc (rw (failed, apply) at ok))
        | inr (s', done) ↦
            let ignore = w.s_ignore_param_reads in
            let selected : t.object ≡ templ = ap (λ x. x.object) e in
            let found =
              laws.keeps_selected ignore w.store s' t path done (f ∙ ap some (sym selected))
              ∙ ap some selected in
            let added =
              laws.adds ignore w.store s' templ index (set_param key_name key_value ∷ sets) h
                (subst (λ x. E.amxd.apply ignore w.store x ≡ some s') e done) in
            rw (done, apply) (exist_lem s' path templ index found ∙ added)
      ]

  pub still :
      (path : Text) (index : ℕ) (w w' : World E)
      → SameObjects E laws w w'
      → Exists path index w
      → Exists path index w'
  unfolding dm_does_instance_exist
  still path index w w' same h = elim (Option-cases (E.amxd.find w.store path)) [
    | inl none' ↦ absurd (cc (rw (none', dm_does_instance_exist) at h))
    | inr (templ, f) ↦
        exist_lem w'.store path templ index (same.objects path ∙ f)
        ∙ ap is_some (same.instances templ index)
        ∙ sym (exist_lem w.store path templ index f)
        ∙ h
  ]

  finish-Exists :
      (id : ObjectId) (path : Text) (index : ℕ) (r : Bool × World E)
      → (r.0 ≡ true → Exists path index r.1)
      → (finish E id path index r).0 ≡ true
      → Exists path index (finish E id path index r).1
  unfolding finish
  finish-Exists id path index (true, w) h ok =
      still path index w (after_adding E id path index w) (after_adding-SameObjects id path index w)
        (h refl)
  finish-Exists id path index (false, w) h ok = absurd (cc)

  pub apply_adding-Exists :
      (obj_info : ObjectInfo) (info : ActionInfo (Var E)) (templ key_name : Text)
      (key_value : Var E) (w : World E)
      → let t = adding E templ key_name info.index key_value in
        E.amxd.find w.store info.path ≡ some templ
        → (apply_adding E obj_info info t w).0 ≡ true
        → Exists info.path info.index (apply_adding E obj_info info t w).1
  unfolding apply_adding finish enable_step
  apply_adding-Exists obj_info info templ key_name key_value w f ok =
      let t = adding E templ key_name info.index key_value in
      let t' = add_params_to_transaction E.amxd w.store t info.params info.obj_id in
      let (t'', rth) = enable_step E obj_info info t' w in
      let extends =
        Extends-both t t' t''
          (add_params_to_transaction-Extends E.amxd w.store t info.params info.obj_id)
          (enable_step-Extends E obj_info info t' w) in
      finish-Exists obj_info.id info.path info.index (apply E t'' (record w { rth = rth }))
        (applied templ key_name info.path info.index key_value t'' (record w { rth = rth }) extends
          f)
        ok
