-- ===== src/DataModel/Existence/Steps.antt =====
-- data_model.c: the transactions of add_instance and dm_change_object, step by step.
use tr181_xpon.Base.{
  ◌≡◌, refl, ℕ, Bool, true, false, some, [], ◌∷◌, arith, Text, Bool-cases, Option-cases, inl, inr,
  if◌then◌else◌,
}
use tr181_xpon.Amxd.{add_inst, set_param, Transaction}
use tr181_xpon.DmInfo.{ObjectId, ObjectInfo}
use tr181_xpon.RestoreToHal.{Rth}
use tr181_xpon.World.{Env, World}
use tr181_xpon.DataModel.Args.{ActionInfo}
use tr181_xpon.DataModel.Change.{Var, restore_onu_enable, onu_priv_attach_private_data}
use tr181_xpon.DataModel.Transactions.{update_enable}
use tr181_xpon.DataModel.Add.{add_private_data_to_onu, begin_adding, after_adding}
use tr181_xpon.DataModel.Existence.Sets.{Extends, Extends-none, update_enable-Extends}

module _ (E : Env) where
  attach_same :
      (object : Text) (w : World E) → (onu_priv_attach_private_data object w).store ≡ w.store
  unfolding onu_priv_attach_private_data
  attach_same object w = ground arith

  pub private_same :
      (path : Text) (index : ℕ) (w : World E)
      → (add_private_data_to_onu E path index w).store ≡ w.store
  unfolding add_private_data_to_onu
  private_same path index w = elim (Option-cases (E.amxd.find w.store path)) [
    | inl none' ↦ rw (none', add_private_data_to_onu) refl
    | inr (templ, f) ↦ elim (Option-cases (E.amxd.get_instance w.store templ index)) [
      | inl none' ↦ rw (f, none', add_private_data_to_onu) refl
      | inr (obj, g) ↦ rw (f, g, add_private_data_to_onu) (attach_same obj w)
    ]
  ]

  -- The transaction that adds the instance and sets its key.
  abbrev pub adding : Text → Text → ℕ → Var E → Transaction (Var E)
  adding templ key_name index key_value = record {
    object = templ;
    actions = add_inst index ∷ set_param key_name key_value ∷ [];
  }

  pub begun :
      (s : E.amxd.Store) (templ key_name : Text) (index : ℕ) (key_value : Var E)
      (t : Transaction (Var E))
      → begin_adding E s templ key_name index key_value ≡ some t
      → t ≡ adding templ key_name index key_value
  unfolding begin_adding
  begun s templ key_name index key_value t h = ground arith

  -- The end of apply_adding.
  unfoldable pub finish : ObjectId → Text → ℕ → Bool × World E → Bool × World E
  finish id path index (done, w) =
      if done then (true, after_adding E id path index w) else (false, w)

  unfoldable pub enable_step :
      ObjectInfo → ActionInfo (Var E) → Transaction (Var E) → World E → Transaction (Var E) × Rth
  enable_step obj_info info t w =
      if obj_info.has_rw_enable then update_enable E w t info.path info.index else (t, w.rth)

  pub enable_step-Extends :
      (obj_info : ObjectInfo) (info : ActionInfo (Var E)) (t : Transaction (Var E)) (w : World E)
      → Extends t (enable_step obj_info info t w).0
  unfolding enable_step
  enable_step-Extends obj_info info t w = elim (Bool-cases obj_info.has_rw_enable) [
    | inl has ↦ rw (has, enable_step) (update_enable-Extends E w t info.path info.index)
    | inr has_not ↦ rw (has_not, enable_step) (Extends-none t)
  ]

  pub restored :
      (object : Text) (info : ActionInfo (Var E)) (t : Transaction (Var E)) (w : World E)
      → Extends t (restore_onu_enable E object info t w).0
        × ((restore_onu_enable E object info t w).1.store ≡ w.store)
  unfolding restore_onu_enable onu_priv_attach_private_data
  restored object info t w = elim (Option-cases (w.privs object)) [
    | inl missing ↦
        rw (missing, restore_onu_enable)
          (
            update_enable-Extends E (onu_priv_attach_private_data object w) t info.path info.index,
            rw (missing, onu_priv_attach_private_data) refl,
          )
    | inr (p, e) ↦ rw (e, restore_onu_enable) (Extends-none t, refl)
  ]
