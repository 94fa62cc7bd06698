-- ===== src/DataModel/Asked.antt =====
-- data_model.c, dm_actions.c: what the vendor module is asked for while a transaction is applied.
-- While libamxd deletes an instance it calls the read handlers of the parameters of the
-- instance, and _read_trx_param asks the vendor module unless s_ignore_param_reads is true.
use tr181_xpon.Base.{
  ◌≡◌, refl, ◌∙◌, ap, ℕ, Bool, true, false, Option, some, List, [], ◌∷◌, Text, codes, Bool-cases,
  Option-cases, inl, inr, ◌==◌, length,
}
use tr181_xpon.Amxc.{Variants, all}
use tr181_xpon.Amxd.{Amxd, Action, add_inst, Transaction}
use tr181_xpon.RestoreToHal.{is_onu}
use tr181_xpon.UpgradePersistency.{upgr_persistency_get_password}
use tr181_xpon.World.{Env, World}
use tr181_xpon.DataModel.Args.{ActionInfo, process_args_common, change_obj_args_required}
use tr181_xpon.DataModel.Change.{
  Var, apply, restore_onu_enable, target_path, change_found, dm_change_object,
  update_password_in_dm, passwd_restore_password, password_args,
}
use tr181_xpon.DataModel.Transactions.{add_params_to_transaction}
use tr181_xpon.DataModel.Existence.{is_set}
use tr181_xpon.DataModel.Existence.Sets.{Extends, Extends-both, add_params_to_transaction-Extends}
use tr181_xpon.DataModel.Existence.Steps.{restored}
pub mod Instances
pub mod Calls

-- Which transactions read no parameter through a handler that asks.
pub record AsksOnDeletion {V : Variants} (A : Amxd V) : Type 0 where
  -- The handler returns first while reads are ignored.
  pub ignored :
      (s s' : A.Store) (t : Transaction V.Var) → A.apply true s t ≡ some s' → A.asked s' ≡ A.asked s
  -- Neither setting parameters nor adding an instance reads any.
  pub sets :
      (ignore : Bool) (s s' : A.Store) (t : Transaction V.Var)
      → all is_set t.actions ≡ true
      → A.apply ignore s t ≡ some s'
      → A.asked s' ≡ A.asked s
  pub adds :
      (ignore : Bool) (s s' : A.Store) (templ : Text) (index : ℕ) (sets : List (Action V.Var))
      → all is_set sets ≡ true
      → A.apply ignore s (record { object = templ; actions = add_inst index ∷ sets }) ≡ some s'
      → A.asked s' ≡ A.asked s
  pub puts :
      (s s' : A.Store) (object name : Text) (value : V.Var)
      → A.put_param s object name value ≡ some s'
      → A.asked s' ≡ A.asked s
  -- A GEM port has no parameter with such a handler.
  pub ports :
      (ignore : Bool) (s s1 s' : A.Store) (ani : Text) (t : Transaction V.Var)
      → A.get_child s ani (codes "TC.GEM.Port") ≡ some t.object
      → A.apply ignore s1 t ≡ some s'
      → A.asked s' ≡ A.asked s1

module _ (E : Env) (laws : AsksOnDeletion E.amxd) where
  -- Nothing more has been asked.
  abbrev pub Silent : World E → World E → Type 0
  Silent w w' = E.amxd.asked w'.store ≡ E.amxd.asked w.store

  pub same-Silent : (w w' : World E) → w'.store ≡ w.store → Silent w w'
  same-Silent w w' e = ap E.amxd.asked e

  pub apply-Silent :
      (t : Transaction (Var E)) (w : World E)
      → ((s' : E.amxd.Store)
          → E.amxd.apply w.s_ignore_param_reads w.store t ≡ some s'
          → E.amxd.asked s' ≡ E.amxd.asked w.store)
      → Silent w (apply E t w).1
  apply-Silent t w quiet = elim (Option-cases (E.amxd.apply w.s_ignore_param_reads w.store t)) [
    | inl failed ↦ rw (failed, apply) refl
    | inr (s', done) ↦ rw (done, apply) (quiet s' done)
  ]

  sets-Silent :
      (object : Text) (t : Transaction (Var E)) (w : World E)
      → Extends (record { object = object; actions = [] }) t
      → Silent w (apply E t w).1
  sets-Silent object t w (sets, e, h) =
      let only : all is_set t.actions ≡ true = ap (λ x. all is_set x.actions) e ∙ h in
      apply-Silent t w (λ s' done. laws.sets w.s_ignore_param_reads w.store s' t only done)

  change_found-Silent :
      (object : Text) (info : ActionInfo (Var E)) (w : World E)
      → Silent w (change_found E object info w).1
  unfolding change_found
  change_found-Silent object info w =
      let t : Transaction (Var E) = record { object = object; actions = [] } in
      let t' = add_params_to_transaction E.amxd w.store t info.params info.obj_id in
      let params = add_params_to_transaction-Extends E.amxd w.store t info.params info.obj_id in
      let (t'', w') = restore_onu_enable E object info t' w in
      let (enable, same) = restored E object info t' w in
      elim (Bool-cases (E.amxd.can_select w.store object)) [
        | inl selects ↦ elim (Bool-cases (is_onu info.obj_id)) [
          | inl onu' ↦
              rw (selects, onu', change_found)
                (sets-Silent object t'' w' (Extends-both t t' t'' params enable)
                  ∙ same-Silent w w' same)
          | inr other ↦ rw (selects, other, change_found) (sets-Silent object t' w params)
        ]
        | inr fails ↦ rw (fails, change_found) refl
      ]

  pub dm_change_object-Silent :
      (args : Option (Var E)) (w : World E) → Silent w (dm_change_object E args w).1
  unfolding dm_change_object
  dm_change_object-Silent args w =
      elim (Option-cases (process_args_common E.strings E.variants args change_obj_args_required)) [
        | inl none' ↦ rw (none', dm_change_object) refl
        | inr (info, e) ↦ elim (Option-cases (E.amxd.find w.store (target_path E info))) [
          | inl none' ↦ rw (e, none', dm_change_object) refl
          | inr (object, f) ↦ rw (e, f, dm_change_object) (change_found-Silent object info w)
        ]
      ]

  update_password_in_dm-Silent :
      (ani_path password : Text) (hex : Bool) (w : World E)
      → Silent w (update_password_in_dm E ani_path password hex w)
  unfolding update_password_in_dm
  update_password_in_dm-Silent ani_path password hex w =
      elim (Option-cases (password_args E ani_path password hex)) [
        | inl none' ↦ rw (none', update_password_in_dm) (refl)
        | inr (args, e) ↦ rw (e, update_password_in_dm) (dm_change_object-Silent (some args) w)
      ]

  pub passwd_restore_password-Silent :
      (ani_path : Text) (w : World E) → Silent w (passwd_restore_password E ani_path w)
  unfolding passwd_restore_password
  passwd_restore_password-Silent ani_path w =
      let saved =
        upgr_persistency_get_password E.faults E.s_upgr_storage_dir ani_path [] false w.disk in
      elim (Bool-cases saved.rv) [
        | inl found ↦ elim (Bool-cases (length saved.password == 0)) [
          | inl empty ↦ rw (found, empty, passwd_restore_password) refl
          | inr full ↦
              rw (found, full, passwd_restore_password)
                (update_password_in_dm-Silent ani_path saved.password saved.hex w)
        ]
        | inr failed ↦ rw (failed, passwd_restore_password) refl
      ]
