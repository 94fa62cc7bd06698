-- ===== src/DataModel/Change/Applied.antt =====
-- data_model.c: what dm_change_object applies.
use tr181_xpon.Base.{
  ◌≡◌, refl, ◌⊎◌, ◌∙◌, ap, sym, true, Option, some, [], arith, Text, ◌==◌, Bool-cases, Option-cases,
  inl, inr,
}
use tr181_xpon.Amxc.{id_bool}
use tr181_xpon.Amxd.{set_param, Transaction}
use tr181_xpon.DmInfo.{enable_param}
use tr181_xpon.Persistency.{persistency_is_enabled}
use tr181_xpon.RestoreToHal.{is_onu}
use tr181_xpon.World.{Env, World}
use tr181_xpon.DataModel.Args.{ActionInfo, process_args_common, change_obj_args_required}
use tr181_xpon.DataModel.Transactions.{add_params_to_transaction, update_enable, instance_path}
use tr181_xpon.DataModel.Change.{
  Var, apply, restore_onu_enable, target_path, change_found, dm_change_object,
  onu_priv_attach_private_data,
}
use tr181_xpon.DataModel.Change.Typed.{
  AllTyped, enable_typed, append-AllTyped, add_params_to_transaction-AllTyped,
}
use tr181_xpon.DataModel.Existence.Sets.{add_params_to_transaction-Extends}

module _ (E : Env) where
  -- A transaction on this object that only sets its parameters, to values of their declared types.
  pub record AppliesTyped (object : Text) (info : ActionInfo (Var E)) (w w' : World E)
      : Type 0 where
    pub transaction : Transaction (Var E)
    pub selects : transaction.object ≡ object
    pub typed : AllTyped E.variants info.obj_id transaction
    pub applied : E.amxd.apply w.s_ignore_param_reads w.store transaction ≡ some w'.store

  -- The object that the arguments name, which is found.
  pub record IsTarget (args : Option (Var E)) (object : Text) (info : ActionInfo (Var E))
      (w : World E) : Type 0 where
    pub accepted :
        process_args_common E.strings E.variants args change_obj_args_required ≡ some info
    pub found : E.amxd.find w.store (target_path E info) ≡ some object

  module _ (bool : E.variants.type_of (E.variants.of_bool true) ≡ id_bool) where
    update_enable-AllTyped :
        (info : ActionInfo (Var E)) (t : Transaction (Var E)) (w : World E)
        → is_onu info.obj_id ≡ true
        → AllTyped E.variants info.obj_id t
        → AllTyped E.variants info.obj_id (update_enable E w t info.path info.index).0
    unfolding update_enable
    update_enable-AllTyped info t w onu' h = elim (Bool-cases (info.index == 0)) [
      | inl zero' ↦ rw (zero', update_enable) h
      | inr given ↦
          elim (Bool-cases
            (persistency_is_enabled E.s_storage_dir (instance_path info.path info.index) w.disk)) [
              | inl on ↦
                  rw (given, on, update_enable)
                    (append-AllTyped E.variants E.amxd w.store info.obj_id t
                      (set_param enable_param (E.variants.of_bool true))
                      (enable_typed E.variants bool info.obj_id onu') h)
              | inr off ↦ rw (given, off, update_enable) h
            ]
    ]

    same_object :
        (info : ActionInfo (Var E)) (t : Transaction (Var E)) (w : World E)
        → (update_enable E w t info.path info.index).0.object ≡ t.object
    unfolding update_enable
    same_object info t w = ground arith

    -- The store and the flag stay until the transaction is applied.
    restore-AllTyped :
        (object : Text) (info : ActionInfo (Var E)) (t : Transaction (Var E)) (w : World E)
        → is_onu info.obj_id ≡ true
        → AllTyped E.variants info.obj_id t
        → let (t', w') = restore_onu_enable E object info t w in
          AllTyped E.variants info.obj_id t'
          × (w'.store ≡ w.store)
          × (w'.s_ignore_param_reads ≡ w.s_ignore_param_reads)
          × (t'.object ≡ t.object)
    unfolding restore_onu_enable onu_priv_attach_private_data
    restore-AllTyped object info t w onu' h = elim (Option-cases (w.privs object)) [
      | inl bare ↦
          let u = onu_priv_attach_private_data object w in
          rw (bare, restore_onu_enable)
            (
              update_enable-AllTyped info t u onu' h,
              rw (bare, onu_priv_attach_private_data) refl,
              rw (bare, onu_priv_attach_private_data) refl,
              same_object info t u,
            )
      | inr (p, e) ↦ rw (e, restore_onu_enable) (h, refl, refl, refl)
    ]

    -- A transaction that is applied on the object.
    apply-AppliesTyped :
        (object : Text) (info : ActionInfo (Var E)) (t : Transaction (Var E)) (w u : World E)
        → AllTyped E.variants info.obj_id t
        → t.object ≡ object
        → u.store ≡ w.store
        → u.s_ignore_param_reads ≡ w.s_ignore_param_reads
        → ((apply E t u).1.store ≡ w.store) ⊎ AppliesTyped object info w (apply E t u).1
    apply-AppliesTyped object info t w u typed selects store ignore =
        elim (Option-cases (E.amxd.apply u.s_ignore_param_reads u.store t)) [
          | inl failed ↦ rw (failed, apply) (inl store)
          | inr (s', done) ↦
              rw (done, apply)
                (inr (record {
                  transaction = t;
                  selects = selects;
                  typed = typed;
                  applied =
                      ap (λ i. E.amxd.apply i w.store t) (sym ignore)
                      ∙ ap (λ s. E.amxd.apply u.s_ignore_param_reads s t) (sym store)
                      ∙ done;
                }))
        ]

    change_found-AppliesTyped :
        (object : Text) (info : ActionInfo (Var E)) (w : World E)
        → ((change_found E object info w).1.store ≡ w.store)
          ⊎ AppliesTyped object info w (change_found E object info w).1
    unfolding change_found
    change_found-AppliesTyped object info w =
        let t : Transaction (Var E) = record { object = object; actions = [] } in
        let t' = add_params_to_transaction E.amxd w.store t info.params info.obj_id in
        let typed =
          add_params_to_transaction-AllTyped E.variants E.amxd w.store info.obj_id t info.params
            refl in
        let (sets, extends, only) =
          add_params_to_transaction-Extends E.amxd w.store t info.params info.obj_id in
        let selects : t'.object ≡ object = ap (λ x. x.object) extends in
        elim (Bool-cases (E.amxd.can_select w.store object)) [
          | inr fails ↦ rw (fails, change_found) (inl refl)
          | inl can ↦ elim (Bool-cases (is_onu info.obj_id)) [
            | inl onu' ↦
                let (t'', u) = restore_onu_enable E object info t' w in
                let (typed', store, ignore, same) = restore-AllTyped object info t' w onu' typed in
                rw (can, onu', change_found)
                  (apply-AppliesTyped object info t'' w u typed' (same ∙ selects) store ignore)
            | inr other ↦
                rw (can, other, change_found)
                  (apply-AppliesTyped object info t' w w typed selects refl refl)
          ]
        ]

    -- dm_change_object leaves the store, or applies one transaction to the object that its
    -- arguments name, in which each action sets a parameter that the object is declared with to a
    -- value of the declared type, if the library makes a bool of a bool.
    pub dm_change_object-AppliesTyped :
        (args : Option (Var E)) (w : World E)
        → let w' = (dm_change_object E args w).1 in
          (w'.store ≡ w.store)
          ⊎ ((object : Text) × (info : ActionInfo (Var E)) × IsTarget args object info w
              × AppliesTyped object info w w')
    unfolding dm_change_object
    dm_change_object-AppliesTyped args w =
        elim (Option-cases
          (process_args_common E.strings E.variants args change_obj_args_required)) [
            | inl none' ↦ rw (none', dm_change_object) (inl refl)
            | inr (info, e) ↦ elim (Option-cases (E.amxd.find w.store (target_path E info))) [
              | inl none' ↦ rw (e, none', dm_change_object) (inl refl)
              | inr (object, f) ↦
                  rw (e, f, dm_change_object)
                    (targeted object info (record { accepted = e; found = f })
                      (change_found-AppliesTyped object info w))
            ]
          ]
      where
        targeted :
            (object : Text) (info : ActionInfo (Var E))
            → IsTarget args object info w
            → ((change_found E object info w).1.store ≡ w.store)
              ⊎ AppliesTyped object info w (change_found E object info w).1
            → ((change_found E object info w).1.store ≡ w.store)
              ⊎ ((object' : Text) × (info' : ActionInfo (Var E)) × IsTarget args object' info' w
                  × AppliesTyped object' info' w (change_found E object info w).1)
        targeted object info target (inl same) = inl same
        targeted object info target (inr applies) = inr (object, info, target, applies)
