-- ===== src/DataModel/Change/Once.antt =====
-- data_model.c: whether an ONU is enabled according to persistency is looked up once.
use tr181_xpon.Base.{
  ◌≡◌, ◌≢◌, ◌∙◌, ap, true, none, some, arith, Text, if◌then◌else◌, Option-cases, inl, inr,
}
use tr181_xpon.Amxd.{Transaction, set_param}
use tr181_xpon.DmInfo.{enable_param}
use tr181_xpon.Persistency.{persistency_is_enabled}
use tr181_xpon.RestoreToHal.{rth_schedule_enable}
use tr181_xpon.World.{Env, World, Priv, onu_priv, put_priv_self}
use tr181_xpon.DataModel.Args.{ActionInfo}
use tr181_xpon.DataModel.Transactions.{update_enable, instance_path, append_if_possible}
use tr181_xpon.DataModel.Change.{Var, onu_priv_attach_private_data, restore_onu_enable}

module _ (E : Env) (object : Text) where
  attached :
      (w : World E)
      → w.privs object ≡ none
      → (onu_priv_attach_private_data object w).privs object ≡ some onu_priv
  unfolding onu_priv_attach_private_data
  attached w bare = ground (arith, put_priv_self w.privs object (some onu_priv))

  known :
      (w : World E) (info : ActionInfo (Var E)) (t : Transaction (Var E)) (p : Priv)
      → w.privs object ≡ some p
      → restore_onu_enable E object info t w ≡ (t, w)
  unfolding restore_onu_enable
  known w info t p e = ground arith

  attaches :
      (w : World E) (info : ActionInfo (Var E)) (t : Transaction (Var E))
      → (p : Priv) × ((restore_onu_enable E object info t w).1.privs object ≡ some p)
  unfolding restore_onu_enable
  attaches w info t = elim (Option-cases (w.privs object)) [
    | inl bare ↦ (onu_priv, rw (bare, restore_onu_enable) (attached w bare))
    | inr (p, e) ↦ (p, ap (λ r. r.1.privs object) (known w info t p e) ∙ e)
  ]

  -- Once a change has looked up whether an ONU is enabled, no later change of that ONU adds the
  -- Enable parameter for this reason or schedules it again.
  restore_once :
      (w : World E) (first second : ActionInfo (Var E)) (t u : Transaction (Var E))
      → let w' = (restore_onu_enable E object first t w).1 in
        restore_onu_enable E object second u w' ≡ (u, w')
  restore_once w first second t u =
      let (p, e) = attaches w first t in
      known (restore_onu_enable E object first t w).1 second u p e

  -- The first change of an ONU sets Enable to true and schedules the ONU if a file says that it
  -- is enabled, and does neither if there is no such file.
  pub restore_first :
      (w : World E) (info : ActionInfo (Var E)) (t : Transaction (Var E))
      → w.privs object ≡ none
      → info.index ≢ 0
      → let path = instance_path info.path info.index in
        let (t', w') = restore_onu_enable E object info t w in
        let enabled = persistency_is_enabled E.s_storage_dir path w.disk in
        (t' ≡ (
          if enabled
          then append_if_possible E.amxd w.store t
              (set_param enable_param (E.variants.of_bool true))
          else t))
        × (w'.rth ≡ (if enabled then rth_schedule_enable E.allocates path w.rth else w.rth))
  unfolding restore_onu_enable update_enable onu_priv_attach_private_data
  restore_first w info t bare index = ground arith
