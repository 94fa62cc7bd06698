-- ===== src/DataModel/Add/Atomic.antt =====
-- data_model.c: what a failed dm_add_instance leaves.
use tr181_xpon.Base.{
  ◌≡◌, Bool, true, false, Option, none, some, arith, Text, Option-cases, inl, inr,
}
use tr181_xpon.Amxd.{Transaction}
use tr181_xpon.DmInfo.{ObjectInfo}
use tr181_xpon.World.{Env, World}
use tr181_xpon.DataModel.Args.{ActionInfo, process_add_instance_args}
use tr181_xpon.DataModel.Change.{
  Var, dm_change_object, restore_onu_enable, onu_priv_attach_private_data,
}
use tr181_xpon.DataModel.Add.{add_instance, apply_adding, dm_add_instance}

module _ (E : Env) (w : World E) where
  -- Nothing differs but the list of restore_to_hal.c.
  abbrev pub SameButRth : World E → Type 0
  SameButRth w' =
      (w'.store ≡ w.store)
      × (w'.privs ≡ w.privs)
      × (w'.disk ≡ w.disk)
      × (w'.s_ignore_param_reads ≡ w.s_ignore_param_reads)
      × (w'.calls ≡ w.calls)

  -- A result whose state is the given one but for that list, unless it is a success.
  abbrev IsAtomic : Bool × World E → Type 0
  IsAtomic (ok, w') = ok ≡ false → SameButRth w'

  failed_apply :
      (obj_info : ObjectInfo) (info : ActionInfo (Var E)) (t : Transaction (Var E))
      → IsAtomic (apply_adding E obj_info info t w)
  unfolding apply_adding
  failed_apply obj_info info t h = ground arith

  add_instance_failed : (info : ActionInfo (Var E)) → IsAtomic (add_instance E info w)
  unfolding add_instance
  add_instance_failed info h = ground arith

  -- If dm_add_instance fails, whatever the reason, it has changed no object, no private data, no
  -- file and no flag, and has made no call: only the ONU or ANI may have been scheduled.
  pub dm_add_instance_failed :
      (args : Option (Var E))
      → (dm_add_instance E args w).0 ≡ false
      → SameButRth (dm_add_instance E args w).1
  unfolding dm_add_instance
  dm_add_instance_failed args h =
      elim (Option-cases (process_add_instance_args E.strings E.variants args)) [
        | inl none' ↦ ground (arith)
        | inr (info, e) ↦ ground (arith, add_instance_failed info)
      ]

  -- If dm_change_object fails, it has changed no object, no file and no flag, and has made no
  -- call.
  pub dm_change_object_failed :
      (args : Option (Var E))
      → (dm_change_object E args w).0 ≡ false
      → let w' = (dm_change_object E args w).1 in
        (w'.store ≡ w.store)
        × (w'.disk ≡ w.disk)
        × (w'.s_ignore_param_reads ≡ w.s_ignore_param_reads)
        × (w'.calls ≡ w.calls)
  unfolding dm_change_object restore_onu_enable onu_priv_attach_private_data
  dm_change_object_failed args h = ground arith

  -- If dm_add_instance succeeds, the arguments named a template object that had no instance with
  -- the given index.
  pub dm_add_instance_new :
      (args : Option (Var E))
      → (dm_add_instance E args w).0 ≡ true
      → (info : ActionInfo (Var E)) × (templ : Text) × (process_add_instance_args E.strings
            E.variants args
          ≡ some info)
        × (E.amxd.find w.store info.path ≡ some templ)
        × (E.amxd.is_template w.store templ ≡ true)
        × (E.amxd.get_instance w.store templ info.index ≡ none)
  unfolding dm_add_instance add_instance
  dm_add_instance_new args h =
      elim (Option-cases (process_add_instance_args E.strings E.variants args)) [
        | inl none' ↦ ground arith
        | inr (info, e) ↦ elim (Option-cases (E.amxd.find w.store info.path)) [
          | inl none' ↦ ground arith
          | inr (templ, f) ↦ (info, templ, e, f, ground arith, ground arith)
        ]
      ]
