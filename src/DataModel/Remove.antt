-- ===== src/DataModel/Remove.antt =====
-- data_model.c: removing instances, and setting a parameter of the XPON object.
pub mod Exact
use tr181_xpon.Base.{
  ℕ, Bool, true, false, Option, none, some, List, [], ◌∷◌, ◌++◌, Text, codes, strncmp_eq, ◌==◌,
  if◌then◌else◌,
}
use tr181_xpon.Amxc.{get_char}
use tr181_xpon.Amxd.{Amxd, Action, del_inst, Transaction}
use tr181_xpon.World.{Env, World}
use tr181_xpon.DataModel.Args.{ActionInfo, process_remove_instance_args}
use tr181_xpon.DataModel.Reads.{instance_count}
use tr181_xpon.DataModel.Transactions.{append}
use tr181_xpon.DataModel.Change.{Var, apply}

module _ (E : Env) where
  unfoldable pub dm_actions_set_ignore_param_reads : Bool → World E → World E
  dm_actions_set_ignore_param_reads ignore w = record w { s_ignore_param_reads = ignore }

  -- From the transaction on. Both ways out pass the label exit.
  unfoldable pub delete_instance : Text → ℕ → World E → Bool × World E
  unfolding dm_actions_set_ignore_param_reads
  delete_instance templ index w =
      let t : Transaction (Var E) = record { object = templ; actions = [] } in
      if E.amxd.can_select w.store templ
      then elim (append E.amxd w.store t (del_inst index)) [
        | none ↦ (false, dm_actions_set_ignore_param_reads false w)
        | some t' ↦
            let (ok, w') = apply E t' (dm_actions_set_ignore_param_reads true w) in
            (ok, dm_actions_set_ignore_param_reads false w')
      ]
      else (false, dm_actions_set_ignore_param_reads false w)

  unfoldable pub remove_instance : ActionInfo (Var E) → World E → Bool × World E
  unfolding delete_instance
  remove_instance info w = elim (E.amxd.find w.store info.path) [
    | none ↦ (true, w)
    | some templ ↦
        if E.amxd.is_template w.store templ
        then elim (E.amxd.get_instance w.store templ info.index) [
          | none ↦ (true, w)
          | some obj ↦ delete_instance templ info.index w
        ]
        else (false, w)
  ]

  -- Whether 0 is returned, and the state afterwards.
  unfoldable pub dm_remove_instance : Option (Var E) → World E → Bool × World E
  dm_remove_instance args w = elim (process_remove_instance_args E.strings E.variants args) [
    | none ↦ (false, w)
    | some info ↦ remove_instance info w
  ]

  -- The loop of remove_all_instances; none if it jumps to exit.
  unfoldable pub delete_all :
      E.amxd.Store → Transaction (Var E) → List Text → Option (Transaction (Var E))
  delete_all s t [] = some t
  delete_all s t (instance' ∷ rest) =
      elim (append E.amxd s t (del_inst (E.amxd.get_index instance'))) [
        | none ↦ none
        | some t' ↦ delete_all s t' rest
      ]

  unfoldable pub remove_all_instances : Text → World E → Bool × World E
  unfolding delete_all
  remove_all_instances templ w =
      if E.amxd.is_template w.store templ
      then if instance_count E.amxd w.store templ == 0
        then (true, w)
        else if E.amxd.can_select w.store templ
        then elim (delete_all w.store (record { object = templ; actions = [] })
            (E.amxd.instances w.store templ)) [ none ↦ (false, w) | some t ↦ apply E t w ]
        else (false, w)
      else (false, w)

  -- dm_get_xpon_object
  abbrev pub dm_get_xpon_object : World E → Option Text
  dm_get_xpon_object w = E.amxd.find w.store (codes "XPON")

  abbrev set_value : Text → Text → Var E → World E → Bool × World E
  set_value object name value w = elim (E.amxd.put_param w.store object name value) [
    | none ↦ (false, w)
    | some store ↦ (true, record w { store = store })
  ]

  unfoldable pub dm_set_vendor_module : Text → World E → World E
  dm_set_vendor_module name w = elim (dm_get_xpon_object w) [
    | none ↦ w
    | some xpon ↦ (set_value xpon (codes "ModuleName") (E.variants.of_cstring name) w).1
  ]

  unfoldable pub dm_set_module_error : World E → World E
  dm_set_module_error w = elim (dm_get_xpon_object w) [
    | none ↦ w
    | some xpon ↦ (set_value xpon (codes "ModuleError") (E.variants.of_bool true) w).1
  ]

  -- Whether 0 is returned, and the state afterwards.
  unfoldable pub dm_set_xpon_parameter_impl : Var E → World E → Bool × World E
  dm_set_xpon_parameter_impl args w = elim (dm_get_xpon_object w) [
    | none ↦ (false, w)
    | some xpon ↦ elim (E.variants.htable_keys args) [
      | none ↦ (false, w)
      | some keys ↦ elim (get_char E.variants args (codes "name")) [
        | none ↦ (false, w)
        | some name ↦
            if strncmp_eq name (codes "FsmState") 8
            then elim (E.variants.get_key args (codes "value")) [
              | none ↦ (false, w)
              | some value ↦ set_value xpon name value w
            ]
            else (false, w)
      ]
    ]
  ]
