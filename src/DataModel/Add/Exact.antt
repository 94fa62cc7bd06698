-- ===== src/DataModel/Add/Exact.antt =====
-- data_model.c: the transaction with which an instance is added.
use tr181_xpon.Base.{
  ◌≡◌, ◌∙◌, ap, Bool, true, false, some, List, [], ◌∷◌, ◌++◌, arith, Text, if◌then◌else◌, ◌==◌, sym,
}
use tr181_xpon.Amxd.{Action, add_inst, set_param, Transaction}
use tr181_xpon.DmInfo.{ObjectInfo, dm_get_object_info, enable_param}
use tr181_xpon.Persistency.{persistency_is_enabled}
use tr181_xpon.RestoreToHal.{Rth, rth_schedule_enable}
use tr181_xpon.World.{Env, World}
use tr181_xpon.DataModel.Args.{ActionInfo}
use tr181_xpon.DataModel.Transactions.{instance_path, add_params_to_transaction, update_enable}
use tr181_xpon.DataModel.Transactions.Params.{
  extend, settings_of, add_params_to_transaction_lem, extend-extend, append-nil_actions,
}
use tr181_xpon.DataModel.Change.{Var, apply}
use tr181_xpon.DataModel.Add.{
  add_instance, prepare_adding_instance, begin_adding, apply_adding, after_adding,
}

module _ (E : Env) (w : World E) where
  -- Whether a file says that the instance is enabled, for an object that can be enabled.
  abbrev pub is_saved_enabled : ObjectInfo → ActionInfo (Var E) → Bool
  is_saved_enabled obj_info info =
      if obj_info.has_rw_enable
      then if info.index == 0
        then false
        else persistency_is_enabled E.s_storage_dir (instance_path info.path info.index) w.disk
      else false

  abbrev pub all_actions : ObjectInfo → ActionInfo (Var E) → Text → Var E → List (Action (Var E))
  all_actions obj_info info key_name key_value =
      add_inst info.index
        ∷ set_param key_name key_value
        ∷ settings_of E.variants info.params info.obj_id
      ++ (if is_saved_enabled obj_info info
          then set_param enable_param (E.variants.of_bool true) ∷ []
          else [])

  module _
      (accepts : (t : Transaction (Var E)) (a : Action (Var E))
        → E.amxd.can_append w.store t a ≡ true)
      (obj_info : ObjectInfo) (info : ActionInfo (Var E)) where
    enable_lem :
        (t : Transaction (Var E))
        → (if obj_info.has_rw_enable then update_enable E w t info.path info.index else (t, w.rth))
          ≡ (if is_saved_enabled obj_info info
              then (
                extend t (set_param enable_param (E.variants.of_bool true) ∷ []),
                rth_schedule_enable E.allocates (instance_path info.path info.index) w.rth,
              )
              else (t, w.rth))
    unfolding update_enable
    enable_lem t = ground (arith, accepts t (set_param enable_param (E.variants.of_bool true)))

    -- The end of add_instance, from the call of amxd_trans_apply on.
    abbrev pub attempt : Transaction (Var E) → Rth → Bool × World E
    attempt t rth =
        let (ok, w') = apply E t (record w { rth = rth }) in
        if ok then (true, after_adding E obj_info.id info.path info.index w') else (false, w')

    abbrev pub rth_after : Rth
    rth_after =
        if is_saved_enabled obj_info info
        then rth_schedule_enable E.allocates (instance_path info.path info.index) w.rth
        else w.rth

    -- A transaction and the tasks, depending on whether a file says that the instance is enabled.
    abbrev with_enable : Bool → Transaction (Var E) → Transaction (Var E) × Rth
    with_enable saved t =
        if saved
        then (
          extend t (set_param enable_param (E.variants.of_bool true) ∷ []),
          rth_schedule_enable E.allocates (instance_path info.path info.index) w.rth,
        )
        else (t, w.rth)

    enabled_lem :
        (t : Transaction (Var E)) (settings : List (Action (Var E))) (saved : Bool)
        → with_enable saved (extend t settings) ≡ (
          extend t (
              settings
              ++ (if saved then set_param enable_param (E.variants.of_bool true) ∷ [] else [])),
          if saved
              then rth_schedule_enable E.allocates (instance_path info.path info.index) w.rth
              else w.rth,
        )
    enabled_lem t settings true =
        ap (λ x. (x, rth_schedule_enable E.allocates (instance_path info.path info.index) w.rth))
          (extend-extend t settings (set_param enable_param (E.variants.of_bool true) ∷ []))
    enabled_lem t settings false = ap (λ x. (extend t x, w.rth)) (sym (append-nil_actions settings))

    apply_adding_lem :
        (templ key_name : Text) (key_value : Var E)
        → let t : Transaction (Var E) = record {
          object = templ;
          actions = add_inst info.index ∷ set_param key_name key_value ∷ [];
        } in
          apply_adding E obj_info info t w
          ≡ attempt
              (record { object = templ; actions = all_actions obj_info info key_name key_value })
              rth_after
    unfolding apply_adding
    apply_adding_lem templ key_name key_value =
        let t : Transaction (Var E) = record {
          object = templ;
          actions = add_inst info.index ∷ set_param key_name key_value ∷ [];
        } in
        let settings = settings_of E.variants info.params info.obj_id in
        let enable = set_param enable_param (E.variants.of_bool true) ∷ [] in
        ap (λ p. attempt p.0 p.1)
          (enable_lem (add_params_to_transaction E.amxd w.store t info.params info.obj_id)
            ∙ ap (with_enable (is_saved_enabled obj_info info))
                (add_params_to_transaction_lem E.amxd w.store accepts t info.params info.obj_id)
            ∙ enabled_lem t settings (is_saved_enabled obj_info info))

    begin_adding_lem :
        (templ key_name : Text) (key_value : Var E)
        → E.amxd.can_select w.store templ ≡ true
        → begin_adding E w.store templ key_name info.index key_value
          ≡ some (record {
            object = templ;
            actions = add_inst info.index ∷ set_param key_name key_value ∷ [];
          })
    unfolding begin_adding
    begin_adding_lem templ key_name key_value s =
        let empty : Transaction (Var E) = record { object = templ; actions = [] } in
        let one : Transaction (Var E) = record {
          object = templ;
          actions = add_inst info.index ∷ [];
        } in
        rw (
          s,
          accepts empty (add_inst info.index),
          accepts one (set_param key_name key_value),
          begin_adding,
        )

    -- If the library accepts every action, an instance is added by one transaction: it adds the
    -- given index, sets the key, sets each well-typed parameter of the arguments in their order
    -- and, if a file says so, Enable; the function succeeds exactly if the library applies it,
    -- and then what belongs to the kind of object follows.
    pub add_instance_applies :
        (templ key_name : Text) (key_value : Var E)
        → dm_get_object_info info.obj_id ≡ some obj_info
        → prepare_adding_instance E info.path info.index w.store ≡ some templ
        → E.amxd.can_select w.store templ ≡ true
        → obj_info.key_name ≡ some key_name
        → info.key_value ≡ some key_value
        → add_instance E info w
          ≡ attempt
              (record { object = templ; actions = all_actions obj_info info key_name key_value })
              rth_after
    unfolding add_instance
    add_instance_applies templ key_name key_value o p s k v =
        rw (o, p, k, v, begin_adding_lem templ key_name key_value s, add_instance)
          (apply_adding_lem templ key_name key_value)
