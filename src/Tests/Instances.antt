-- ===== src/Tests/Instances.antt =====
-- Adding, removing and resetting instances at concrete inputs.
use tr181_xpon.Base.{◌≡◌, refl, ℕ, true, false, some, [], percent_d, codes, if◌then◌else◌}
use tr181_xpon.DmInfo.{
  ObjectInfo, ani, ani_params, dm_get_object_info, dm_get_object_id, dm_convert_to_generic_path,
  find_generic_path,
}
use tr181_xpon.DataModel.Args.{
  ActionInfo, process_add_instance_args, process_args_common, process_htable, find_key_value,
  check_required, get_ref_to_params,
}
use tr181_xpon.DataModel.Change.{dm_change_object}
use tr181_xpon.DataModel.Remove.{remove_instance, dm_remove_instance}
use tr181_xpon.DataModel.Add.{
  dm_add_instance, add_instance, apply_adding, begin_adding, prepare_adding_instance,
}
use tr181_xpon.DataModel.Add.Atomic.{SameButRth, dm_add_instance_failed, dm_change_object_failed}
use tr181_xpon.DataModel.Add.Exact.{all_actions, attempt, rth_after, add_instance_applies}
use tr181_xpon.Tests.Strings.{plain_strings}
use tr181_xpon.Tests.Fixtures.{
  Value, bool_value, uint32_value, cstring_value, no_entries, entry, values, objects_only, env,
  world,
}
use tr181_xpon.DmInfo.{object_info}
use tr181_xpon.DataModel.Args.{process_remove_instance_args}
use tr181_xpon.DataModel.Remove.{delete_instance}
use tr181_xpon.DataModel.Reads.{dm_does_instance_exist}
use tr181_xpon.DataModel.Reset.{reset_path, dm_omci_reset_mib}
use tr181_xpon.DataModel.Reset.Frame.{OnlyStore, is_indexed, dm_omci_reset_mib-OnlyStore}
use tr181_xpon.DataModel.Reset.Cut.{reset_path_lem}
use tr181_xpon.DataModel.Existence.Add.{
  dm_add_instance-Exists, dm_add_or_change_instance_impl-Exists,
}
use tr181_xpon.DataModel.Existence.Remove.{dm_remove_instance-Gone}
use tr181_xpon.DataModel.Existence.Change.{SameObjects, dm_change_object-SameObjects}
use tr181_xpon.Base.{◌++◌, ltb, ◌/◌, arith}
use tr181_xpon.DataModel.Add.{dm_add_or_change_instance_impl}
use tr181_xpon.DataModel.Args.{add_or_change_inst_args_required}
use tr181_xpon.Tests.Stores.{objects_only-AppliesActions}
use tr181_xpon.Tests.Model.{remove_args}

abbrev params : Value
params =
    entry (codes "Name") (cstring_value (codes "ani0"))
      (entry (codes "Other") (bool_value true) no_entries)

-- The arguments for adding an ANI with an index.
abbrev add_args : ℕ → Value
add_args index = entry (codes "path") (cstring_value (codes "XPON.ONU.1.ANI")) (
    entry (codes "index") (uint32_value index) (
      entry (codes "keys") (entry (codes "Name") (cstring_value (codes "ani")) no_entries)
        (entry (codes "parameters") params no_entries)))

abbrev add_action : ℕ → ActionInfo Value
add_action index = record {
  path = codes "XPON.ONU.1.ANI";
  index = index;
  obj_id = ani;
  key_value = some (cstring_value (codes "ani"));
  params = some params;
}

add_args_read :
    process_add_instance_args plain_strings values (some (add_args 1)) ≡ some (add_action 1)
unfolding process_add_instance_args process_args_common process_htable find_key_value check_required
    get_ref_to_params dm_get_object_id dm_get_object_info dm_convert_to_generic_path
    find_generic_path plain_strings
add_args_read = refl

existing_fails : (dm_add_instance env (some (add_args 1)) world).0 ≡ false
unfolding dm_add_instance add_instance prepare_adding_instance percent_d dm_get_object_info
existing_fails = rw (add_args_read, dm_add_instance) refl

dm_add_instance_failed_example :
    SameButRth env world (dm_add_instance env (some (add_args 1)) world).1
dm_add_instance_failed_example = dm_add_instance_failed env world (some (add_args 1)) existing_fails

-- Arguments without a path.
abbrev change_args : Value
change_args = entry (codes "index") (uint32_value 1) no_entries

change_fails : (dm_change_object env (some change_args) world).0 ≡ false
unfolding dm_change_object process_args_common process_htable check_required
change_fails = refl

dm_change_object_failed_example :
    let w' = (dm_change_object env (some change_args) world).1 in
    (w'.store ≡ world.store)
    × (w'.disk ≡ world.disk)
    × (w'.s_ignore_param_reads ≡ false)
    × (w'.calls ≡ [])
dm_change_object_failed_example = dm_change_object_failed env world (some change_args) change_fails

add_args_read_2 :
    process_add_instance_args plain_strings values (some (add_args 2)) ≡ some (add_action 2)
unfolding process_add_instance_args process_args_common process_htable find_key_value check_required
    get_ref_to_params dm_get_object_id dm_get_object_info dm_convert_to_generic_path
    find_generic_path plain_strings
add_args_read_2 = refl

new_succeeds : (dm_add_instance env (some (add_args 2)) world).0 ≡ true
unfolding dm_add_instance add_instance apply_adding begin_adding prepare_adding_instance percent_d
    dm_get_object_info
new_succeeds = rw (add_args_read_2, dm_add_instance) refl

dm_add_instance-Exists_example :
    (info : ActionInfo Value) × (process_add_instance_args plain_strings values (some (add_args 2))
      ≡ some info)
    × (dm_does_instance_exist objects_only world.store info.path info.index ≡ false)
    × (dm_does_instance_exist objects_only
          (dm_add_instance env (some (add_args 2)) world).1.store
          info.path
          info.index
        ≡ true)
dm_add_instance-Exists_example =
    dm_add_instance-Exists env objects_only-AppliesActions (some (add_args 2)) world new_succeeds

or_change_succeeds : (dm_add_or_change_instance_impl env (some (add_args 2)) world).0 ≡ true
unfolding dm_add_or_change_instance_impl dm_does_instance_exist process_args_common process_htable
    check_required dm_get_object_id dm_convert_to_generic_path find_generic_path plain_strings
    percent_d object_info
or_change_succeeds = new_succeeds

dm_add_or_change_instance_impl-Exists_example :
    (info : ActionInfo Value) × (process_args_common plain_strings values
        (some (add_args 2))
        add_or_change_inst_args_required
      ≡ some info)
    × (dm_does_instance_exist objects_only
          (dm_add_or_change_instance_impl env (some (add_args 2)) world).1.store
          info.path
          info.index
        ≡ true)
dm_add_or_change_instance_impl-Exists_example =
    dm_add_or_change_instance_impl-Exists env objects_only-AppliesActions (add_args 2) world
      or_change_succeeds

remove_succeeds : (dm_remove_instance env (some remove_args) world).0 ≡ true
unfolding dm_remove_instance remove_instance delete_instance process_args_common process_htable
    check_required dm_get_object_id dm_convert_to_generic_path find_generic_path plain_strings
    percent_d object_info
remove_succeeds = refl

dm_remove_instance-Gone_example :
    let w' = (dm_remove_instance env (some remove_args) world).1 in
    (info : ActionInfo Value) × (process_remove_instance_args plain_strings values
        (some remove_args)
      ≡ some info)
    × (dm_does_instance_exist objects_only w'.store info.path info.index ≡ false)
    × (dm_remove_instance env (some remove_args) w' ≡ (true, w'))
dm_remove_instance-Gone_example =
    dm_remove_instance-Gone env objects_only-AppliesActions (some remove_args) world remove_succeeds

dm_change_object-SameObjects_example :
    SameObjects env objects_only-AppliesActions world
      (dm_change_object env (some remove_args) world).1
dm_change_object-SameObjects_example =
    dm_change_object-SameObjects env objects_only-AppliesActions (some remove_args) world

abbrev reset_args : Value
reset_args = entry (codes "index") (uint32_value 1) no_entries

dm_omci_reset_mib-OnlyStore_example :
    let (ok, w') = dm_omci_reset_mib env (some reset_args) world in
    OnlyStore env world w'
    × (ok ≡ is_indexed env (some reset_args))
    × (if is_indexed env (some reset_args) then Unit else w' ≡ world)
dm_omci_reset_mib-OnlyStore_example = dm_omci_reset_mib-OnlyStore env (some reset_args) world

reset_path_lem_example :
    reset_path 1234567
    ≡ codes "XPON.ONU." ++ percent_d (if ltb 1234567 1000000 then 1234567 else 1234567 / 10)
reset_path_lem_example = reset_path_lem 1234567 (omega arith)

abbrev ani_entry : ObjectInfo
ani_entry = record {
  id = ani;
  name = codes "ANI";
  generic_path = codes "XPON.ONU.x.ANI";
  key_name = some (codes "Name");
  key_max_value = 0;
  singletons = some (codes "TC.ONUActivation,TC.PerformanceThresholds,TC.Alarms");
  templates = some (codes "TC.GEM.Port,Transceiver");
  params = ani_params;
  has_rw_enable = true;
}

ani_is_found : dm_get_object_info ani ≡ some ani_entry
unfolding dm_get_object_info
ani_is_found = refl

ani_prepared :
    prepare_adding_instance env (codes "XPON.ONU.1.ANI") 2 world.store
    ≡ some (codes "XPON.ONU.1.ANI")
unfolding prepare_adding_instance percent_d
ani_prepared = refl

add_instance_applies_example :
    add_instance env (add_action 2) world
    ≡ attempt env world
        (λ t a. refl)
        ani_entry
        (add_action 2)
        (record {
          object = codes "XPON.ONU.1.ANI";
          actions =
              all_actions env world ani_entry
                (add_action 2)
                (codes "Name")
                (cstring_value (codes "ani"));
        })
        (rth_after env world (λ t a. refl) ani_entry (add_action 2))
add_instance_applies_example =
    add_instance_applies env world (λ t a. refl) ani_entry (add_action 2) (codes "XPON.ONU.1.ANI")
      (codes "Name") (cstring_value (codes "ani")) ani_is_found ani_prepared refl refl refl
