-- ===== src/Tests/Asked.antt =====
-- A stand-in for libamxd that reads a parameter of each instance that it deletes, as
-- dm_actions.c says of it, at a concrete call.
use tr181_xpon.Base.{
  ◌≡◌, refl, Bool, true, false, none, some, List, [], ◌∷◌, ◌++◌, Text, codes, percent_d, text_eq,
  if◌then◌else◌,
}
use tr181_xpon.Amxd.{Amxd, Action, add_inst, del_inst, set_param}
use tr181_xpon.World.{Env, World}
use tr181_xpon.DataModel.Args.{process_args_common, process_htable, check_required}
use tr181_xpon.DmInfo.{dm_get_object_id, dm_convert_to_generic_path, find_generic_path, object_info}
use tr181_xpon.Tests.Strings.{plain_strings}
use tr181_xpon.DataModel.Remove.{delete_instance, remove_instance, dm_remove_instance}
use tr181_xpon.DataModel.Local.{Local}
use tr181_xpon.Tests.Fixtures.{
  Value, uint32_value, cstring_value, no_entries, entry, values, env, world, ani_1, instance_of,
}

-- The handler of RxPower is called for each instance that is deleted.
abbrev read_by : Text → List (Action Value) → List (Text × Text)
read_by object [] = []
read_by object (add_inst index ∷ rest) = read_by object rest
read_by object (del_inst index ∷ rest) =
    (instance_of object index, codes "RxPower") ∷ read_by object rest
read_by object (set_param name value ∷ rest) = read_by object rest

abbrev ports : Text
ports = ani_1 ++ codes ".TC.GEM.Port"

-- A GEM port has no such parameter.
abbrev asked_after : Bool → Text → List (Action Value) → List (Text × Text) → List (Text × Text)
asked_after ignore object actions before =
    if ignore
    then before
    else if text_eq object ports
    then before
    else read_by object actions ++ before

abbrev asking : Amxd values
asking = record {
  Store = List (Text × Text);
  find = λ s path. some path;
  is_template = λ s path. true;
  get_instance = λ s templ index. some (instance_of templ index);
  instances = λ s templ. [];
  get_index = λ path. 0;
  get_child = λ s object name. if text_eq name (codes "TC.GEM.Port") then some ports else none;
  get_param = λ s object name. none;
  put_param = λ s object name value. some s;
  can_select = λ s object. true;
  can_append = λ s t a. true;
  apply = λ ignore s t. some (asked_after ignore t.object t.actions s);
  asked = λ s. s;
}

abbrev asking_env : Env
asking_env = record env { amxd = asking }

abbrev unasked : World asking_env
unasked = record {
  store = [];
  privs = world.privs;
  rth = world.rth;
  disk = world.disk;
  s_ignore_param_reads = false;
  calls = [];
}

-- A transaction that deletes a transceiver asks, if reads are heard.
heard :
    asking.apply false []
      (record { object = ani_1 ++ codes ".Transceiver"; actions = del_inst 1 ∷ [] })
    ≡ some ((instance_of (ani_1 ++ codes ".Transceiver") 1, codes "RxPower") ∷ [])
heard = refl

abbrev transceiver_args : Value
transceiver_args =
    entry (codes "path") (cstring_value (ani_1 ++ codes ".Transceiver"))
      (entry (codes "index") (uint32_value 1) no_entries)

removed : (dm_remove_instance asking_env (some transceiver_args) unasked).0 ≡ true
unfolding dm_remove_instance remove_instance delete_instance process_args_common dm_get_object_id
    dm_convert_to_generic_path plain_strings find_generic_path object_info process_htable
    check_required percent_d
removed = refl
