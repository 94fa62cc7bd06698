-- ===== src/Tests/Events.antt =====
-- Events and actions at concrete inputs.
use tr181_xpon.Base.{
  ◌≡◌, refl, Bool, true, false, none, some, [], ◌∷◌, ◌++◌, percent_d, arith, Text, codes,
  if◌then◌else◌,
}
use tr181_xpon.Ani.{ani_append_tc_authentication}
use tr181_xpon.DataModel.Reads.{dm_is_hex_password, dm_get_ani_pon_mode}
use tr181_xpon.DataModel.Change.{update_password_in_dm, passwd_restore_password}
use tr181_xpon.DmActions.{
  status_ok, unknown_error, invalid_value, action_param_read, action_param_validate,
  action_object_destroy, lastchange_on_read, interface_object_destroyed, read_trx_param,
  check_password,
}
use tr181_xpon.DmActions.LastChange.{destroyed_once}
use tr181_xpon.DmActions.Reading.{read_trx_param_asks, check_password_lem}
use tr181_xpon.DmEvents.{EventData, onu_or_ani_enable_changed, password_changed}
use tr181_xpon.DmEvents.Enable.{StaysDisabled, disabled-StaysDisabled}
use tr181_xpon.DmEvents.Reached.{IsReached, enabled_onu-IsReached}
use tr181_xpon.DmEvents.Password.{password_survives}
use tr181_xpon.Password.{passwd_check_password, check_hex_digits, check_length}
use tr181_xpon.PonMode.{pon_mode_of_text}
use tr181_xpon.RestoreToHal.{rth_init}
use tr181_xpon.RestoreToHal.Reach.{run-IsValid}
use tr181_xpon.World.{World, object_intf_priv, get_param_values}
use tr181_xpon.ObjectIntfPriv.{oipriv_attach_private_data}
use tr181_xpon.Tests.Strings.{plain_strings-IsLawful}
use tr181_xpon.Tests.Fixtures.{
  bool_value, objects_only, no_faults-IsReliable, folder, env, onu_1, ani_1, world, vendor,
}

abbrev pub onu_event : Bool → EventData
onu_event enable = record {
  path = some (onu_1 ++ codes ".");
  enable_to = enable;
  password_to = none;
}

disabled-StaysDisabled_example :
    StaysDisabled env vendor onu_1
      (onu_or_ani_enable_changed env vendor (onu_event false) true world)
disabled-StaysDisabled_example =
    disabled-StaysDisabled env vendor plain_strings-IsLawful refl folder refl (codes "XPON.ONU.")
      b'1' refl refl (onu_event false) true world refl refl (run-IsValid true [])

enabled_onu-IsReached_example :
    IsReached env vendor onu_1 (onu_or_ani_enable_changed env vendor (onu_event true) true world)
unfolding rth_init
enabled_onu-IsReached_example =
    enabled_onu-IsReached env vendor plain_strings-IsLawful refl refl (codes "XPON.ONU.") b'1' refl
      (onu_event true) world refl refl (run-IsValid true []) (λ e. cc e) refl

abbrev pub secret : Text
secret = codes "0a1b2c3d4e5f60718293"

abbrev pub password_event : EventData
password_event = record {
  path = some (ani_append_tc_authentication ani_1 ++ codes ".");
  enable_to = false;
  password_to = some secret;
}

secret_hex : dm_is_hex_password objects_only world.store ani_1 ≡ some true
unfolding dm_is_hex_password ani_append_tc_authentication
secret_hex = refl

secret_accepted : passwd_check_password objects_only world.store ani_1 secret ≡ true
unfolding passwd_check_password dm_is_hex_password dm_get_ani_pon_mode check_hex_digits check_length
    pon_mode_of_text ani_append_tc_authentication
secret_accepted = refl

abbrev later : World env
later = record world {
  disk = (password_changed env vendor password_event world).disk;
  store = ani_1 ∷ [];
}

password_survives_example :
    passwd_restore_password env ani_1 later ≡ update_password_in_dm env ani_1 secret true later
password_survives_example =
    password_survives env vendor plain_strings-IsLawful no_faults-IsReliable folder refl ani_1
      secret refl (omega arith) password_event world later refl refl secret_hex secret_accepted refl

abbrev attached : World env
attached = oipriv_attach_private_data env true (some 10) (codes "XPON.ONU.1.ANI") 1 world

ani_is_instance : objects_only.get_instance world.store (codes "XPON.ONU.1.ANI") 1 ≡ some ani_1
unfolding percent_d
ani_is_instance = refl

-- An ANI whose status changed last after 10 seconds.
abbrev changed : World env
changed = record world { privs = λ object. some (object_intf_priv 10) }

destroyed_once_example :
    let (status, w') = interface_object_destroyed env vendor ani_1 action_object_destroy changed in
    (status ≡ status_ok)
    × (interface_object_destroyed env vendor ani_1 action_object_destroy w' ≡ (unknown_error, w'))
    × (lastchange_on_read env vendor action_param_read (some 30) ani_1 w' ≡ (unknown_error, some 0))
destroyed_once_example = destroyed_once env vendor ani_1 10 (some 30) changed refl

read_trx_param_asks_example :
    let (result, w') =
      read_trx_param env vendor (status_ok, bool_value true) ani_1 (codes "RxPower") world in
    (w'.calls ≡ get_param_values ani_1 (codes "RxPower") ∷ [])
    × (result.0 ≡ status_ok)
    × (w'.store ≡ world.store)
read_trx_param_asks_example =
    read_trx_param_asks env vendor (status_ok, bool_value true) ani_1 (codes "RxPower") world

check_password_lem_example :
    check_password env vendor
      (ani_append_tc_authentication ani_1)
      action_param_validate
      (some secret)
      world
    ≡ (if passwd_check_password objects_only world.store ani_1 secret
        then status_ok
        else invalid_value)
check_password_lem_example =
    check_password_lem env vendor plain_strings-IsLawful ani_1 secret world refl
