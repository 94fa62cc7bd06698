-- ===== src/DmEvents/Defs.antt =====
-- dm_events.c, passwd_set_password of password.c, and handle_rth_tasks of restore_to_hal.c
-- together with the calls that it makes.
use tr181_xpon.Base.{
  ℕ, Bool, true, false, ◌&&◌, Option, none, some, List, [], ◌∷◌, Text, length, ◌==◌, if◌then◌else◌,
}
use tr181_xpon.DmInfo.{dm_get_object_id}
use tr181_xpon.Ani.{ani_strip_tc_authentication}
use tr181_xpon.Persistency.{persistency_enable}
use tr181_xpon.UpgradePersistency.{upgr_persistency_set_password}
use tr181_xpon.RestoreToHal.{Found, rth_schedule_enable, rth_disable, handle_rth_tasks}
use tr181_xpon.ObjectIntfPriv.{oipriv_attach_private_data, oipriv_update_last_change}
use tr181_xpon.World.{Env, World}
use tr181_xpon.PonCtrl.{Vendor, pon_ctrl_set_enable, pon_ctrl_set_password}
use tr181_xpon.DataModel.Reads.{
  dm_get_nr_of_ethernet_uni_instances, dm_get_nr_of_ani_instances, dm_is_hex_password,
}

-- What GETP_CHAR and GETP_BOOL read from the data of an event; none for NULL.
pub record EventData : Type 0 where
  pub path : Option Text
  pub enable_to : Bool
  pub password_to : Option Text

abbrev pub isdot : ℕ → Bool
isdot c = c == b'.'

module _ (E : Env) (vendor : Vendor E.variants) where
  -- The order of the calls is the code's.
  abbrev pub enable_changed : Text → Bool → Bool → World E → World E
  enable_changed path_no_dot enable onu w =
      let w1 =
        if enable && onu
        then record w { rth = rth_schedule_enable E.allocates path_no_dot w.rth }
        else pon_ctrl_set_enable E vendor path_no_dot enable w in
      let w2 = record w1 {
        disk = persistency_enable E.faults E.s_storage_dir path_no_dot enable w1.disk;
      } in
      if enable then w2 else record w2 { rth = rth_disable path_no_dot w2.rth }

  unfoldable pub onu_or_ani_enable_changed : EventData → Bool → World E → World E
  onu_or_ani_enable_changed event_data onu w = elim (event_data.path) [
    | none ↦ w
    | some path ↦ enable_changed (E.strings.trimr path isdot) event_data.enable_to onu w
  ]

  unfoldable pub onu_enable_changed : EventData → World E → World E
  unfolding onu_or_ani_enable_changed
  onu_enable_changed event_data w = onu_or_ani_enable_changed event_data true w

  unfoldable pub ani_enable_changed : EventData → World E → World E
  unfolding onu_or_ani_enable_changed
  ani_enable_changed event_data w = onu_or_ani_enable_changed event_data false w

  abbrev pub store_and_call : Text → Text → Bool → World E → World E
  store_and_call ani_path password is_hex w =
      pon_ctrl_set_password E vendor ani_path password is_hex (record w {
        disk =
            upgr_persistency_set_password E.faults E.s_upgr_storage_dir ani_path password is_hex
              w.disk;
      })

  -- An empty password is never hexadecimal.
  unfoldable pub passwd_set_password : Text → Text → World E → World E
  passwd_set_password ani_path password w =
      if length password == 0
      then store_and_call ani_path password false w
      else elim (dm_is_hex_password E.amxd w.store ani_path) [
        | none ↦ w
        | some is_hex ↦ store_and_call ani_path password is_hex w
      ]

  unfoldable pub password_changed : EventData → World E → World E
  unfolding passwd_set_password
  password_changed event_data w = elim (event_data.path) [
    | none ↦ w
    | some path ↦ elim (event_data.password_to) [
      | none ↦ w
      | some password ↦
          let (rv, ani_instance) =
            ani_strip_tc_authentication E.strings (E.strings.trimr path isdot) in
          if rv then passwd_set_password ani_instance password w else w
    ]
  ]

  -- What handle_rth_tasks finds out in the data model.
  abbrev pub found_at : E.amxd.Store → Text → Found
  found_at store path = record {
    id = dm_get_object_id E.strings path;
    n_ethernet_unis = dm_get_nr_of_ethernet_uni_instances E.amxd store path;
    n_anis = dm_get_nr_of_ani_instances E.amxd store path;
  }

  abbrev pub found_in : World E → Text → Found
  found_in w = found_at w.store

  unfoldable pub enable_each : List Text → World E → World E
  enable_each [] w = w
  enable_each (path ∷ paths) w = enable_each paths (pon_ctrl_set_enable E vendor path true w)

  -- A call does not change what the next task of the round finds.
  unfoldable pub rth_round : World E → World E
  unfolding enable_each
  rth_round w =
      let (rth, enabled) = handle_rth_tasks (found_in w) w.rth in
      enable_each enabled (record w { rth = rth })

-- The object is that of the event; the calls of oipriv_attach_private_data and of
-- oipriv_update_last_change are all that these two handlers do.
unfoldable pub interface_object_added : (E : Env) → Bool → Option ℕ → Text → ℕ → World E → World E
unfolding oipriv_attach_private_data
interface_object_added E allocated sysinfo obj index w =
    oipriv_attach_private_data E allocated sysinfo obj index w

unfoldable pub status_changed : (E : Env) → Option ℕ → Text → World E → World E
unfolding oipriv_update_last_change
status_changed E sysinfo obj w = oipriv_update_last_change E sysinfo obj w
