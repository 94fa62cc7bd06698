-- ===== src/Tests/Files.antt =====
-- Files, passwords, paths and the tasks of restore_to_hal.c at concrete inputs.
use tr181_xpon.Base.{
  ◌≡◌, refl, ◌≢◌, ◌↔◌, ◌⊎◌, true, false, none, some, List, [], ◌∷◌, ◌++◌, arith, Text, codes,
  text_eq, if◌then◌else◌,
}
use tr181_xpon.DmInfo.{
  ObjectInfo, onu, ani, dm_get_object_id, dm_get_object_info, dm_convert_to_generic_path,
  onu_params,
}
use tr181_xpon.DmInfo.Paths.{dm_get_object_id_iff}
use tr181_xpon.DmInfo.Instances.{name, index, end, dm_get_object_id-Instantiates}
use tr181_xpon.FileUtils.{write_file, tmpfile_of}
use tr181_xpon.FileUtils.Laws.{write_file_atomic, write_file-true}
use tr181_xpon.Persistency.{persistency_enable, persistency_is_enabled}
use tr181_xpon.Persistency.Laws.{is_enabled-enable}
use tr181_xpon.UpgradePersistency.{
  upgr_persistency_set_password, upgr_persistency_get_password, create_password_file_path,
}
use tr181_xpon.UpgradePersistency.RoundTrip.{IsStorable, get-set}
use tr181_xpon.Password.{passwd_check_password}
use tr181_xpon.Password.Rules.{IsAcceptable, passwd_check_password_iff}
use tr181_xpon.RestoreToHal.{RthTask, Found, Rth, started, rth_init, rth_schedule_enable}
use tr181_xpon.RestoreToHal.Invariant.{Absent}
use tr181_xpon.RestoreToHal.Reach.{
  Event, schedule, disable, fire, run, rth_disable_removes, schedule_drops_prefix,
}
use tr181_xpon.Settings.Frame.{cleared, stored}
use tr181_xpon.Settings.Refinement.{Op, enable, save, view, perform, replay, perform_refines}
use tr181_xpon.Tests.Strings.{plain_strings, plain_strings-IsLawful}
use tr181_xpon.Tests.Fixtures.{
  objects_only, no_faults, no_faults-IsReliable, folder, onu_1, ani_1, empty_disk, world,
}

abbrev secret : Text
secret = codes "0a1b"

secret-IsStorable : IsStorable secret
secret-IsStorable = record { not_empty = omega arith; fits = omega arith; plain = refl }

get-set_example :
    let d' = upgr_persistency_set_password no_faults (some folder) ani_1 secret true empty_disk in
    (upgr_persistency_get_password no_faults (some folder) ani_1 [] false d'
      ≡ record { rv = true; password = secret; hex = true })
    × (d' (create_password_file_path (some folder) ani_1 false) ≡ none)
get-set_example =
    get-set folder ani_1 no_faults no_faults-IsReliable empty_disk secret [] true (omega arith)
      secret-IsStorable

abbrev elsewhere : Text
elsewhere = codes "/tmp/x"

is_enabled-enable_example :
    persistency_is_enabled
      (some folder)
      onu_1
      (persistency_enable no_faults (some folder) onu_1 true empty_disk)
    ≡ (if text_eq onu_1 onu_1 then true else persistency_is_enabled (some folder) onu_1 empty_disk)
is_enabled-enable_example = is_enabled-enable no_faults empty_disk folder onu_1 onu_1 true refl refl

write_file_atomic_example :
    let (rv, d') = write_file no_faults elsewhere secret empty_disk in
    (((d' elsewhere ≡ none) × (rv ≡ false)) ⊎ (d' elsewhere ≡ some secret))
    × ((q : Text) → tmpfile_of elsewhere ≢ q → elsewhere ≢ q → d' q ≡ none)
write_file_atomic_example =
    write_file_atomic no_faults elsewhere secret empty_disk (omega arith) (omega arith) refl

write_file-true_example : (write_file no_faults elsewhere secret empty_disk).0 ≡ true
write_file-true_example =
    write_file-true no_faults elsewhere secret empty_disk (omega arith) refl refl refl refl

abbrev the_onu : Found
the_onu = record { id = onu; n_ethernet_unis = 0; n_anis = 0 }

abbrev still_bare : Text → Found
still_bare path = the_onu

abbrev two_tasks : List RthTask
two_tasks = record { path = onu_1; cntr = 0 } ∷ record { path = ani_1; cntr = 3 } ∷ []

abbrev six_rounds : List (Text → Found)
six_rounds = still_bare ∷ still_bare ∷ still_bare ∷ still_bare ∷ still_bare ∷ still_bare ∷ []

abbrev some_events : List Event
some_events = schedule true onu_1 ∷ schedule true ani_1 ∷ fire still_bare ∷ []

rth_disable_removes_example :
    Absent onu_1 (run (rth_init true) (some_events ++ (disable onu_1 ∷ []))).tasks
rth_disable_removes_example = rth_disable_removes true some_events onu_1

abbrev waiting_for_ani : Rth
waiting_for_ani = record { tasks = record { path = ani_1; cntr = 0 } ∷ []; timer = started 100 }

schedule_drops_prefix_example : rth_schedule_enable true onu_1 waiting_for_ani ≡ waiting_for_ani
schedule_drops_prefix_example =
    schedule_drops_prefix true onu_1 (codes ".ANI.1") 0 [] [] (started 100)

dm_get_object_id-Instantiates_example :
    (dm_get_object_id plain_strings (codes "XPON.ONU.12.ANI") ≡ ani)
    × (dm_get_object_id plain_strings (codes "XPON.ONU.12.ANI.1") ≡ ani)
dm_get_object_id-Instantiates_example =
    dm_get_object_id-Instantiates plain_strings plain_strings-IsLawful ani
      (codes "XPON" ∷ codes "ONU" ∷ codes "12" ∷ []) (codes "1") (λ e. cc e)
      (name (codes "XPON") refl (name (codes "ONU") refl (index (codes "12") refl end))) refl

-- The entry of OBJECT_INFO for an ONU.
abbrev onu_entry : ObjectInfo
onu_entry = record {
  id = onu;
  name = codes "ONU";
  generic_path = codes "XPON.ONU";
  key_name = some (codes "Name");
  key_max_value = 0;
  singletons = none;
  templates = some (codes "SoftwareImage,EthernetUNI,ANI");
  params = onu_params;
  has_rw_enable = true;
}

onu_is_found : dm_get_object_info onu ≡ some onu_entry
unfolding dm_get_object_info
onu_is_found = refl

dm_get_object_id_iff_example :
    (dm_get_object_id plain_strings onu_1 ≡ onu)
    ↔ (dm_convert_to_generic_path plain_strings onu_1 ≡ some (codes "XPON.ONU"))
dm_get_object_id_iff_example = dm_get_object_id_iff plain_strings onu onu_entry onu_1 onu_is_found

passwd_check_password_iff_example :
    (passwd_check_password objects_only world.store ani_1 secret ≡ true)
    ↔ IsAcceptable objects_only world.store ani_1 secret
passwd_check_password_iff_example = passwd_check_password_iff objects_only world.store ani_1 secret

abbrev operations : List Op
operations =
    enable onu_1 true ∷ save ani_1 secret true ∷ enable onu_1 false ∷ save ani_1 [] false ∷ []

perform_refines_example :
    view no_faults folder folder (perform no_faults folder folder operations empty_disk)
    ≡ replay operations (view no_faults folder folder empty_disk)
perform_refines_example =
    perform_refines no_faults folder folder no_faults-IsReliable operations empty_disk
      (omega arith, stored secret secret-IsStorable, (omega arith, cleared, tt))
