-- ===== src/UpgradePersistency/Defs.antt =====
-- The functions of upgrade_persistency.c.
use tr181_xpon.Base.{
  Bool, true, false, not, Option, none, some, ◌++◌, Text, codes, length, snprintf, ◌==◌,
  if◌then◌else◌,
}
use tr181_xpon.Posix.{Disk, Faults, file_exists, unlink}
use tr181_xpon.FileUtils.{write_file, read_first_line_from_file}
use tr181_xpon.Persistency.{Folders, folder_text}
use tr181_xpon.Password.{max_password_len_plus_one}

abbrev pub upgr_storage_dir_overall : Text
upgr_storage_dir_overall = codes "/cfg/system/"

abbrev pub upgr_storage_dir_component : Text
upgr_storage_dir_component = codes "/cfg/system/tr181-xpon/"

unfoldable pub upgr_persistency_cleanup : Option Text → Option Text
upgr_persistency_cleanup s_upgr_storage_dir = none

-- The value of s_upgr_storage_dir afterwards, from what persistency_get_folder returns.
unfoldable pub upgr_persistency_init : Folders → Option Text → Option Text
upgr_persistency_init folders reboot_persistent =
    if folders.accessible upgr_storage_dir_overall
    then if folders.accessible upgr_storage_dir_component
      then some upgr_storage_dir_component
      else if folders.mkdir upgr_storage_dir_component
      then some upgr_storage_dir_component
      else none
    else elim reboot_persistent [
      | none ↦ none
      | some dir ↦ if folders.accessible dir then some dir else none
    ]

abbrev pub password_suffix : Bool → Text
password_suffix true = codes "_password_hex.txt"
password_suffix false = codes "_password_ascii.txt"

unfoldable pub create_password_file_path : Option Text → Text → Bool → Text
create_password_file_path s_upgr_storage_dir ani_object hex =
    (folder_text s_upgr_storage_dir ++ ani_object) ++ password_suffix hex

-- What the caller's buffers hold after upgr_persistency_get_password.
pub record Saved : Type 0 where
  pub rv : Bool
  pub password : Text
  pub hex : Bool

module _ (faults : Faults) (s_upgr_storage_dir : Option Text) where
  abbrev file_of : Text → Bool → Text
  file_of = create_password_file_path s_upgr_storage_dir

  store_password : Text → Text → Bool → Disk → Disk
  store_password ani_path password hex d =
      if length password == 0
      then unlink faults (file_of ani_path true) (unlink faults (file_of ani_path false) d)
      else unlink faults (file_of ani_path (not hex))
          (write_file faults (file_of ani_path hex) password d).1

  unfoldable pub upgr_persistency_set_password : Text → Text → Bool → Disk → Disk
  unfolding store_password
  upgr_persistency_set_password ani_path password hex d = elim s_upgr_storage_dir [
    | none ↦ d
    | some dir ↦ store_password ani_path password hex d
  ]

  -- The part after the loop, for a file that was found; hex is the flag by then.
  abbrev take_saved : Option Text → Text → Bool → Bool → Saved
  take_saved none password hex hex' = record { rv = false; password = password; hex = hex }
  take_saved (some saved) password hex hex' =
      if length saved == 0
      then record { rv = false; password = password; hex = hex' }
      else record { rv = true; password = snprintf max_password_len_plus_one saved; hex = hex' }

  -- The file with index 0 is looked for first; a flag for hex is only ever set.
  unfoldable pub upgr_persistency_get_password : Text → Text → Bool → Disk → Saved
  upgr_persistency_get_password ani_path password hex d =
      if file_exists d (file_of ani_path false)
      then take_saved
          (read_first_line_from_file faults (file_of ani_path false) max_password_len_plus_one d)
          password hex hex
      else if file_exists d (file_of ani_path true)
      then take_saved
          (read_first_line_from_file faults (file_of ani_path true) max_password_len_plus_one d)
          password hex true
      else record { rv = true; password = password; hex = hex }
