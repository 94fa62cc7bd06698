-- ===== src/Persistency.antt =====
-- persistency.c: which objects are enabled, as empty files in a folder that survives a reboot.
pub mod Laws
use tr181_xpon.Base.{
  Bool, true, false, Option, none, some, List, [], ◌∷◌, ◌++◌, Text, codes, if◌then◌else◌,
}
use tr181_xpon.Posix.{Disk, update, Faults, file_exists, unlink}

-- Whether access(dir, R_OK | W_OK | X_OK) and mkdir(dir, 0777) succeed.
pub record Folders : Type 0 where
  pub accessible : Text → Bool
  pub mkdir : Text → Bool

abbrev pub storage_dir : Text
storage_dir = codes "/etc/config/tr181-xpon/"

abbrev pub get_or_default : Option Text → Text
get_or_default none = storage_dir
get_or_default (some dir) = dir

-- The first argument is amxc_string_resolve with the parser's configuration; the second is the
-- value of storage-path in it, none for no parser.
unfoldable pub get_storage_dir : (Text → Text) → Option (Option Text) → Option Text
get_storage_dir resolve none = none
get_storage_dir resolve (some none) = none
get_storage_dir resolve (some (some dir)) = some (resolve dir)

-- The value of s_storage_dir afterwards, from what get_storage_dir returns.
unfoldable pub persistency_init : Folders → Option Text → Option Text
persistency_init folders dir =
    let chosen = get_or_default dir in
    if folders.accessible chosen
    then some chosen
    else if folders.mkdir chosen
    then some chosen
    else none

unfoldable pub persistency_cleanup : Option Text → Option Text
persistency_cleanup s_storage_dir = none

abbrev pub persistency_get_folder : Option Text → Option Text
persistency_get_folder s_storage_dir = s_storage_dir

abbrev pub enabled_suffix : Text
enabled_suffix = codes "_enabled.txt"

-- A string that was just initialised and is set to NULL is empty.
abbrev pub folder_text : Option Text → Text
folder_text none = []
folder_text (some dir) = dir

unfoldable pub create_enabled_file_path : Option Text → Text → Text
create_enabled_file_path s_storage_dir object =
    (folder_text s_storage_dir ++ object) ++ enabled_suffix

module _ (faults : Faults) where
  unfoldable pub touch_file : Text → Disk → Disk
  touch_file file d =
      if file_exists d file
      then d
      else if faults.fopen_write file
      then update d file (some [])
      else d

  unfoldable pub persistency_enable : Option Text → Text → Bool → Disk → Disk
  persistency_enable none object enable d = d
  persistency_enable (some dir) object enable d =
      if enable
      then touch_file (create_enabled_file_path (some dir) object) d
      else unlink faults (create_enabled_file_path (some dir) object) d

unfoldable pub persistency_is_enabled : Option Text → Text → Disk → Bool
persistency_is_enabled none object d = false
persistency_is_enabled (some dir) object d =
    file_exists d (create_enabled_file_path (some dir) object)
