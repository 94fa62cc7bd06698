-- ===== src/Password/Storage.antt =====
-- password.c and upgrade_persistency.c together: an accepted hex password survives an upgrade,
-- and passwords do not disturb the files of persistency.c in the same folder.
use tr181_xpon.Base.{
  ◌≡◌, refl, ◌≢◌, sym, ◌∙◌, Bool, true, false, some, ◌++◌, arith, Text, codes, ends_ne,
}
use tr181_xpon.Amxc.{Variants}
use tr181_xpon.Amxd.{Amxd}
use tr181_xpon.Posix.{Disk, Faults, IsReliable}
use tr181_xpon.DataModel.Reads.{dm_is_hex_password}
use tr181_xpon.Persistency.{persistency_is_enabled, create_enabled_file_path, enabled_suffix}
use tr181_xpon.Password.Check.{passwd_check_password}
use tr181_xpon.Password.Rules.{accepted_fits, accepted_hex_plain, accepted_hex_not_empty}
use tr181_xpon.UpgradePersistency.{
  upgr_persistency_set_password, upgr_persistency_get_password, create_password_file_path,
  password_suffix,
}
use tr181_xpon.UpgradePersistency.RoundTrip.{
  IsStorable, IsShort, get-set, set_other, tmpfile_password_whole,
}

module _ (faults : Faults) (d : Disk) (dir ani_path password : Text) where
  -- If no call fails, a password that passwd_check_password accepts for an ANI whose passwords
  -- are in hex is read back from the folder as it was saved, with the flag for hex set.
  pub accepted_hex_survives :
      {V : Variants} (A : Amxd V) (s : A.Store) (buffer : Text)
      → IsReliable faults
      → IsShort dir ani_path
      → passwd_check_password A s ani_path password ≡ true
      → dm_is_hex_password A s ani_path ≡ some true
      → upgr_persistency_get_password faults
          (some dir)
          ani_path
          buffer
          false
          (upgr_persistency_set_password faults (some dir) ani_path password true d)
        ≡ record { rv = true; password = password; hex = true }
  accepted_hex_survives A s buffer r short h e =
      (get-set dir ani_path faults r d password buffer true short (record {
        not_empty = accepted_hex_not_empty A s ani_path password h e;
        fits = omega (arith, accepted_fits A s ani_path password h);
        plain = accepted_hex_plain A s ani_path password h e;
      })).0

  enabled_ne_password :
      (hex : Bool) (object : Text)
      → create_password_file_path (some dir) ani_path hex
        ≢ create_enabled_file_path (some dir) object
  unfolding create_password_file_path create_enabled_file_path
  enabled_ne_password true object =
      ends_ne (dir ++ ani_path) (password_suffix true) (dir ++ object) enabled_suffix refl
  enabled_ne_password false object =
      ends_ne (dir ++ ani_path) (password_suffix false) (dir ++ object) enabled_suffix refl

  enabled_ne_tmpfile :
      (path object : Text) → path ++ codes ".tmp" ≢ create_enabled_file_path (some dir) object
  unfolding create_enabled_file_path
  enabled_ne_tmpfile path object = ends_ne path (codes ".tmp") (dir ++ object) enabled_suffix refl

  -- Saving a password, whatever fails, changes for no object whether it is enabled, also if both
  -- parts use the same folder.
  is_enabled-set_password :
      (hex : Bool) (object : Text)
      → IsShort dir ani_path
      → IsStorable password
      → persistency_is_enabled
          (some dir)
          object
          (upgr_persistency_set_password faults (some dir) ani_path password hex d)
        ≡ persistency_is_enabled (some dir) object d
  unfolding persistency_is_enabled
  is_enabled-set_password hex object short ok = ground (
    arith,
    set_other dir ani_path faults d password hex (create_enabled_file_path (some dir) object)
        (λ f. enabled_ne_password f object)
        (λ e.
          enabled_ne_tmpfile (create_password_file_path (some dir) ani_path hex) object
            (sym (tmpfile_password_whole dir ani_path hex short) ∙ e))
        short ok,
  )
