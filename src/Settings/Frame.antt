-- ===== src/Settings/Frame.antt =====
-- Which files the two parts leave alone, also if both use the same folder.
use tr181_xpon.Base.{
  ◌≡◌, refl, ◌≢◌, sym, ◌∙◌, Bool, true, false, some, [], ◌++◌, arith, Text, codes, ends_ne,
  append-left_cancel, append-right_cancel,
}
use tr181_xpon.Posix.{Disk, Faults, unlink}
use tr181_xpon.FileUtils.{read_first_line_from_file}
use tr181_xpon.Persistency.{create_enabled_file_path, enabled_suffix}
use tr181_xpon.Persistency.Laws.{unlink_other}
use tr181_xpon.UpgradePersistency.{
  password_suffix, create_password_file_path, upgr_persistency_set_password,
  upgr_persistency_get_password,
}
use tr181_xpon.UpgradePersistency.RoundTrip.{IsStorable, IsShort, set_other, tmpfile_password_whole}

-- The file of an enabled object is no file of a password.
pub password-ne-enabled :
    (dir other ani_path object : Text) (hex : Bool)
    → create_password_file_path (some dir) ani_path hex
      ≢ create_enabled_file_path (some other) object
unfolding create_password_file_path create_enabled_file_path
password-ne-enabled dir other ani_path object true =
    ends_ne (dir ++ ani_path) (password_suffix true) (other ++ object) enabled_suffix refl
password-ne-enabled dir other ani_path object false =
    ends_ne (dir ++ ani_path) (password_suffix false) (other ++ object) enabled_suffix refl

tmp-ne-enabled :
    (path other object : Text) → path ++ codes ".tmp" ≢ create_enabled_file_path (some other) object
unfolding create_enabled_file_path
tmp-ne-enabled path other object = ends_ne path (codes ".tmp") (other ++ object) enabled_suffix refl

tmp-ne-password :
    (path dir ani_path : Text) (hex : Bool)
    → path ++ codes ".tmp" ≢ create_password_file_path (some dir) ani_path hex
unfolding create_password_file_path
tmp-ne-password path dir ani_path true =
    ends_ne path (codes ".tmp") (dir ++ ani_path) (password_suffix true) refl
tmp-ne-password path dir ani_path false =
    ends_ne path (codes ".tmp") (dir ++ ani_path) (password_suffix false) refl

-- Different ANIs have different files.
password_file_ne :
    (dir a b : Text) (f g : Bool)
    → a ≢ b
    → create_password_file_path (some dir) a f ≢ create_password_file_path (some dir) b g
unfolding create_password_file_path
password_file_ne dir a b true true h e = h (
    append-left_cancel dir a b (append-right_cancel (dir ++ a) (dir ++ b) (password_suffix true) e))
password_file_ne dir a b false false h e = h (
    append-left_cancel dir a b
      (append-right_cancel (dir ++ a) (dir ++ b) (password_suffix false) e))
password_file_ne dir a b true false h e =
    ends_ne (dir ++ a) (password_suffix true) (dir ++ b) (password_suffix false) refl e
password_file_ne dir a b false true h e =
    ends_ne (dir ++ a) (password_suffix false) (dir ++ b) (password_suffix true) refl e

-- A password that is empty, or that both functions handle in full.
pub data IsSavable : Text → Type 0 where
  cleared : IsSavable []
  stored : (password : Text) → IsStorable password → IsSavable password

module _ (faults : Faults) (dir ani_path : Text) (short : IsShort dir ani_path) (d : Disk) where
  set_frame :
      (password : Text) (hex : Bool) (q : Text)
      → IsSavable password
      → ((f : Bool) → create_password_file_path (some dir) ani_path f ≢ q)
      → ((path : Text) → path ++ codes ".tmp" ≢ q)
      → upgr_persistency_set_password faults (some dir) ani_path password hex d q ≡ d q
  unfolding upgr_persistency_set_password
  set_frame password hex q cleared others tmp =
      unlink_other faults (unlink faults (create_password_file_path (some dir) ani_path false) d)
        (create_password_file_path (some dir) ani_path true) q (others true)
      ∙ unlink_other faults d (create_password_file_path (some dir) ani_path false) q (others false)
  set_frame password hex q (stored p ok) others tmp =
      set_other dir ani_path faults d p hex q others
        (λ e.
          tmp (create_password_file_path (some dir) ani_path hex)
            (sym (tmpfile_password_whole dir ani_path hex short) ∙ e))
        short ok

  -- Saving a password changes no file of an enabled object.
  pub set-enabled :
      (other object password : Text) (hex : Bool)
      → IsSavable password
      → upgr_persistency_set_password faults
          (some dir)
          ani_path
          password
          hex
          d
          (create_enabled_file_path (some other) object)
        ≡ d (create_enabled_file_path (some other) object)
  set-enabled other object password hex ok =
      set_frame password hex (create_enabled_file_path (some other) object) ok
        (λ f. password-ne-enabled dir other ani_path object f) (λ p. tmp-ne-enabled p other object)

  -- Saving a password changes no file of another ANI.
  pub set-password :
      (b password : Text) (hex f : Bool)
      → ani_path ≢ b
      → IsSavable password
      → upgr_persistency_set_password faults
          (some dir)
          ani_path
          password
          hex
          d
          (create_password_file_path (some dir) b f)
        ≡ d (create_password_file_path (some dir) b f)
  set-password b password hex f differ ok =
      set_frame password hex (create_password_file_path (some dir) b f) ok
        (λ g. password_file_ne dir ani_path b g f differ) (λ p. tmp-ne-password p dir b f)

-- The password of an ANI depends on its two files alone.
pub get_password_local :
    (faults : Faults) (dir ani_path buffer : Text) (d d' : Disk)
    → ((f : Bool)
        → d' (create_password_file_path (some dir) ani_path f)
          ≡ d (create_password_file_path (some dir) ani_path f))
    → upgr_persistency_get_password faults (some dir) ani_path buffer false d'
      ≡ upgr_persistency_get_password faults (some dir) ani_path buffer false d
unfolding upgr_persistency_get_password read_first_line_from_file
get_password_local faults dir ani_path buffer d d' same = ground (arith, same true, same false)
