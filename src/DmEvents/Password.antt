-- ===== src/DmEvents/Password.antt =====
-- dm_events.c, password.c and upgrade_persistency.c: a password from its change to its return.
use tr181_xpon.Base.{
  ◌≡◌, refl, ◌∙◌, ap, sym, Bool, true, false, some, [], ◌∷◌, ◌++◌, arith, Text, codes, length, ◌<◌,
  if◌then◌else◌,
}
use mathlib.Core.List.{append_assoc}
use tr181_xpon.Amxc.{IsLawful}
use tr181_xpon.Ani.{
  has_no_t, ani_append_tc_authentication, ani_strip_tc_authentication, strip-append,
}
use tr181_xpon.Posix.{IsReliable}
use tr181_xpon.UpgradePersistency.{upgr_persistency_set_password, upgr_persistency_get_password}
use tr181_xpon.UpgradePersistency.RoundTrip.{IsShort}
use tr181_xpon.Password.{passwd_check_password}
use tr181_xpon.Password.Rules.{accepted_hex_not_empty}
use tr181_xpon.Password.Storage.{accepted_hex_survives}
use tr181_xpon.World.{Env, World}
use tr181_xpon.PonCtrl.{Vendor, pon_ctrl_set_password}
use tr181_xpon.DataModel.Reads.{dm_is_hex_password}
use tr181_xpon.DataModel.Change.{update_password_in_dm, passwd_restore_password}
use tr181_xpon.DmEvents.{EventData, isdot, passwd_set_password, password_changed, store_and_call}
use tr181_xpon.DmEvents.Enable.{trimmed}

module _ (E : Env) (vendor : Vendor E.variants) where
  path_trimmed :
      IsLawful E.strings
      → (ani_path : Text)
      → E.strings.trimr (ani_append_tc_authentication ani_path ++ (b'.' ∷ [])) isdot
        ≡ ani_append_tc_authentication ani_path
  unfolding ani_append_tc_authentication
  path_trimmed lawful ani_path =
      let split = append_assoc ani_path (codes ".TC.Authenticatio") (b'n' ∷ []) in
      ap (λ t. E.strings.trimr (t ++ (b'.' ∷ [])) isdot) (sym split)
      ∙ trimmed E.strings lawful (ani_path ++ codes ".TC.Authenticatio") b'n' refl
      ∙ split

  -- An event of the TC.Authentication object of an ANI reaches passwd_set_password with the
  -- path of the ANI.
  changed_lem :
      IsLawful E.strings
      → (ani_path password : Text) → has_no_t ani_path ≡ true
      → (event_data : EventData) (w : World E)
      → event_data.path ≡ some (ani_append_tc_authentication ani_path ++ (b'.' ∷ []))
      → event_data.password_to ≡ some password
      → password_changed E vendor event_data w ≡ passwd_set_password E vendor ani_path password w
  unfolding password_changed
  changed_lem lawful ani_path password no_t event_data w path new =
      rw (path, new, password_changed)
        (ap (λ r. if r.0 then passwd_set_password E vendor r.1 password w else w)
          (ap (ani_strip_tc_authentication E.strings) (path_trimmed lawful ani_path)
            ∙ strip-append E.strings lawful ani_path no_t))

  set_lem :
      (ani_path password : Text) (w : World E)
      → 0 < length password
      → dm_is_hex_password E.amxd w.store ani_path ≡ some true
      → passwd_set_password E vendor ani_path password w
        ≡ store_and_call E vendor ani_path password true w
  unfolding passwd_set_password
  set_lem ani_path password w h hex = ground arith

  disk_lem :
      (ani_path password : Text) (hex : Bool) (w : World E)
      → (store_and_call E vendor ani_path password hex w).disk
        ≡ upgr_persistency_set_password E.faults E.s_upgr_storage_dir ani_path password hex w.disk
  unfolding pon_ctrl_set_password
  disk_lem ani_path password hex w = ground arith

  restore_lem :
      (ani_path password : Text) (hex : Bool) (w : World E)
      → 0 < length password
      → upgr_persistency_get_password E.faults E.s_upgr_storage_dir ani_path [] false w.disk
        ≡ record { rv = true; password = password; hex = hex }
      → passwd_restore_password E ani_path w ≡ update_password_in_dm E ani_path password hex w
  unfolding passwd_restore_password
  restore_lem ani_path password hex w h e = rw e (ground arith)

  -- If no call fails, a password that _check_password accepts for an ANI with passwords in hex
  -- is saved when its change is signalled, and is what is written into the data model when the
  -- ANI is added again after an upgrade, whatever else has changed by then.
  pub password_survives :
      IsLawful E.strings
      → IsReliable E.faults
      → (dir : Text) → E.s_upgr_storage_dir ≡ some dir
      → (ani_path password : Text) → has_no_t ani_path ≡ true
      → IsShort dir ani_path
      → (event_data : EventData) (w later : World E)
      → event_data.path ≡ some (ani_append_tc_authentication ani_path ++ (b'.' ∷ []))
      → event_data.password_to ≡ some password
      → dm_is_hex_password E.amxd w.store ani_path ≡ some true
      → passwd_check_password E.amxd w.store ani_path password ≡ true
      → later.disk ≡ (password_changed E vendor event_data w).disk
      → passwd_restore_password E ani_path later
        ≡ update_password_in_dm E ani_path password true later
  password_survives lawful reliable dir d ani_path password no_t short event_data w later path new
        hex accepted same =
      restore_lem ani_path password true later nonempty (
        ap (upgr_persistency_get_password E.faults E.s_upgr_storage_dir ani_path [] false) (
          same
          ∙ ap (λ v. v.disk)
              (changed_lem lawful ani_path password no_t event_data w path new
                ∙ set_lem ani_path password w nonempty hex)
          ∙ disk_lem ani_path password true w)
        ∙ ap
            (λ s.
              upgr_persistency_get_password E.faults s ani_path [] false
                (upgr_persistency_set_password E.faults s ani_path password true w.disk))
            d
        ∙ accepted_hex_survives E.faults w.disk dir ani_path password E.amxd w.store [] reliable
            short accepted hex)
    where
      nonempty : 0 < length password
      nonempty = accepted_hex_not_empty E.amxd w.store ani_path password accepted hex
