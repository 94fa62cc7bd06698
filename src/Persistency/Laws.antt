-- ===== src/Persistency/Laws.antt =====
-- The folder of enabled objects behaves as a set of paths.
use tr181_xpon.Base.{
  ◌≡◌, refl, ◌≢◌, inl, inr, subst, Bool, true, false, Option, none, some, [], ◌++◌, arith, Text,
  text_eq, text_eq→eq, text_eq_iff, append-left_cancel, append-right_cancel, if◌then◌else◌,
  Bool-cases,
}
use tr181_xpon.Posix.{Disk, Faults, file_exists, unlink, update_self, update_other}
use tr181_xpon.Persistency.{
  create_enabled_file_path, enabled_suffix, touch_file, persistency_enable, persistency_is_enabled,
}

-- Different objects have different files.
pub enabled_file_injective :
    (dir : Text) (o p : Text)
    → create_enabled_file_path (some dir) o ≡ create_enabled_file_path (some dir) p
    → o ≡ p
unfolding create_enabled_file_path
enabled_file_injective dir o p e =
    append-left_cancel dir o p (append-right_cancel (dir ++ o) (dir ++ p) enabled_suffix e)

module _ (faults : Faults) (d : Disk) where
  pub touch_file_self :
      (file : Text)
      → faults.fopen_write file ≡ true
      → file_exists (touch_file faults file d) file ≡ true
  unfolding touch_file
  touch_file_self file ok = ground (arith, update_self d file (some []))

  pub touch_file_other : (file q : Text) → file ≢ q → touch_file faults file d q ≡ d q
  unfolding touch_file
  touch_file_other file q h = ground (arith, update_other d (some []) h)

  pub unlink_self : (file : Text) → faults.unlink file ≡ true → unlink faults file d file ≡ none
  unfolding unlink
  unlink_self file ok = ground (arith, update_self d file none)

  pub unlink_other : (file q : Text) → file ≢ q → unlink faults file d q ≡ d q
  unfolding unlink
  unlink_other file q h = ground (arith, update_other d none h)

  enable_self :
      (dir object : Text) (enable : Bool)
      → faults.fopen_write (create_enabled_file_path (some dir) object) ≡ true
      → faults.unlink (create_enabled_file_path (some dir) object) ≡ true
      → persistency_is_enabled
          (some dir)
          object
          (persistency_enable faults (some dir) object enable d)
        ≡ enable
  unfolding persistency_is_enabled persistency_enable
  enable_self dir object true w u = touch_file_self (create_enabled_file_path (some dir) object) w
  enable_self dir object false w u =
      ground (arith, unlink_self (create_enabled_file_path (some dir) object) u)

  -- Enabling changes the file of the object alone, whatever fails.
  pub enable_other_file :
      (dir : Option Text) (object : Text) (enable : Bool) (q : Text)
      → create_enabled_file_path dir object ≢ q
      → persistency_enable faults dir object enable d q ≡ d q
  unfolding persistency_enable
  enable_other_file none object enable q h = refl
  enable_other_file (some dir) object true q h = touch_file_other _ q h
  enable_other_file (some dir) object false q h = unlink_other _ q h

  enable_elsewhere :
      (dir object q : Text) (enable : Bool)
      → object ≢ q
      → persistency_is_enabled (some dir) q (persistency_enable faults (some dir) object enable d)
        ≡ persistency_is_enabled (some dir) q d
  unfolding persistency_is_enabled
  enable_elsewhere dir object q enable h = ground (
    arith,
    enable_other_file (some dir) object enable (create_enabled_file_path (some dir) q)
        (λ e. h (enabled_file_injective dir object q e)),
  )

  -- If its two calls succeed, saving that an object is enabled or disabled is what is read back
  -- for that object, and what is read for every other object stays.
  pub is_enabled-enable :
      (dir object q : Text) (enable : Bool)
      → faults.fopen_write (create_enabled_file_path (some dir) object) ≡ true
      → faults.unlink (create_enabled_file_path (some dir) object) ≡ true
      → persistency_is_enabled (some dir) q (persistency_enable faults (some dir) object enable d)
        ≡ (if text_eq object q then enable else persistency_is_enabled (some dir) q d)
  is_enabled-enable dir object q enable w u = elim (Bool-cases (text_eq object q)) [
    | inl same ↦ rw same (
        subst
          (λ o.
            persistency_is_enabled (some dir) o
              (persistency_enable faults (some dir) object enable d)
            ≡ enable)
          (text_eq→eq object q same) (enable_self dir object enable w u))
    | inr differ ↦
        rw differ
          (enable_elsewhere dir object q enable (λ e. cc ((text_eq_iff object q).1 e, differ)))
  ]
