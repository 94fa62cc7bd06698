-- ===== src/UpgradePersistency/RoundTrip.antt =====
-- A saved password is read back, and saving leaves every other file alone.
use tr181_xpon.Base.{
  ◌+◌, ◌≤◌, ◌<◌, ◌≡◌, refl, ◌≢◌, inl, inr, sym, ◌∙◌, Bool, true, false, not, none, some, [], ◌∷◌,
  ◌++◌, arith, Text, codes, length, length-append, take_all, ends_ne,
}
use tr181_xpon.Posix.{Disk, Faults, unlink, IsReliable}
use tr181_xpon.FileUtils.{write_file, read_first_line_from_file, tmpfile_of}
use tr181_xpon.FileUtils.Laws.{write_file_atomic, write_file-true, first_line_whole, has_no_newline}
use tr181_xpon.Persistency.Laws.{unlink_self, unlink_other}
use tr181_xpon.Password.{max_password_len, max_password_len_plus_one}
use tr181_xpon.UpgradePersistency.Defs.{
  password_suffix, create_password_file_path, upgr_persistency_set_password,
  upgr_persistency_get_password,
}

-- A password that both functions handle in full.
pub record IsStorable (password : Text) : Type 0 where
  pub not_empty : 0 < length password
  pub fits : length password ≤ max_password_len
  pub plain : has_no_newline password ≡ true

-- A folder and an ANI path whose file names write_file does not cut.
abbrev pub IsShort : Text → Text → Type 0
IsShort dir ani_path = length dir + length ani_path ≤ 232

-- The name of the temporary file of a name that is not too long.
tmpfile_whole : (path : Text) → length path ≤ 251 → tmpfile_of path ≡ path ++ codes ".tmp"
unfolding tmpfile_of
tmpfile_whole path h =
    take_all 255 (path ++ codes ".tmp") (omega (arith, length-append {0} path (codes ".tmp")))

module _ (dir ani_path : Text) where
  file : Bool → Text
  file = create_password_file_path (some dir) ani_path

  suffixes_ne : (hex : Bool) → file hex ≢ file (not hex)
  unfolding file create_password_file_path
  suffixes_ne true =
      ends_ne (dir ++ ani_path) (password_suffix true) (dir ++ ani_path) (password_suffix false)
        refl
  suffixes_ne false =
      ends_ne (dir ++ ani_path) (password_suffix false) (dir ++ ani_path) (password_suffix true)
        refl

  file_short : (hex : Bool) → IsShort dir ani_path → length (file hex) ≤ 251
  unfolding file create_password_file_path
  file_short true h = omega (
    arith,
    length-append {0} (dir ++ ani_path) (password_suffix true),
    length-append {0} dir ani_path,
  )
  file_short false h = omega (
    arith,
    length-append {0} (dir ++ ani_path) (password_suffix false),
    length-append {0} dir ani_path,
  )

  pub tmpfile_password_whole :
      (hex : Bool)
      → IsShort dir ani_path
      → tmpfile_of (create_password_file_path (some dir) ani_path hex)
        ≡ create_password_file_path (some dir) ani_path hex ++ codes ".tmp"
  unfolding file
  tmpfile_password_whole hex h = tmpfile_whole (file hex) (file_short hex h)

  module _ (faults : Faults) (r : IsReliable faults) (d : Disk) where
    written_lem :
        (password : Text) (hex : Bool)
        → IsShort dir ani_path
        → IsStorable password
        → (write_file faults (file hex) password d).1 (file hex) ≡ some password
    written_lem password hex short ok =
        let path = file hex in
        let w =
          write_file_atomic faults path password d (file_short hex short) (omega (arith, ok.fits))
            ok.plain in
        let t =
          write_file-true faults path password d (omega (arith, ok.fits)) (r.writes _) (r.puts _)
            (r.renames _ _) (r.reopens path) in
        elim (w.0) [ inl (kept, failed) ↦ cc (t, failed) | inr done ↦ done ]

    -- What saving leaves in the two files.
    saved_files :
        (password : Text) (hex : Bool)
        → IsShort dir ani_path
        → IsStorable password
        → let d' = upgr_persistency_set_password faults (some dir) ani_path password hex d in
          (d' (file hex) ≡ some password) × (d' (file (not hex)) ≡ none)
    unfolding upgr_persistency_set_password file
    saved_files password hex short ok =
        let path = file hex in
        let other = file (not hex) in
        let written : (write_file faults path password d).1 path ≡ some password =
          written_lem password hex short ok in
        ground (
          arith,
          unlink_self faults (write_file faults path password d).1 other (r.unlinks other),
          unlink_other faults (write_file faults path password d).1 other path
              (λ e. suffixes_ne hex (sym e)),
        )

    read_whole :
        (path password : Text) (d' : Disk)
        → IsStorable password
        → d' path ≡ some password
        → read_first_line_from_file faults path max_password_len_plus_one d' ≡ some password
    unfolding read_first_line_from_file
    read_whole path [] d' ok here = absurd (omega (arith, ok.not_empty))
    read_whole path (c ∷ cs) d' ok here =
        ground (arith, r.reads path, first_line_whole 72 (c ∷ cs) ok.fits ok.plain)

    read_back :
        (password buffer : Text) (hex : Bool) (d' : Disk)
        → IsStorable password
        → d' (file hex) ≡ some password
        → d' (file (not hex)) ≡ none
        → upgr_persistency_get_password faults (some dir) ani_path buffer false d'
          ≡ record { rv = true; password = password; hex = hex }
    unfolding upgr_persistency_get_password file
    read_back password buffer true d' ok here gone = ground (
      arith,
      read_whole (file true) password d' ok here,
      take_all 72 password ok.fits,
      ok.not_empty,
    )
    read_back password buffer false d' ok here gone = ground (
      arith,
      read_whole (file false) password d' ok here,
      take_all 72 password ok.fits,
      ok.not_empty,
    )

    cleared_files :
        (hex other : Bool)
        → upgr_persistency_set_password faults (some dir) ani_path [] hex d (file other) ≡ none
    unfolding upgr_persistency_set_password file
    cleared_files hex true =
        unlink_self faults (unlink faults (file false) d) (file true) (r.unlinks (file true))
    cleared_files hex false =
        unlink_other faults (unlink faults (file false) d) (file true) (file false)
          (suffixes_ne true)
        ∙ unlink_self faults d (file false) (r.unlinks (file false))

    -- If no call fails, a password that is saved is read back, with its format: it is neither
    -- empty nor longer than 72 bytes and has no newline, and the names are short. Of the two
    -- files of the ANI the other one is gone.
    pub get-set :
        (password buffer : Text) (hex : Bool)
        → IsShort dir ani_path
        → IsStorable password
        → let d' = upgr_persistency_set_password faults (some dir) ani_path password hex d in
          (upgr_persistency_get_password faults (some dir) ani_path buffer false d'
            ≡ record { rv = true; password = password; hex = hex })
          × (d' (create_password_file_path (some dir) ani_path (not hex)) ≡ none)
    unfolding file
    get-set password buffer hex short ok =
        let (here, gone) = saved_files password hex short ok in
        (read_back password buffer hex _ ok here gone, gone)

    -- If no call fails, nothing is read after an empty password was saved.
    pub get-set_empty :
        (buffer : Text) (hex : Bool)
        → upgr_persistency_get_password faults
            (some dir)
            ani_path
            buffer
            false
            (upgr_persistency_set_password faults (some dir) ani_path [] hex d)
          ≡ record { rv = true; password = buffer; hex = false }
    unfolding upgr_persistency_get_password file
    get-set_empty buffer hex = ground (arith, cleared_files hex true, cleared_files hex false)

  -- Saving a password, whatever fails, leaves every file alone but the two of the ANI and the
  -- temporary one.
  pub set_other :
      (faults : Faults) (d : Disk) (password : Text) (hex : Bool) (q : Text)
      → ((f : Bool) → create_password_file_path (some dir) ani_path f ≢ q)
      → tmpfile_of (create_password_file_path (some dir) ani_path hex) ≢ q
      → IsShort dir ani_path
      → IsStorable password
      → upgr_persistency_set_password faults (some dir) ani_path password hex d q ≡ d q
  unfolding upgr_persistency_set_password file
  set_other faults d password hex q others tmp short ok = ground (
    arith,
    ok.not_empty,
    unlink_other faults (write_file faults (file hex) password d).1 (file (not hex)) q
        (others (not hex)),
    (write_file_atomic faults (file hex) password d (file_short hex short) (omega (arith, ok.fits))
          ok.plain).1
        q tmp (others hex),
  )
