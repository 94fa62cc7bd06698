-- ===== src/FileUtils.antt =====
-- file_utils.c: files with one value in them.
pub mod Laws
use tr181_xpon.Base.{
  ℕ, ◌-◌, Bool, true, false, Option, none, some, List, [], ◌∷◌, ◌++◌, Text, codes, length, snprintf,
  strncmp_eq, text_eq, leb, ◌==◌, if◌then◌else◌,
}
use tr181_xpon.Posix.{Disk, update, Faults, file_exists, first_line}

abbrev pub line_len : ℕ
line_len = 256

unfoldable pub tmpfile_of : Text → Text
tmpfile_of path = snprintf 256 (path ++ codes ".tmp")

module _ (faults : Faults) where
  -- The line read, none if the function returns false.
  unfoldable pub read_first_line_from_file : Text → ℕ → Disk → Option Text
  read_first_line_from_file path len d =
      if faults.fopen_read path
      then elim (d path) [
        | none ↦ none
        | some text ↦ elim (first_line (len - 1) text) [ [] ↦ none | c ∷ cs ↦ some (c ∷ cs) ]
      ]
      else none

  -- Whether the function returns true and has set *has_value to true.
  unfoldable pub check_file_has_value : Text → Text → Disk → Bool
  check_file_has_value path value d = elim (read_first_line_from_file path line_len d) [
    | none ↦ false
    | some line ↦
        if length line == length value then strncmp_eq line value (length value) else false
  ]

  -- A file that is renamed to its own name stays.
  unfoldable pub rename_file : Text → Text → Disk → Bool × Disk
  rename_file oldpath newpath d =
      if faults.rename oldpath newpath
      then (
        faults.reopen newpath,
        if text_eq oldpath newpath then d else update (update d newpath (d oldpath)) oldpath none,
      )
      else (false, d)

  -- The part of write_file after the test for an unneeded write.
  unfoldable pub replace_file : Text → Text → Disk → Bool × Disk
  replace_file path value d =
      let tmpfile = tmpfile_of path in
      if faults.fopen_write tmpfile
      then if faults.fputs tmpfile
        then rename_file tmpfile path (update d tmpfile (some value))
        else (false, update d tmpfile (some (faults.partial tmpfile)))
      else (false, d)

  unfoldable pub write_file : Text → Text → Disk → Bool × Disk
  write_file path value d =
      if leb line_len (length value)
      then (false, d)
      else if file_exists d path
      then if check_file_has_value path value d then (true, d) else replace_file path value d
      else replace_file path value d
