-- ===== src/FileUtils/Laws.antt =====
-- What write_file leaves on the disk.
use tr181_xpon.Base.{
  ℕ, zero, suc, ◌-◌, ◌≤◌, ◌<◌, ◌≡◌, refl, ◌≢◌, ◌⊎◌, inl, inr, ap, sym, ◌∙◌, Bool, true, false,
  Option, none, some, [], ◌∷◌, ◌++◌, arith, Text, codes, length, ◌==◌, length-append, take_all,
  Option-cases, same_path→eq, not, text_eq, text_eq→eq, Bool-cases, inr,
}
use tr181_xpon.Amxc.{all}
use tr181_xpon.Posix.{Disk, update, Faults, first_line, update_self, update_other}
use tr181_xpon.FileUtils.{
  tmpfile_of, line_len, rename_file, replace_file, write_file, check_file_has_value,
  read_first_line_from_file,
}

-- The name of the temporary file is not cut, so it is another name.
pub tmpfile-ne : (path : Text) → length path ≤ 251 → tmpfile_of path ≢ path
unfolding tmpfile_of
tmpfile-ne path short e =
    absurd (omega (arith, ap length whole, length-append {0} path (codes ".tmp")))
  where
    whole : path ++ codes ".tmp" ≡ path
    whole =
        sym (
          take_all 255 (path ++ codes ".tmp")
            (omega (arith, length-append {0} path (codes ".tmp"))))
        ∙ e

abbrev pub has_no_newline : Text → Bool
has_no_newline = all (λ c. not (c == b'\n'))

-- A line that is shorter than the buffer and has no newline is all of the text.
pub first_line→eq :
    (n : ℕ) (text value : Text)
    → first_line n text ≡ value
    → length value < n
    → has_no_newline value ≡ true
    → text ≡ value
first_line→eq zero text value e short plain = absurd (omega arith)
first_line→eq (suc n) [] value e short plain = e
first_line→eq (suc n) (c ∷ cs) [] e short plain = ground arith
first_line→eq (suc n) (c ∷ cs) (v ∷ vs) e short plain = ground (arith, first_line→eq n cs vs)

pub first_line_whole :
    (n : ℕ) (text : Text) → length text ≤ n → has_no_newline text ≡ true → first_line n text ≡ text
first_line_whole zero [] short plain = refl
first_line_whole zero (c ∷ cs) short plain = absurd (omega arith)
first_line_whole (suc n) [] short plain = refl
first_line_whole (suc n) (c ∷ cs) short plain = ground (arith, first_line_whole n cs)

names_differ : {p q : Text} → p ≢ q → text_eq p q ≡ false
names_differ {p} {q} h = elim (Bool-cases (text_eq p q)) [
  | inl same ↦ absurd (h (text_eq→eq p q same))
  | inr differ ↦ differ
]

-- What a rename over the file leaves there, and what it leaves elsewhere.
renamed :
    (d : Disk) {tmpfile path : Text} (v : Option Text)
    → tmpfile ≢ path
    → update (update (update d tmpfile v) path (update d tmpfile v tmpfile)) tmpfile none path ≡ v
renamed d {tmpfile} {path} v other =
    update_other _ none other ∙ update_self _ path _ ∙ update_self d tmpfile v

renamed_other :
    (d : Disk) {tmpfile path q : Text} (v w : Option Text)
    → tmpfile ≢ q
    → path ≢ q
    → update (update (update d tmpfile v) path w) tmpfile none q ≡ d q
renamed_other d v w t p = update_other _ none t ∙ update_other _ w p ∙ update_other d v t

module _ (faults : Faults) (path value : Text) (d : Disk) where
  -- Whatever fails, the file has its old text or the whole new one, and the new one if the
  -- function returns true.
  replace_file_atomic :
      tmpfile_of path ≢ path
      → let (rv, d') = replace_file faults path value d in
        ((d' path ≡ d path) × (rv ≡ false)) ⊎ (d' path ≡ some value)
  unfolding replace_file rename_file
  replace_file_atomic other = ground (
    arith,
    names_differ other,
    renamed d (some value) other,
    update_other d (some value) other,
    update_other d (some (faults.partial (tmpfile_of path))) other,
  )

  replace_file_other :
      (q : Text) → tmpfile_of path ≢ q → path ≢ q → (replace_file faults path value d).1 q ≡ d q
  unfolding replace_file rename_file
  replace_file_other q t p = ground (
    arith,
    update_other d (some value) t,
    renamed_other d (some value) (update d (tmpfile_of path) (some value) (tmpfile_of path)) t p,
    update_other d (some value) t,
    update_other d (some (faults.partial (tmpfile_of path))) t,
  )

  read_first_line_lem :
      (len : ℕ) {line : Text}
      → read_first_line_from_file faults path len d ≡ some line
      → (text : Text) × (d path ≡ some text) × (first_line (len - 1) text ≡ line)
  unfolding read_first_line_from_file
  read_first_line_lem len h = elim (Option-cases (d path)) [
    | inl missing ↦ absurd (ground arith)
    | inr (text, e) ↦ (text, e, ground arith)
  ]

  check_line :
      check_file_has_value faults path value d ≡ true
      → read_first_line_from_file faults path line_len d ≡ some value
  unfolding check_file_has_value
  check_line h = elim (Option-cases (read_first_line_from_file faults path line_len d)) [
    | inl missing ↦ absurd (ground arith)
    | inr (line, e) ↦ ground (arith, same_path→eq line value)
  ]

  -- A file that is found to have the value has it.
  check_file_has_value_lem :
      length value < 255
      → has_no_newline value ≡ true
      → check_file_has_value faults path value d ≡ true
      → d path ≡ some value
  check_file_has_value_lem short plain h =
      let (text, e, l) = read_first_line_lem line_len (check_line h) in
      e ∙ ap some (first_line→eq 255 text value l short plain)

  -- Whatever calls fail, the file holds afterwards its old text or the whole value, and the
  -- value if write_file returns true; every file but the temporary one keeps its text. The
  -- value has no newline and less than 255 bytes, and the path at most 251.
  pub write_file_atomic :
      length path ≤ 251
      → length value < 255
      → has_no_newline value ≡ true
      → let (rv, d') = write_file faults path value d in
        (((d' path ≡ d path) × (rv ≡ false)) ⊎ (d' path ≡ some value))
        × ((q : Text) → tmpfile_of path ≢ q → path ≢ q → d' q ≡ d q)
  unfolding write_file
  write_file_atomic short_path short plain = (
    ground (
      arith,
      replace_file_atomic (tmpfile-ne path short_path),
      check_file_has_value_lem short plain,
    ),
    λ q t p. ground (arith, replace_file_other q t p),
  )

  -- If no call fails, write_file returns true.
  pub write_file-true :
      length value < 256
      → faults.fopen_write (tmpfile_of path) ≡ true
      → faults.fputs (tmpfile_of path) ≡ true
      → faults.rename (tmpfile_of path) path ≡ true
      → faults.reopen path ≡ true
      → (write_file faults path value d).0 ≡ true
  unfolding write_file replace_file rename_file
  write_file-true short w p r o = ground arith
