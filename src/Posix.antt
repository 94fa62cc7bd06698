-- ===== src/Posix.antt =====
-- The calls of unistd.h, stdio.h and sys/stat.h that the component makes, on a disk that holds
-- a text for each path. What may fail does so as a `Faults` value says.
use tr181_xpon.Base.{
  ℕ, zero, suc, ◌≡◌, ◌≢◌, Bool, true, false, Option, none, some, [], ◌∷◌, Text, text_eq, text_eq→eq,
  text_eq_refl, ◌==◌, if◌then◌else◌, arith, Bool-cases, inl, inr,
}

abbrev pub Disk : Type 0
Disk = Text → Option Text

-- The disk after the text of a path has changed.
unfoldable pub update : Disk → Text → Option Text → Disk
update d p v q = if text_eq p q then v else d q

-- Whether the call on this path succeeds.
pub record Faults : Type 0 where
  pub fopen_read : Text → Bool
  pub fopen_write : Text → Bool
  pub fputs : Text → Bool
  pub partial : Text → Text  -- what the file holds after fputs has failed
  pub rename : Text → Text → Bool
  pub reopen : Text → Bool  -- open with O_RDWR
  pub unlink : Text → Bool

-- access(path, F_OK) == 0
abbrev pub file_exists : Disk → Text → Bool
file_exists d p = elim (d p) [ none ↦ false | some t ↦ true ]

unfoldable pub unlink : Faults → Text → Disk → Disk
unlink faults p d = if faults.unlink p then update d p none else d

-- fgets: bytes up to a newline, which is kept, and at most n of them.
abbrev pub first_line : ℕ → Text → Text
first_line zero t = []
first_line (suc n) [] = []
first_line (suc n) (c ∷ cs) = let rest = first_line n cs in if c == b'\n' then c ∷ [] else c ∷ rest

pub update_self : (d : Disk) (p : Text) (v : Option Text) → update d p v p ≡ v
unfolding update
update_self d p v = ground (arith, text_eq_refl p)

pub update_other : (d : Disk) {p q : Text} (v : Option Text) → p ≢ q → update d p v q ≡ d q
unfolding update
update_other d {p} {q} v h = elim (Bool-cases (text_eq p q)) [
  | inl same ↦ absurd (h (text_eq→eq p q same))
  | inr differ ↦ ground arith
]

-- No call fails.
pub record IsReliable (faults : Faults) : Type 0 where
  pub reads : (p : Text) → faults.fopen_read p ≡ true
  pub writes : (p : Text) → faults.fopen_write p ≡ true
  pub puts : (p : Text) → faults.fputs p ≡ true
  pub renames : (p q : Text) → faults.rename p q ≡ true
  pub reopens : (p : Text) → faults.reopen p ≡ true
  pub unlinks : (p : Text) → faults.unlink p ≡ true
