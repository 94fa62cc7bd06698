-- ===== src/Password/Check.antt =====
-- passwd_check_password, and the constants of password_constants.h.
use tr181_xpon.Base.{
  ℕ, ◌*◌, ◌%◌, Bool, true, false, ◌&&◌, ◌||◌, not, none, some, Text, length, leb, ltb, ◌==◌,
  if◌then◌else◌, is_digit,
}
use tr181_xpon.Amxc.{Variants, all}
use tr181_xpon.Amxd.{Amxd}
use tr181_xpon.PonMode.{PonMode, gpon, is_mode_unknown}
use tr181_xpon.DataModel.Reads.{dm_is_hex_password, dm_get_ani_pon_mode}

abbrev pub max_gpon_password_len : ℕ
max_gpon_password_len = 10

abbrev pub max_xpon_password_len : ℕ
max_xpon_password_len = 36

abbrev pub max_password_len : ℕ
max_password_len = 72

abbrev pub max_password_len_plus_one : ℕ
max_password_len_plus_one = 73

-- isxdigit, in the C locale
abbrev pub is_xdigit : ℕ → Bool
is_xdigit c = is_digit c || (leb b'A' c && leb c b'F') || (leb b'a' c && leb c b'f')

abbrev pub max_len : PonMode → ℕ
max_len gpon = max_gpon_password_len
max_len _ = max_xpon_password_len

-- The tests on a hex password: an even length, and hex digits only.
unfoldable pub check_hex_digits : Text → Bool
check_hex_digits password = if not (length password % 2 == 0) then false else all is_xdigit password

-- The tests from the PON mode on.
unfoldable pub check_length : Bool → PonMode → Text → Bool
check_length is_hex pon_mode password =
    if is_mode_unknown pon_mode
    then false
    else if is_hex
    then if not (length password == max_len pon_mode * 2) then false else true
    else if ltb (max_len pon_mode) (length password)
    then false
    else true

module _ {V : Variants} (A : Amxd V) (s : A.Store) where
  abbrev check_mode : Bool → Text → Text → Bool
  check_mode is_hex ani_path password = elim (dm_get_ani_pon_mode A s ani_path) [
    | none ↦ false
    | some pon_mode ↦ check_length is_hex pon_mode password
  ]

  unfoldable pub passwd_check_password : Text → Text → Bool
  passwd_check_password ani_path password = elim (dm_is_hex_password A s ani_path) [
    | none ↦ false
    | some is_hex ↦
        if is_hex
        then if check_hex_digits password then check_mode true ani_path password else false
        else check_mode false ani_path password
  ]
