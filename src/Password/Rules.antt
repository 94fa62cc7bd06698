-- ===== src/Password/Rules.antt =====
-- Which passwords are accepted, and that an accepted one fits the buffers that it is put in.
use mathlib.Core.Option.{some-injective}
use tr181_xpon.Base.{
  ℕ, ◌*◌, ◌≤◌, ◌<◌, ◌≡◌, refl, sym, ◌∙◌, ◌≢◌, ◌↔◌, Bool, true, false, some, [], ◌∷◌, arith, Text,
  length, Option-cases, inl, inr, &&-true,
}
use tr181_xpon.Amxc.{Variants, all}
use tr181_xpon.Amxd.{Amxd}
use tr181_xpon.PonMode.{PonMode, mode_unknown, gpon, is_mode_unknown}
use tr181_xpon.DataModel.Reads.{dm_is_hex_password, dm_get_ani_pon_mode}
use tr181_xpon.FileUtils.Laws.{has_no_newline}
use tr181_xpon.Password.Check.{
  max_len, is_xdigit, check_hex_digits, check_length, max_password_len_plus_one,
  passwd_check_password,
}

-- How many bytes a password has at most: 10 in G-PON, and 36 in the other modes.
abbrev pub allowed_bytes : PonMode → ℕ
allowed_bytes gpon = 10
allowed_bytes _ = 36

-- The rule that the code follows: in hex exactly the bytes of the mode, two digits each; else at
-- most as many characters, which may be any. The documentation of the data model allows only the
-- characters from 32 to 126 then.
pub data Accepts (pon_mode : PonMode) (password : Text) : Bool → Type 0 where
  in_hex :
      pon_mode ≢ mode_unknown
      → all is_xdigit password ≡ true
      → length password ≡ 2 * allowed_bytes pon_mode
      → Accepts pon_mode password true
  in_ascii :
      pon_mode ≢ mode_unknown
      → length password ≤ allowed_bytes pon_mode
      → Accepts pon_mode password false

bytes_lem : (m : PonMode) → max_len m ≡ allowed_bytes m
bytes_lem gpon = refl
bytes_lem _ = refl

mode_known : (m : PonMode) → is_mode_unknown m ≡ false → m ≢ mode_unknown
mode_known m h e = ground arith

known_mode : (m : PonMode) → m ≢ mode_unknown → is_mode_unknown m ≡ false
known_mode mode_unknown h = absurd (h refl)
known_mode _ h = refl

Accepts→checks_hex :
    {m : PonMode} {p : Text}
    → Accepts m p true
    → (check_hex_digits p ≡ true) × (check_length true m p ≡ true)
unfolding check_hex_digits check_length
Accepts→checks_hex {m} {p} (in_hex k x l) =
    (ground (arith, bytes_lem m), ground (arith, known_mode m k, bytes_lem m))

Accepts→check_ascii : {m : PonMode} {p : Text} → Accepts m p false → check_length false m p ≡ true
unfolding check_length
Accepts→check_ascii {m} {p} (in_ascii k l) = ground (arith, known_mode m k, bytes_lem m)

checks→Accepts :
    (is_hex : Bool) (m : PonMode) (p : Text)
    → (is_hex ≡ true → check_hex_digits p ≡ true)
    → check_length is_hex m p ≡ true
    → Accepts m p is_hex
unfolding check_hex_digits check_length
checks→Accepts true m p h l =
    in_hex (mode_known m (ground arith)) (ground (arith, h refl)) (ground (arith, bytes_lem m))
checks→Accepts false m p h l = in_ascii (mode_known m (ground arith)) (ground (arith, bytes_lem m))

allowed_bytes-le : (m : PonMode) → allowed_bytes m ≤ 36
allowed_bytes-le gpon = omega arith
allowed_bytes-le _ = omega arith

Accepts-fits :
    (m : PonMode) (p : Text) (is_hex : Bool)
    → Accepts m p is_hex
    → length p < max_password_len_plus_one
Accepts-fits m p true (in_hex k x l) = omega (arith, allowed_bytes-le m)
Accepts-fits m p false (in_ascii k l) = omega (arith, allowed_bytes-le m)

Accepts-xdigits :
    (m : PonMode) (p : Text) (is_hex : Bool)
    → is_hex ≡ true
    → Accepts m p is_hex
    → all is_xdigit p ≡ true
Accepts-xdigits m p true e (in_hex k x l) = x
Accepts-xdigits m p false e a = cc

Accepts-not_empty :
    (m : PonMode) (p : Text) (is_hex : Bool) → is_hex ≡ true → Accepts m p is_hex → 0 < length p
Accepts-not_empty gpon p true e (in_hex k x l) = omega arith
Accepts-not_empty m p true e (in_hex k x l) = omega arith
Accepts-not_empty gpon p false e a = cc
Accepts-not_empty m p false e a = cc

xdigits-plain : (p : Text) → all is_xdigit p ≡ true → has_no_newline p ≡ true
xdigits-plain [] h = refl
xdigits-plain (c ∷ cs) h =
    let (d, ds) = &&-true (is_xdigit c) _ h in ground (arith, xdigits-plain cs ds)

module _ {V : Variants} (A : Amxd V) (s : A.Store) where
  -- What the data model says of the format and the mode of an ANI, and that the rule holds.
  pub record IsAcceptable (ani_path password : Text) : Type 0 where
    pub is_hex : Bool
    pub pon_mode : PonMode
    pub hex_known : dm_is_hex_password A s ani_path ≡ some is_hex
    pub mode_read : dm_get_ani_pon_mode A s ani_path ≡ some pon_mode
    pub accepted : Accepts pon_mode password is_hex

  to_acceptable :
      (ani_path password : Text)
      → passwd_check_password A s ani_path password ≡ true
      → IsAcceptable ani_path password
  unfolding passwd_check_password
  to_acceptable ani_path password h = elim (Option-cases (dm_is_hex_password A s ani_path)) [
    | inl none_hex ↦ absurd (ground arith)
    | inr (is_hex, e) ↦ elim (Option-cases (dm_get_ani_pon_mode A s ani_path)) [
      | inl none_mode ↦ absurd (ground arith)
      | inr (pon_mode, m) ↦ record {
        is_hex = is_hex;
        pon_mode = pon_mode;
        hex_known = e;
        mode_read = m;
        accepted = checks→Accepts is_hex pon_mode password (λ t. ground arith) (ground arith);
      }
    ]
  ]

  from_parts :
      (ani_path password : Text) (is_hex : Bool) (m : PonMode)
      → dm_is_hex_password A s ani_path ≡ some is_hex
      → dm_get_ani_pon_mode A s ani_path ≡ some m
      → Accepts m password is_hex
      → passwd_check_password A s ani_path password ≡ true
  unfolding passwd_check_password
  from_parts ani_path password true m e f a = ground (arith, Accepts→checks_hex a)
  from_parts ani_path password false m e f a = ground (arith, Accepts→check_ascii a)

  -- A password is accepted exactly when the data model knows the format and the mode of the
  -- ANI, the mode is not Unknown, and the password follows the rule: in hex only hex digits,
  -- 20 of them in G-PON and 72 in another mode; in ASCII at most 10 characters in G-PON and 36
  -- in another mode, whatever characters they are.
  pub passwd_check_password_iff :
      (ani_path password : Text)
      → (passwd_check_password A s ani_path password ≡ true) ↔ IsAcceptable ani_path password
  passwd_check_password_iff ani_path password = (
    to_acceptable ani_path password,
    λ a. from_parts ani_path password a.is_hex a.pon_mode a.hex_known a.mode_read a.accepted,
  )

  -- An accepted password fits a buffer of 73 bytes with its final NUL.
  pub accepted_fits :
      (ani_path password : Text)
      → passwd_check_password A s ani_path password ≡ true
      → length password < max_password_len_plus_one
  accepted_fits ani_path password h =
      let a = to_acceptable ani_path password h in
      Accepts-fits a.pon_mode password a.is_hex a.accepted

  -- An accepted hex password has no newline.
  pub accepted_hex_plain :
      (ani_path password : Text)
      → passwd_check_password A s ani_path password ≡ true
      → dm_is_hex_password A s ani_path ≡ some true
      → has_no_newline password ≡ true
  accepted_hex_plain ani_path password h e =
      let a = to_acceptable ani_path password h in
      xdigits-plain password (
        Accepts-xdigits a.pon_mode password a.is_hex (some-injective _ _ (sym a.hex_known ∙ e))
          a.accepted)

  pub accepted_hex_not_empty :
      (ani_path password : Text)
      → passwd_check_password A s ani_path password ≡ true
      → dm_is_hex_password A s ani_path ≡ some true
      → 0 < length password
  accepted_hex_not_empty ani_path password h e =
      let a = to_acceptable ani_path password h in
      Accepts-not_empty a.pon_mode password a.is_hex (some-injective _ _ (sym a.hex_known ∙ e))
        a.accepted
