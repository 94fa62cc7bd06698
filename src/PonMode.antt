-- ===== src/PonMode.antt =====
-- pon_mode.c, and the comparison with the names of the modes in dm_get_ani_pon_mode.
use tr181_xpon.Base.{
  ◌≡◌, refl, Bool, true, false, Option, none, some, Text, codes, strncmp_eq, if◌then◌else◌,
}

pub data PonMode : Type 0 where
  mode_unknown gpon xg_pon ng_pon2 xgs_pon : PonMode

unfoldable pub pon_mode_to_string : PonMode → Text
pon_mode_to_string mode_unknown = codes "Unknown"
pon_mode_to_string gpon = codes "G-PON"
pon_mode_to_string xg_pon = codes "XG-PON"
pon_mode_to_string ng_pon2 = codes "NG-PON2"
pon_mode_to_string xgs_pon = codes "XGS-PON"

abbrev pub is_mode_unknown : PonMode → Bool
is_mode_unknown mode_unknown = true
is_mode_unknown _ = false

-- The ladder of strncmp; none for an invalid mode.
unfoldable pub pon_mode_of_text : Text → Option PonMode
pon_mode_of_text t =
    if strncmp_eq t (codes "Unknown") 7
    then some mode_unknown
    else if strncmp_eq t (codes "G-PON") 5
    then some gpon
    else if strncmp_eq t (codes "XG-PON") 6
    then some xg_pon
    else if strncmp_eq t (codes "NG-PON2") 7
    then some ng_pon2
    else if strncmp_eq t (codes "XGS-PON") 7
    then some xgs_pon
    else none

-- The name of a mode is read back as that mode.
pon_mode_round_trip : (m : PonMode) → pon_mode_of_text (pon_mode_to_string m) ≡ some m
unfolding pon_mode_of_text pon_mode_to_string
pon_mode_round_trip gpon = refl
pon_mode_round_trip _ = refl
