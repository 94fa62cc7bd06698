-- ===== src/DataModel/Reads.antt =====
-- The functions of data_model.c that only read.
use tr181_xpon.Base.{
  ℕ, Bool, false, Option, none, some, ◌++◌, Text, codes, length, snprintf, is_some,
}
use tr181_xpon.Amxc.{Variants}
use tr181_xpon.Amxd.{Amxd}
use tr181_xpon.Ani.{ani_append_tc_authentication}
use tr181_xpon.PonMode.{PonMode, pon_mode_of_text}

-- The number of instances of an object in the store.
abbrev pub instance_count : {V : Variants} (A : Amxd V) → A.Store → Text → ℕ
instance_count A s object = length (A.instances s object)

module _ {V : Variants} (A : Amxd V) (s : A.Store) where
  unfoldable pub dm_does_instance_exist : Text → ℕ → Bool
  dm_does_instance_exist path index = elim (A.find s path) [
    | none ↦ false
    | some templ ↦ is_some (A.get_instance s templ index)
  ]

  unfoldable pub get_nr_of_instances : Text → ℕ
  get_nr_of_instances path = elim (A.find s path) [
    | none ↦ 0
    | some object ↦ instance_count A s object
  ]

  unfoldable pub dm_get_nr_of_ethernet_uni_instances : Text → ℕ
  unfolding get_nr_of_instances
  dm_get_nr_of_ethernet_uni_instances onu_path =
      get_nr_of_instances (snprintf 64 (onu_path ++ codes ".EthernetUNI"))

  unfoldable pub dm_get_nr_of_ani_instances : Text → ℕ
  unfolding get_nr_of_instances
  dm_get_nr_of_ani_instances onu_path = get_nr_of_instances (snprintf 64 (onu_path ++ codes ".ANI"))

  unfoldable pub dm_get_param : Text → Text → Option V.Var
  dm_get_param path name = elim (A.find s path) [
    | none ↦ none
    | some param_object ↦ A.get_param s param_object name
  ]

  -- What *is_hex is set to; none if the function returns false.
  unfoldable pub dm_is_hex_password : Text → Option Bool
  dm_is_hex_password ani_path = elim (A.find s (ani_append_tc_authentication ani_path)) [
    | none ↦ none
    | some object ↦ elim (A.get_param s object (codes "HexadecimalPassword")) [
      | none ↦ none
      | some is_hex_variant ↦ some (V.constcast_bool is_hex_variant)
    ]
  ]

  -- What *pon_mode is set to; none if the function returns false. PONMode is a string of the
  -- object definition; a value of another type, which the code does not expect, counts as invalid.
  unfoldable pub dm_get_ani_pon_mode : Text → Option PonMode
  dm_get_ani_pon_mode ani_path = elim (A.find s ani_path) [
    | none ↦ none
    | some object ↦ elim (A.get_param s object (codes "PONMode")) [
      | none ↦ none
      | some pon_mode_var ↦ elim (V.constcast_cstring pon_mode_var) [
        | none ↦ none
        | some pon_mode ↦ pon_mode_of_text pon_mode
      ]
    ]
  ]
