-- ===== src/Amxc/VariantApi.antt =====
-- amxc_var_t: a tagged value that may be an htable of others.
use Prim.Native.Nat.{ℕ}
use mathlib.Core.Bool.{Bool, true, false}
use mathlib.Core.Option.{Option, none, some}
use mathlib.Core.List.{List, [], ◌∷◌}
use tr181_xpon.Base.{Text, text_eq, if◌then◌else◌}

-- The AMXC_VAR_ID_* that the component names, and `other` for the rest.
pub data VarId : Type 0 where
  id_bool id_int32 id_uint32 id_cstring id_csv_string id_fd id_htable other : VarId

abbrev pub var_id_eq : VarId → VarId → Bool
var_id_eq VarId.id_bool VarId.id_bool = true
var_id_eq VarId.id_int32 VarId.id_int32 = true
var_id_eq VarId.id_uint32 VarId.id_uint32 = true
var_id_eq VarId.id_cstring VarId.id_cstring = true
var_id_eq VarId.id_csv_string VarId.id_csv_string = true
var_id_eq VarId.id_fd VarId.id_fd = true
var_id_eq VarId.id_htable VarId.id_htable = true
var_id_eq VarId.other VarId.other = true
var_id_eq _ _ = false

pub record Variants : Type 1 where
  pub Var : Type 0
  pub type_of : Var → VarId
  pub htable_keys : Var → Option (List Text)  -- the keys in order; none if it is no htable
  pub get_key : Var → Text → Option Var  -- amxc_var_get_key, GET_ARG
  pub constcast_cstring : Var → Option Text
  pub constcast_uint32 : Var → ℕ
  pub constcast_bool : Var → Bool
  pub constcast_fd : Var → Option ℕ  -- none for a file descriptor that is not over 0
  pub dyncast_uint32 : Var → ℕ  -- what GET_UINT32 applies to the entry
  pub dyncast_bool : Var → Bool
  pub of_bool : Bool → Var
  pub of_uint32 : ℕ → Var
  pub of_cstring : Text → Var
  pub new_htable : Option Var  -- an empty htable; none if the type cannot be set
  pub add_key : Var → Text → Var → Option Var  -- none if the key was not added

-- amxc_htable_contains
abbrev pub contains_key : List Text → Text → Bool
contains_key [] k = false
contains_key (j ∷ js) k = if text_eq j k then true else contains_key js k

module _ (V : Variants) where
  open V use {Var}

  -- GET_CHAR
  abbrev pub get_char : Var → Text → Option Text
  get_char v k = elim (V.get_key v k) [ none ↦ none | some w ↦ V.constcast_cstring w ]

  -- GET_UINT32, which is 0 without the key.
  abbrev pub get_uint32 : Var → Text → ℕ
  get_uint32 v k = elim (V.get_key v k) [ none ↦ 0 | some w ↦ V.dyncast_uint32 w ]

  abbrev pub get_bool : Var → Text → Bool
  get_bool v k = elim (V.get_key v k) [ none ↦ false | some w ↦ V.dyncast_bool w ]
