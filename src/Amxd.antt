-- ===== src/Amxd.antt =====
-- What the component uses of libamxd, the data model library it links against: a store of
-- objects, and transactions that change it. The library is not part of this repository, so its
-- functions are parameters. An object stands for itself by its indexed path, such as
-- XPON.ONU.1.ANI.1; a template object by its path without an index.
use tr181_xpon.Base.{ℕ, Bool, Option, List, Text}
use tr181_xpon.Amxc.{Variants}

-- What a transaction does to the object that was selected for it.
pub data Action (Var : Type 0) : Type 0 where
  add_inst : ℕ → Action Var
  del_inst : ℕ → Action Var
  set_param : Text → Var → Action Var

-- amxd_trans_t, with the attribute change_ro that the component always sets.
pub record Transaction (Var : Type 0) : Type 0 where
  pub object : Text
  pub actions : List (Action Var)

pub record Amxd (V : Variants) : Type 1 where
  pub Store : Type 0
  pub find : Store → Text → Option Text  -- amxd_dm_findf
  pub is_template : Store → Text → Bool  -- amxd_object_get_type == amxd_object_template
  pub get_instance : Store → Text → ℕ → Option Text
  pub instances : Store → Text → List Text  -- amxd_object_iterate(instance, ...)
  pub get_index : Text → ℕ
  pub get_child : Store → Text → Text → Option Text  -- amxd_object_get_child, amxd_object_findf
  pub get_param : Store → Text → Text → Option V.Var  -- none unless amxd_status_ok
  pub put_param : Store → Text → Text → V.Var → Option Store  -- amxd_object_set_param
  pub can_select : Store → Text → Bool  -- amxd_trans_select_object
  pub can_append : Store → Transaction V.Var → Action V.Var → Bool  -- amxd_trans_add_inst, ...
  -- amxd_trans_apply. The first argument says whether the read handlers that it calls are to
  -- leave the vendor module alone.
  pub apply : Bool → Store → Transaction V.Var → Option Store
  -- The parameters of objects that read handlers have asked the vendor module for while
  -- transactions were applied.
  pub asked : Store → List (Text × Text)
