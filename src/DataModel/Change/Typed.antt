-- ===== src/DataModel/Change/Typed.antt =====
-- data_model.c: an object's parameters are only ever set to values of their declared types.
use tr181_xpon.Base.{
  ◌≡◌, refl, sym, ◌∙◌, ℕ, Bool, true, false, Option, none, some, List, [], ◌∷◌, Text, Bool-cases,
  Option-cases, inl, inr,
}
use tr181_xpon.Amxc.{Variants, VarId, id_bool, var_id_eq, all}
use tr181_xpon.Amxd.{Amxd, Action, add_inst, del_inst, set_param, Transaction}
use tr181_xpon.DmInfo.{ObjectId, onu, ParamInfo, dm_get_object_param_info, enable_param}
use tr181_xpon.DmInfo.Instances.{all-append}
use tr181_xpon.RestoreToHal.{is_onu}
use tr181_xpon.DataModel.Transactions.Params.{param_named, find_param_lem}
use tr181_xpon.DataModel.Transactions.{
  append_if_possible, find_param, add_param, add_params, add_params_to_transaction,
}

-- The type that a parameter of an object is declared with, if the object has it.
abbrev pub declared : ObjectId → Text → Option VarId
declared id name = elim (dm_get_object_param_info id) [
  | none ↦ none
  | some (infos, n_params) ↦ elim (param_named name infos) [
    | none ↦ none
    | some info ↦ some info.var_type
  ]
]

module _ (V : Variants) where
  open V use {Var}

  -- The action sets a parameter of the object to a value of its declared type.
  abbrev pub is_typed : ObjectId → Action Var → Bool
  is_typed id (set_param name value) = elim (declared id name) [
    | none ↦ false
    | some type ↦ var_id_eq (V.type_of value) type
  ]
  is_typed id (add_inst index) = false
  is_typed id (del_inst index) = false

  abbrev pub AllTyped : ObjectId → Transaction Var → Type 0
  AllTyped id t = all (is_typed id) t.actions ≡ true

  -- Enable is a bool parameter of an ONU.
  pub enable_typed :
      V.type_of (V.of_bool true) ≡ id_bool
      → (id : ObjectId) → is_onu id ≡ true
      → is_typed id (set_param enable_param (V.of_bool true)) ≡ true
  unfolding dm_get_object_param_info
  enable_typed bool onu h = rw bool refl
  enable_typed bool _ h = absurd cc

  module _ (A : Amxd V) (s : A.Store) (id : ObjectId) where
    pub append-AllTyped :
        (t : Transaction Var) (a : Action Var)
        → is_typed id a ≡ true
        → AllTyped id t
        → AllTyped id (append_if_possible A s t a)
    append-AllTyped t a typed h = elim (Bool-cases (A.can_append s t a)) [
      | inl possible ↦ rw possible (all-append (is_typed id) t.actions (a ∷ []) h (rw typed refl))
      | inr impossible ↦ rw impossible h
    ]

    module _ (infos : List ParamInfo) (n_params : ℕ)
        (its : dm_get_object_param_info id ≡ some (infos, n_params)) where
      checked :
          (key : Text) (value : Var) (info : ParamInfo)
          → find_param key infos ≡ some info
          → var_id_eq (V.type_of value) info.var_type ≡ true
          → is_typed id (set_param key value) ≡ true
      checked key value info found typed =
          rw (its, sym (find_param_lem key infos) ∙ found, is_typed) typed

      add_param-AllTyped :
          (params : Var) (key : Text) (t : Transaction Var)
          → AllTyped id t
          → AllTyped id (add_param A s params infos key t)
      unfolding add_param
      add_param-AllTyped params key t h = elim (Option-cases (find_param key infos)) [
        | inl none' ↦ rw (none', add_param) h
        | inr (info, found) ↦ elim (Option-cases (V.get_key params key)) [
          | inl none' ↦ rw (found, none', add_param) h
          | inr (value, e) ↦ elim (Bool-cases (var_id_eq (V.type_of value) info.var_type)) [
            | inl typed ↦
                rw (found, e, typed, add_param)
                  (append-AllTyped t (set_param key value) (checked key value info found typed) h)
            | inr wrong ↦ rw (found, e, wrong, add_param) h
          ]
        ]
      ]

      add_params-AllTyped :
          (params : Var) (keys : List Text) (t : Transaction Var)
          → AllTyped id t
          → AllTyped id (add_params A s params infos keys t)
      unfolding add_params
      add_params-AllTyped params [] t h = h
      add_params-AllTyped params (key ∷ keys) t h =
          add_params-AllTyped params keys (add_param A s params infos key t)
            (add_param-AllTyped params key t h)

    pub add_params_to_transaction-AllTyped :
        (t : Transaction Var) (params : Option Var)
        → AllTyped id t
        → AllTyped id (add_params_to_transaction A s t params id)
    unfolding add_params_to_transaction
    add_params_to_transaction-AllTyped t none h = h
    add_params_to_transaction-AllTyped t (some params) h =
        elim (Option-cases (V.htable_keys params)) [
          | inl none' ↦ rw (none', add_params_to_transaction) h
          | inr (keys, e) ↦ elim (Option-cases (dm_get_object_param_info id)) [
            | inl none' ↦ rw (e, none', add_params_to_transaction) h
            | inr ((infos, n), i) ↦
                rw (e, i, add_params_to_transaction) (add_params-AllTyped infos n i params keys t h)
          ]
        ]
