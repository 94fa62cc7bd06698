-- ===== src/DataModel/Transactions/Params.antt =====
-- data_model.c: which parameters add_params_to_transaction sets.
use mathlib.Core.List.{append_assoc}
use tr181_xpon.Base.{
  ◌≡◌, refl, sym, ◌∙◌, ap, true, ◌&&◌, ◌==◌, length, strncmp_eq, text_eq, arith, Option, none, some,
  List, [], ◌∷◌, ◌++◌, Text, if◌then◌else◌, Bool-cases, Option-cases, inl, inr,
}
use tr181_xpon.Amxc.{Variants, var_id_eq}
use tr181_xpon.Amxd.{Amxd, Action, set_param, Transaction}
use tr181_xpon.DmInfo.{ObjectId, ParamInfo, dm_get_object_param_info}
use tr181_xpon.DataModel.Transactions.{find_param, add_param, add_params, add_params_to_transaction}

-- The first parameter that has this name, letter by letter.
abbrev pub param_named : Text → List ParamInfo → Option ParamInfo
param_named key [] = none
param_named key (info ∷ infos) =
    let rest = param_named key infos in if text_eq key info.name then some info else rest

same_name :
    (key name : Text)
    → (strncmp_eq key name (length key) && (length key == length name)) ≡ text_eq key name
same_name [] [] = refl
same_name [] (y ∷ ys) = ground arith
same_name (x ∷ xs) [] = refl
same_name (x ∷ xs) (y ∷ ys) = ground (arith, same_name xs ys)

-- The loop finds a parameter by its whole name.
pub find_param_lem :
    (key : Text) (infos : List ParamInfo) → find_param key infos ≡ param_named key infos
unfolding find_param
find_param_lem key [] = refl
find_param_lem key (info ∷ infos) =
    rw (same_name key info.name, find_param_lem key infos, find_param) refl

abbrev pub set_if : {Var : Type 0} → Text → Option Var → List (Action Var)
set_if key none = []
set_if key (some value) = set_param key value ∷ []

module _ (V : Variants) where
  open V use {Var}

  -- The value that a key is to be set to: it is the name of a parameter of the object, and the
  -- value in the htable has the parameter's type.
  abbrev pub well_typed : Var → Option ParamInfo → Text → Option Var
  well_typed params none key = none
  well_typed params (some info) key = elim (V.get_key params key) [
    | none ↦ none
    | some value ↦ if var_id_eq (V.type_of value) info.var_type then some value else none
  ]

  -- One action for each key of the htable that is to be set, in its order.
  abbrev pub settings : Var → List ParamInfo → List Text → List (Action Var)
  settings params infos [] = []
  settings params infos (key ∷ keys) =
      set_if key (well_typed params (param_named key infos) key) ++ settings params infos keys

  abbrev pub settings_of : Option Var → ObjectId → List (Action Var)
  settings_of none id = []
  settings_of (some params) id = elim (V.htable_keys params) [
    | none ↦ []
    | some keys ↦ elim (dm_get_object_param_info id) [
      | none ↦ []
      | some (infos, n_params) ↦ settings params infos keys
    ]
  ]

pub append-nil_actions : {Var : Type 0} (xs : List (Action Var)) → xs ++ [] ≡ xs
append-nil_actions [] = refl
append-nil_actions (x ∷ xs) = ap (λ t. x ∷ t) (append-nil_actions xs)

-- The transaction with more actions.
abbrev pub extend : {Var : Type 0} → Transaction Var → List (Action Var) → Transaction Var
extend t more = record t { actions = t.actions ++ more }

pub extend_nil : {Var : Type 0} (t : Transaction Var) → t ≡ extend t []
extend_nil t = λ i. record { object = t.object; actions = sym (append-nil_actions t.actions) i }

pub extend-extend :
    {Var : Type 0} (t : Transaction Var) (more rest : List (Action Var))
    → extend (extend t more) rest ≡ extend t (more ++ rest)
extend-extend t more rest =
    λ i. record { object = t.object; actions = append_assoc t.actions more rest i }

module _ {V : Variants} (A : Amxd V) (s : A.Store)
    (accepts : (t : Transaction V.Var) (a : Action V.Var) → A.can_append s t a ≡ true) where
  open V use {Var}

  add_typed :
      (params : Var) (info : ParamInfo) (infos : List ParamInfo) (key : Text) (t : Transaction Var)
      → find_param key infos ≡ some info
      → add_param A s params infos key t
        ≡ extend t (set_if key (well_typed V params (some info) key))
  unfolding add_param
  add_typed params info infos key t found = elim (Option-cases (V.get_key params key)) [
    | inl missing ↦ rw (found, missing, add_param) (rw (missing, well_typed) (extend_nil t))
    | inr (value, e) ↦ elim (Bool-cases (var_id_eq (V.type_of value) info.var_type)) [
      | inl typed ↦
          rw (found, e, typed, accepts t (set_param key value), add_param)
            (rw (e, typed, well_typed))
      | inr wrong ↦ rw (found, e, wrong, add_param) (rw (e, wrong, well_typed) (extend_nil t))
    ]
  ]

  add_param_lem :
      (params : Var) (infos : List ParamInfo) (key : Text) (t : Transaction Var)
      → add_param A s params infos key t
        ≡ extend t (set_if key (well_typed V params (find_param key infos) key))
  unfolding add_param
  add_param_lem params infos key t = elim (Option-cases (find_param key infos)) [
    | inl none' ↦ rw (none', add_param) (extend_nil t)
    | inr (info, found) ↦ add_typed params info infos key t found ∙ rw found
  ]

  add_params_lem :
      (params : Var) (infos : List ParamInfo) (keys : List Text) (t : Transaction Var)
      → add_params A s params infos keys t ≡ extend t (settings V params infos keys)
  unfolding add_params
  add_params_lem params infos [] t = extend_nil t
  add_params_lem params infos (key ∷ keys) t =
      ap (add_params A s params infos keys) (
        add_param_lem params infos key t
        ∙ ap (λ p. extend t (set_if key (well_typed V params p key))) (find_param_lem key infos))
      ∙ add_params_lem params infos keys (extend t set)
      ∙ extend-extend t set (settings V params infos keys)
    where
      set : List (Action Var)
      set = set_if key (well_typed V params (param_named key infos) key)

  -- If the library accepts every action, the transaction is extended by a setting for each key
  -- of the htable that is the name of a parameter of the object and has a value of that parameter's
  -- type, in the htable's order, and by nothing else.
  pub add_params_to_transaction_lem :
      (t : Transaction Var) (params : Option Var) (id : ObjectId)
      → add_params_to_transaction A s t params id ≡ extend t (settings_of V params id)
  unfolding add_params_to_transaction
  add_params_to_transaction_lem t none id = extend_nil t
  add_params_to_transaction_lem t (some params) id = elim (Option-cases (V.htable_keys params)) [
    | inl none' ↦ rw (none', add_params_to_transaction) (rw (none', settings_of) (extend_nil t))
    | inr (keys, k) ↦ elim (Option-cases (dm_get_object_param_info id)) [
      | inl none' ↦
          rw (k, none', add_params_to_transaction) (rw (k, none', settings_of) (extend_nil t))
      | inr ((infos, n_params), i) ↦
          rw (k, i, add_params_to_transaction)
            (rw (k, i, settings_of) (add_params_lem params infos keys t))
    ]
  ]
