-- ===== src/DataModel/Existence/Sets.antt =====
-- data_model.c: building a transaction from parameters appends settings of parameters only.
use tr181_xpon.Base.{
  ◌≡◌, refl, ◌∙◌, ap, ℕ, true, Option, none, some, List, [], ◌∷◌, ◌++◌, Text, Bool-cases,
  Option-cases, inl, inr, ◌==◌,
}
use tr181_xpon.Amxc.{Variants, all, var_id_eq}
use tr181_xpon.Amxd.{Amxd, Action, set_param, Transaction}
use tr181_xpon.DmInfo.{ObjectId, ParamInfo, dm_get_object_param_info, enable_param}
use tr181_xpon.DmInfo.Instances.{all-append}
use tr181_xpon.Persistency.{persistency_is_enabled}
use tr181_xpon.World.{Env, World}
use tr181_xpon.DataModel.Transactions.{
  append_if_possible, find_param, add_param, add_params, add_params_to_transaction, update_enable,
  instance_path,
}
use tr181_xpon.DataModel.Transactions.Params.{extend, extend_nil, extend-extend}
use tr181_xpon.DataModel.Existence.{is_set}

abbrev pub Extends : {Var : Type 0} → Transaction Var → Transaction Var → Type 0
Extends {Var} t t' = (sets : List (Action Var)) × (t' ≡ extend t sets) × (all is_set sets ≡ true)

pub Extends-none : {Var : Type 0} (t : Transaction Var) → Extends t t
Extends-none t = ([], extend_nil t, refl)

pub Extends-both :
    {Var : Type 0} (t u v : Transaction Var) → Extends t u → Extends u v → Extends t v
Extends-both t u v (sets, e, h) (more, f, k) = (
  sets ++ more,
  f ∙ ap (λ x. extend x more) e ∙ extend-extend t sets more,
  all-append is_set sets more h k,
)

module _ {V : Variants} (A : Amxd V) (s : A.Store) where
  open V use {Var}

  pub append_if_possible-Extends :
      (t : Transaction Var) (name : Text) (value : Var)
      → Extends t (append_if_possible A s t (set_param name value))
  append_if_possible-Extends t name value =
      elim (Bool-cases (A.can_append s t (set_param name value))) [
        | inl possible ↦ rw possible (set_param name value ∷ [], refl, refl)
        | inr impossible ↦ rw impossible (Extends-none t)
      ]

  add_param-Extends :
      (params : Var) (infos : List ParamInfo) (key : Text) (t : Transaction Var)
      → Extends t (add_param A s params infos key t)
  unfolding add_param
  add_param-Extends params infos key t = elim (Option-cases (find_param key infos)) [
    | inl none' ↦ rw (none', add_param) (Extends-none t)
    | inr (info, found) ↦ elim (Option-cases (V.get_key params key)) [
      | inl none' ↦ rw (found, none', add_param) (Extends-none t)
      | inr (value, e) ↦ elim (Bool-cases (var_id_eq (V.type_of value) info.var_type)) [
        | inl typed ↦ rw (found, e, typed, add_param) (append_if_possible-Extends t key value)
        | inr wrong ↦ rw (found, e, wrong, add_param) (Extends-none t)
      ]
    ]
  ]

  add_params-Extends :
      (params : Var) (infos : List ParamInfo) (keys : List Text) (t : Transaction Var)
      → Extends t (add_params A s params infos keys t)
  unfolding add_params
  add_params-Extends params infos [] t = Extends-none t
  add_params-Extends params infos (key ∷ keys) t =
      let u = add_param A s params infos key t in
      Extends-both t u (add_params A s params infos keys u) (add_param-Extends params infos key t)
        (add_params-Extends params infos keys u)

  pub add_params_to_transaction-Extends :
      (t : Transaction Var) (params : Option Var) (id : ObjectId)
      → Extends t (add_params_to_transaction A s t params id)
  unfolding add_params_to_transaction
  add_params_to_transaction-Extends t none id = Extends-none t
  add_params_to_transaction-Extends t (some params) id =
      elim (Option-cases (V.htable_keys params)) [
        | inl none' ↦ rw (none', add_params_to_transaction) (Extends-none t)
        | inr (keys, e) ↦ elim (Option-cases (dm_get_object_param_info id)) [
          | inl none' ↦ rw (e, none', add_params_to_transaction) (Extends-none t)
          | inr ((infos, n), i) ↦
              rw (e, i, add_params_to_transaction) (add_params-Extends params infos keys t)
        ]
      ]

module _ (E : Env) (w : World E) where
  pub update_enable-Extends :
      (t : Transaction E.variants.Var) (path : Text) (index : ℕ)
      → Extends t (update_enable E w t path index).0
  unfolding update_enable
  update_enable-Extends t path index = elim (Bool-cases (index == 0)) [
    | inl none_given ↦ rw (none_given, update_enable) (Extends-none t)
    | inr given ↦
        elim (Bool-cases
          (persistency_is_enabled E.s_storage_dir (instance_path path index) w.disk)) [
            | inl enabled ↦
                rw (given, enabled, update_enable)
                  (append_if_possible-Extends E.amxd w.store t enable_param
                    (E.variants.of_bool true))
            | inr disabled ↦ rw (given, disabled, update_enable) (Extends-none t)
          ]
  ]
