-- ===== src/DataModel/Args/Target.antt =====
-- data_model.c: which instance the arguments of a call name.
use mathlib.Core.Option.{some-injective}
use tr181_xpon.Base.{
  ◌≡◌, refl, ◌∙◌, ap, sym, ℕ, false, ◌&&◌, some, List, [], ◌∷◌, Text, codes, ◌==◌, Bool-cases,
  Option-cases, inl, inr,
}
use tr181_xpon.Amxc.{Strings, Variants, contains_key, get_char, get_uint32}
use tr181_xpon.DmInfo.{dm_get_object_id, dm_get_object_info}
use tr181_xpon.DataModel.Args.{
  ActionInfo, process_args_common, process_htable, check_required, is_unknown, optional_index,
  add_inst_params_required, add_or_change_inst_args_required, process_add_instance_args,
  find_key_value,
}

module _ (S : Strings) (V : Variants) where
  open V use {Var}

  -- An index that has been found stays.
  check_required_keeps :
      (args : Var) (present : List Text) (index : ℕ) (keys : List Text) (j : ℕ)
      → (index == 0) ≡ false
      → check_required S V args present index keys ≡ some j
      → j ≡ index
  unfolding check_required
  check_required_keeps args present index [] j h e = sym (some-injective index j e)
  check_required_keeps args present index (key ∷ keys) j h e =
      elim (Bool-cases (contains_key present key)) [
        | inl here ↦
            check_required_keeps args present index keys j h (rw (here, h, check_required) at e)
        | inr missing ↦ absurd (cc (rw (missing, check_required) at e))
      ]

  -- The required index is that of the arguments.
  required_index :
      (args : Var) (present keys : List Text) (j : ℕ)
      → check_required S V args present 0 (codes "path" ∷ codes "index" ∷ keys) ≡ some j
      → j ≡ get_uint32 V args (codes "index")
  unfolding check_required
  required_index args present keys j e = elim (Bool-cases (contains_key present (codes "path"))) [
    | inr missing ↦ absurd (cc (rw (missing, check_required) at e))
    | inl path ↦ elim (Bool-cases (contains_key present (codes "index"))) [
      | inr missing ↦ absurd (cc (rw (path, missing, check_required) at e))
      | inl index ↦ elim (Bool-cases (get_uint32 V args (codes "index") == 0)) [
        | inl zero' ↦ absurd (cc (rw (path, index, zero', check_required) at e))
        | inr given ↦
            check_required_keeps args present (get_uint32 V args (codes "index")) keys j given
              (rw (path, index, given, check_required) at e)
      ]
    ]
  ]

  -- These are the path and the index of the arguments.
  abbrev pub Names : Var → ActionInfo Var → Type 0
  Names args info =
      (get_char V args (codes "path") ≡ some info.path)
      × (info.index ≡ get_uint32 V args (codes "index"))

  optional_lem :
      (args : Var) (present : List Text) (j : ℕ)
      → j ≡ get_uint32 V args (codes "index")
      → optional_index S V args present j ≡ get_uint32 V args (codes "index")
  optional_lem args present j e =
      elim (Bool-cases ((j == 0) && contains_key present (codes "index"))) [
        | inl missing ↦ rw missing refl
        | inr found ↦ rw found e
      ]

  process_htable-Names :
      (args : Var) (present keys : List Text) (info : ActionInfo Var)
      → process_htable S V args present (codes "path" ∷ codes "index" ∷ keys) ≡ some info
      → Names args info
  unfolding process_htable
  process_htable-Names args present keys info e =
      let required = codes "path" ∷ codes "index" ∷ keys in
      elim (Option-cases (check_required S V args present 0 required)) [
        | inl none' ↦ absurd (cc (rw (none', process_htable) at e))
        | inr (j, r) ↦ elim (Option-cases (get_char V args (codes "path"))) [
          | inl none' ↦ absurd (cc (rw (r, none', process_htable) at e))
          | inr (path, c) ↦ elim (Bool-cases (is_unknown (dm_get_object_id S path))) [
            | inl unknown' ↦ absurd (cc (rw (r, c, unknown', process_htable) at e))
            | inr known ↦
                let made = some-injective _ info (rw (r, c, known, process_htable) at e) in
                (
                  c ∙ ap (λ i. some i.path) made,
                  sym (ap (λ i. i.index) made)
                      ∙ optional_lem args present j (required_index args present keys j r),
                )
          ]
        ]
      ]

  pub process_args_common-Names :
      (args : Var) (keys : List Text) (info : ActionInfo Var)
      → process_args_common S V (some args) (codes "path" ∷ codes "index" ∷ keys) ≡ some info
      → Names args info
  unfolding process_args_common
  process_args_common-Names args keys info e = elim (Option-cases (V.htable_keys args)) [
    | inl none' ↦ absurd (cc (rw (none', process_args_common) at e))
    | inr (present, h) ↦
        process_htable-Names args present keys info (rw (h, process_args_common) at e)
  ]

  pub process_add_instance_args-Names :
      (args : Var) (info : ActionInfo Var)
      → process_add_instance_args S V (some args) ≡ some info
      → Names args info
  unfolding process_add_instance_args
  process_add_instance_args-Names args info e =
      elim (Option-cases (process_args_common S V (some args) add_inst_params_required)) [
        | inl none' ↦ absurd (cc (rw (none', process_add_instance_args) at e))
        | inr (first, c) ↦ elim (Option-cases (dm_get_object_info first.obj_id)) [
          | inl none' ↦ absurd (cc (rw (c, none', process_add_instance_args) at e))
          | inr (obj_info, o) ↦ elim (Option-cases (V.get_key args (codes "keys"))) [
            | inl none' ↦ absurd (cc (rw (c, o, none', process_add_instance_args) at e))
            | inr (keys_var, k) ↦ elim (Option-cases (find_key_value S V obj_info keys_var)) [
              | inl none' ↦ absurd (cc (rw (c, o, k, none', process_add_instance_args) at e))
              | inr (key_value, v) ↦
                  let made =
                    some-injective (record first { key_value = some key_value }) info
                      (rw (c, o, k, v, process_add_instance_args) at e) in
                  let (path, index) = process_args_common-Names args (codes "keys" ∷ []) first c in
                  (path ∙ ap (λ i. some i.path) made, sym (ap (λ i. i.index) made) ∙ index)
            ]
          ]
        ]
      ]

  -- dm_add_or_change_instance_impl and dm_add_instance read the same path and index.
  pub same_target :
      (args : Var) (info first : ActionInfo Var)
      → process_add_instance_args S V (some args) ≡ some info
      → process_args_common S V (some args) add_or_change_inst_args_required ≡ some first
      → (info.path ≡ first.path) × (info.index ≡ first.index)
  same_target args info first a c =
      let (path, index) = process_add_instance_args-Names args info a in
      let (path', index') = process_args_common-Names args [] first c in
      (some-injective info.path first.path (sym path ∙ path'), index ∙ sym index')
