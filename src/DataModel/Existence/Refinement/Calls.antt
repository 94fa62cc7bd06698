-- ===== src/DataModel/Existence/Refinement/Calls.antt =====
-- data_model.c: the calls of the vendor module on a template object implement that set.
use mathlib.Core.Option.{some-injective}
use tr181_xpon.Base.{
  ◌≡◌, refl, ◌≢◌, ◌∙◌, ap, sym, subst, ℕ, Bool, true, false, some, List, [], ◌∷◌, Text, codes,
  Bool-cases, Option-cases, inl, inr, if◌then◌else◌,
}
use tr181_xpon.Amxc.{get_char}
use tr181_xpon.World.{Env, World}
use tr181_xpon.DataModel.Args.{
  ActionInfo, process_args_common, process_add_instance_args, process_remove_instance_args,
  add_or_change_inst_args_required,
}
use tr181_xpon.DataModel.Args.Target.{
  Names, process_args_common-Names, process_add_instance_args-Names,
}
use tr181_xpon.DataModel.Reads.{dm_does_instance_exist}
use tr181_xpon.DataModel.Change.{Var, dm_change_object}
use tr181_xpon.DataModel.Add.{add_instance, dm_add_instance, dm_add_or_change_instance_impl}
use tr181_xpon.DataModel.Add.Atomic.{dm_add_instance_failed}
use tr181_xpon.DataModel.Remove.{remove_instance, dm_remove_instance}
use tr181_xpon.DataModel.Existence.{AppliesActions, ActsAlone}
use tr181_xpon.DataModel.Existence.Change.{dm_change_object-SameObjects}
use tr181_xpon.DataModel.Existence.Add.{dm_add_instance-Exists}
use tr181_xpon.DataModel.Existence.Remove.{dm_remove_instance-Gone}
use tr181_xpon.DataModel.Existence.Others.{
  shown, SameObjects-shown, add_instance-shown, remove_instance-shown, remove_instance_failed,
}
use tr181_xpon.DataModel.Existence.Refinement.{
  InstanceCall, add, remove, add_or_change, change, args_of, index_in, perform_call, perform_calls,
  put, meaning, replay_calls, AllOn, put_lem,
}

module _ (E : Env) (laws : AppliesActions E.amxd) (alone : ActsAlone E.amxd) where
  abbrev set_of : Text → World E → ℕ → Bool
  set_of path w j = shown E laws alone w path j

  -- The set after a call, with its result.
  abbrev Refines : Text → InstanceCall E → World E → Bool × World E → Type 0
  Refines path c w (ok, w') =
      (j : ℕ) → set_of path w' j ≡ (if ok then meaning E c (set_of path w) else set_of path w) j

  -- The template object and the index that accepted arguments name.
  at_target :
      (path : Text) (args : Var E) (info : ActionInfo (Var E)) (P : Text → ℕ → Type 0)
      → get_char E.variants args (codes "path") ≡ some path
      → Names E.strings E.variants args info
      → P info.path info.index
      → P path (index_in E args)
  at_target path args info P named (p, i) h =
      subst (P path) i
        (subst (λ q. P q info.index) (some-injective info.path path (sym p ∙ named)) h)

  -- The other instances stay.
  Keeps : Text → Var E → World E → World E → Type 0
  Keeps path args w w' =
      (other : ℕ) → index_in E args ≢ other → set_of path w' other ≡ set_of path w other

  add-Keeps :
      (path : Text) (args : Var E) (w : World E)
      → get_char E.variants args (codes "path") ≡ some path
      → Keeps path args w (dm_add_instance E (some args) w).1
  unfolding dm_add_instance Keeps
  add-Keeps path args w named other differ =
      elim (Option-cases (process_add_instance_args E.strings E.variants (some args))) [
        | inl none' ↦ rw (none', dm_add_instance) refl
        | inr (info, e) ↦
            let names = process_add_instance_args-Names E.strings E.variants args info e in
            rw (e, dm_add_instance)
              (at_target path args info
                (λ q i. i ≢ other → set_of q (add_instance E info w).1 other ≡ set_of q w other)
                named names (add_instance-shown E laws alone info other w) differ)
      ]

  remove-Keeps :
      (path : Text) (args : Var E) (w : World E)
      → get_char E.variants args (codes "path") ≡ some path
      → Keeps path args w (dm_remove_instance E (some args) w).1
  unfolding dm_remove_instance Keeps
  remove-Keeps path args w named other differ =
      elim (Option-cases (process_remove_instance_args E.strings E.variants (some args))) [
        | inl none' ↦ rw (none', dm_remove_instance) refl
        | inr (info, e) ↦
            let names = process_args_common-Names E.strings E.variants args [] info e in
            rw (e, dm_remove_instance)
              (at_target path args info
                (λ q i. i ≢ other → set_of q (remove_instance E info w).1 other ≡ set_of q w other)
                named names (remove_instance-shown E laws alone info other w) differ)
      ]

  store_shown :
      (path : Text) (s s' : E.amxd.Store) (j : ℕ)
      → s' ≡ s
      → dm_does_instance_exist E.amxd s' path j ≡ dm_does_instance_exist E.amxd s path j
  store_shown path s s' j e = ap (λ x. dm_does_instance_exist E.amxd x path j) e

  change-Refines :
      (path : Text) (args : Var E) (w : World E)
      → Refines path (change args) w (dm_change_object E (some args) w)
  change-Refines path args w j =
      let same =
        SameObjects-shown E laws alone w (dm_change_object E (some args) w).1 path j
          (dm_change_object-SameObjects E laws (some args) w) in
      elim (Bool-cases (dm_change_object E (some args) w).0) [
        | inl ok ↦ rw ok same
        | inr fails ↦ rw fails same
      ]

  add-Refines :
      (path : Text) (args : Var E) (w : World E)
      → get_char E.variants args (codes "path") ≡ some path
      → Refines path (add args) w (dm_add_instance E (some args) w)
  unfolding Keeps
  add-Refines path args w named j = elim (Bool-cases (dm_add_instance E (some args) w).0) [
    | inl ok ↦
        let w' = (dm_add_instance E (some args) w).1 in
        let (info, e, before, after) = dm_add_instance-Exists E laws (some args) w ok in
        let names = process_add_instance_args-Names E.strings E.variants args info e in
        rw ok (
          put_lem E (index_in E args) true (set_of path w) (set_of path w')
            (at_target path args info (λ q i. set_of q w' i ≡ true) named names after)
            (add-Keeps path args w named) j)
    | inr fails ↦
        rw fails (store_shown path w.store _ j (dm_add_instance_failed E w (some args) fails).0)
  ]

  removal_failed :
      (args : Var E) (w : World E)
      → (dm_remove_instance E (some args) w).0 ≡ false
      → (dm_remove_instance E (some args) w).1.store ≡ w.store
  unfolding dm_remove_instance
  removal_failed args w fails =
      elim (Option-cases (process_remove_instance_args E.strings E.variants (some args))) [
        | inl none' ↦ rw (none', dm_remove_instance) refl
        | inr (info, e) ↦
            rw (e, dm_remove_instance)
              (remove_instance_failed E laws alone info w (rw (e, dm_remove_instance) at fails))
      ]

  remove-Refines :
      (path : Text) (args : Var E) (w : World E)
      → get_char E.variants args (codes "path") ≡ some path
      → Refines path (remove args) w (dm_remove_instance E (some args) w)
  unfolding Keeps
  remove-Refines path args w named j = elim (Bool-cases (dm_remove_instance E (some args) w).0) [
    | inl ok ↦
        let w' = (dm_remove_instance E (some args) w).1 in
        let (info, e, gone, again) = dm_remove_instance-Gone E laws (some args) w ok in
        let names = process_args_common-Names E.strings E.variants args [] info e in
        rw ok (
          put_lem E (index_in E args) false (set_of path w) (set_of path w')
            (at_target path args info (λ q i. set_of q w' i ≡ false) named names gone)
            (remove-Keeps path args w named) j)
    | inr fails ↦ rw fails (store_shown path w.store _ j (removal_failed args w fails))
  ]

  -- An instance that exists is changed.
  existing :
      (path : Text) (args : Var E) (w : World E) (j : ℕ)
      → (info : ActionInfo (Var E))
      → process_args_common E.strings E.variants (some args) add_or_change_inst_args_required
        ≡ some info
      → get_char E.variants args (codes "path") ≡ some path
      → dm_does_instance_exist E.amxd w.store info.path info.index ≡ true
      → set_of path (dm_change_object E (some args) w).1 j
        ≡ (if (dm_change_object E (some args) w).0
              then put E (index_in E args) true (set_of path w)
              else set_of path w)
            j
  existing path args w j info e named there =
      let w' = (dm_change_object E (some args) w).1 in
      let names = process_args_common-Names E.strings E.variants args [] info e in
      let same : (i : ℕ) → set_of path w' i ≡ set_of path w i = λ i.
        SameObjects-shown E laws alone w w' path i
          (dm_change_object-SameObjects E laws (some args) w) in
      elim (Bool-cases (dm_change_object E (some args) w).0) [
        | inl ok ↦ rw ok (
            put_lem E (index_in E args) true (set_of path w) (set_of path w')
              (same (index_in E args)
                ∙ at_target path args info (λ q i. set_of q w i ≡ true) named names there)
              (λ i differ. same i) j)
        | inr fails ↦ rw fails (same j)
      ]

  add_or_change-Refines :
      (path : Text) (args : Var E) (w : World E)
      → get_char E.variants args (codes "path") ≡ some path
      → Refines path (add_or_change args) w (dm_add_or_change_instance_impl E (some args) w)
  unfolding dm_add_or_change_instance_impl
  add_or_change-Refines path args w named j =
      elim (Option-cases
        (process_args_common E.strings E.variants (some args) add_or_change_inst_args_required)) [
          | inl none' ↦ rw (none', dm_add_or_change_instance_impl) refl
          | inr (info, e) ↦
              elim (Bool-cases (dm_does_instance_exist E.amxd w.store info.path info.index)) [
                | inl there ↦
                    rw (e, there, dm_add_or_change_instance_impl)
                      (existing path args w j info e named there)
                | inr missing ↦
                    rw (e, missing, dm_add_or_change_instance_impl)
                      (add-Refines path args w named j)
              ]
        ]

  call-Refines :
      (path : Text) (c : InstanceCall E) (w : World E)
      → get_char E.variants (args_of E c) (codes "path") ≡ some path
      → Refines path c w (perform_call E c w)
  call-Refines path (add args) w named = add-Refines path args w named
  call-Refines path (remove args) w named = remove-Refines path args w named
  call-Refines path (add_or_change args) w named = add_or_change-Refines path args w named
  call-Refines path (change args) w named = change-Refines path args w

  -- If transactions do what libamxd documents, any calls of the vendor module that name the same
  -- template object work on the set of the indexes of its instances: those that return 0 put the
  -- index of their arguments into it, take it out or leave it, and those that fail leave it.
  pub calls_refine_set :
      (path : Text) (cs : List (InstanceCall E)) (w : World E)
      → AllOn E path cs
      → (j : ℕ)
      → dm_does_instance_exist E.amxd (perform_calls E cs w).store path j
        ≡ replay_calls E cs w (λ i. dm_does_instance_exist E.amxd w.store path i) j
  calls_refine_set path [] w h j = refl
  calls_refine_set path (c ∷ cs) w (named, h) j =
      let (ok, w') = perform_call E c w in
      calls_refine_set path cs w' h j
      ∙ ap (λ set. replay_calls E cs w' set j) (λ i k. call-Refines path c w named k i)
