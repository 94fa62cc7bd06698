-- ===== src/DataModel/Existence/Remove.antt =====
-- data_model.c: an instance is gone once it has been removed, and removing it again does nothing.
use tr181_xpon.Base.{
  ◌≡◌, refl, ◌∙◌, ap, sym, subst, true, false, Option, none, some, [], ◌∷◌, Text, Bool-cases,
  Option-cases, inl, inr, is_some,
}
use tr181_xpon.Amxd.{del_inst, Transaction}
use tr181_xpon.World.{Env, World}
use tr181_xpon.DataModel.Args.{ActionInfo, process_remove_instance_args}
use tr181_xpon.DataModel.Reads.{dm_does_instance_exist}
use tr181_xpon.DataModel.Change.{Var, apply}
use tr181_xpon.DataModel.Remove.{
  delete_instance, remove_instance, dm_remove_instance, dm_actions_set_ignore_param_reads,
}
use tr181_xpon.DataModel.Existence.{AppliesActions}
use tr181_xpon.DataModel.Existence.Adding.{exist_lem}

module _ (E : Env) (laws : AppliesActions E.amxd) where
  -- The instance is not there, and removing it succeeds and changes nothing.
  abbrev Gone : ActionInfo (Var E) → World E → Type 0
  Gone info w =
      (dm_does_instance_exist E.amxd w.store info.path info.index ≡ false)
      × (remove_instance E info w ≡ (true, w))

  no_template-Gone :
      (info : ActionInfo (Var E)) (w : World E) → E.amxd.find w.store info.path ≡ none → Gone info w
  unfolding remove_instance dm_does_instance_exist
  no_template-Gone info w f = (rw (f, dm_does_instance_exist) refl, rw (f, remove_instance) refl)

  no_instance-Gone :
      (info : ActionInfo (Var E)) (w : World E) (templ : Text)
      → E.amxd.find w.store info.path ≡ some templ
      → E.amxd.is_template w.store templ ≡ true
      → E.amxd.get_instance w.store templ info.index ≡ none
      → Gone info w
  unfolding remove_instance
  no_instance-Gone info w templ f kind absent = (
    exist_lem E laws w.store info.path templ info.index f ∙ ap is_some absent,
    rw (f, kind, absent, remove_instance) refl,
  )

  delete_instance-Gone :
      (info : ActionInfo (Var E)) (w : World E) (templ : Text)
      → E.amxd.find w.store info.path ≡ some templ
      → E.amxd.is_template w.store templ ≡ true
      → (delete_instance E templ info.index w).0 ≡ true
      → Gone info (delete_instance E templ info.index w).1
  unfolding delete_instance dm_actions_set_ignore_param_reads
  delete_instance-Gone info w templ f kind ok =
      let t : Transaction (Var E) = record { object = templ; actions = [] } in
      let t' : Transaction (Var E) = record {
        object = templ;
        actions = del_inst info.index ∷ [];
      } in
      elim (Bool-cases (E.amxd.can_select w.store templ)) [
        | inr fails ↦ absurd (cc (rw (fails, delete_instance) at ok))
        | inl selects ↦ elim (Bool-cases (E.amxd.can_append w.store t (del_inst info.index))) [
          | inr fails ↦ absurd (cc (rw (selects, fails, delete_instance) at ok))
          | inl appends ↦ elim (Option-cases (E.amxd.apply true w.store t')) [
            | inl fails ↦ absurd (cc (rw (selects, appends, fails, apply, delete_instance) at ok))
            | inr (s', done) ↦
                rw (selects, appends, done, apply, delete_instance)
                  (no_instance-Gone info (record w { store = s'; s_ignore_param_reads = false })
                    templ (laws.keeps_selected true w.store s' t' info.path done f)
                    (laws.keeps_kind true w.store s' t' done ∙ kind)
                    (laws.deletes true w.store s' templ info.index done))
          ]
        ]
      ]

  remove_instance-Gone :
      (info : ActionInfo (Var E)) (w : World E)
      → (remove_instance E info w).0 ≡ true
      → Gone info (remove_instance E info w).1
  unfolding remove_instance
  remove_instance-Gone info w ok = elim (Option-cases (E.amxd.find w.store info.path)) [
    | inl none' ↦
        subst (λ r. Gone info r.1) (sym (no_template-Gone info w none').1)
          (no_template-Gone info w none')
    | inr (templ, f) ↦ elim (Bool-cases (E.amxd.is_template w.store templ)) [
      | inr other ↦ absurd (cc (rw (f, other, remove_instance) at ok))
      | inl kind ↦ elim (Option-cases (E.amxd.get_instance w.store templ info.index)) [
        | inl absent ↦
            let gone = no_instance-Gone info w templ f kind absent in
            subst (λ r. Gone info r.1) (sym gone.1) gone
        | inr (obj, present) ↦
            let runs : remove_instance E info w ≡ delete_instance E templ info.index w =
              rw (f, kind, present, remove_instance) refl in
            subst (λ r. Gone info r.1) (sym runs)
              (delete_instance-Gone info w templ f kind (ap (λ r. r.0) (sym runs) ∙ ok))
      ]
    ]
  ]

  -- If transactions do what libamxd documents and dm_remove_instance succeeds, its arguments are
  -- accepted, the instance that they name does not exist afterwards, and the same call once more
  -- succeeds and changes nothing.
  pub dm_remove_instance-Gone :
      (args : Option (Var E)) (w : World E)
      → (dm_remove_instance E args w).0 ≡ true
      → let w' = (dm_remove_instance E args w).1 in
        (info : ActionInfo (Var E)) × (process_remove_instance_args E.strings E.variants args
          ≡ some info)
        × (dm_does_instance_exist E.amxd w'.store info.path info.index ≡ false)
        × (dm_remove_instance E args w' ≡ (true, w'))
  unfolding dm_remove_instance
  dm_remove_instance-Gone args w ok =
      elim (Option-cases (process_remove_instance_args E.strings E.variants args)) [
        | inl none' ↦ absurd (cc (rw (none', dm_remove_instance) at ok))
        | inr (info, e) ↦
            let runs : (v : World E) → dm_remove_instance E args v ≡ remove_instance E info v =
              λ v. rw (e, dm_remove_instance) refl in
            let (gone, again) =
              subst (λ r. Gone info r.1) (sym (runs w))
                (remove_instance-Gone info w (ap (λ r. r.0) (sym (runs w)) ∙ ok)) in
            (info, e, gone, runs (dm_remove_instance E args w).1 ∙ again)
      ]
