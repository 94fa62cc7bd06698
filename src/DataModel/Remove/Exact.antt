-- ===== src/DataModel/Remove/Exact.antt =====
-- data_model.c: what is removed, and that reads are not ignored for longer than that.
use tr181_xpon.Base.{◌≡◌, ◌∙◌, ap, true, false, Option, none, some, List, [], ◌∷◌, map, arith, Text}
use tr181_xpon.Amxd.{Action, del_inst, Transaction}
use tr181_xpon.World.{Env, World}
use tr181_xpon.DataModel.Args.{ActionInfo}
use tr181_xpon.DataModel.Transactions.Params.{extend, extend_nil, extend-extend}
use tr181_xpon.DataModel.Change.{Var}
use tr181_xpon.DataModel.Remove.{remove_instance, dm_remove_instance, delete_all}

module _ (E : Env) where
  -- Whatever the arguments and whatever fails, reads are not ignored after dm_remove_instance if
  -- they were not before.
  dm_remove_instance_reads :
      (args : Option (Var E)) (w : World E)
      → w.s_ignore_param_reads ≡ false
      → (dm_remove_instance E args w).1.s_ignore_param_reads ≡ false
  unfolding dm_remove_instance remove_instance
  dm_remove_instance_reads args w h = ground arith

  -- Removing an instance that exists applies one transaction, which deletes that instance and
  -- no other, while reads are ignored; the function succeeds exactly if the library does.
  remove_instance_found :
      (info : ActionInfo (Var E)) (w : World E) (templ obj : Text)
      → E.amxd.find w.store info.path ≡ some templ
      → E.amxd.is_template w.store templ ≡ true
      → E.amxd.get_instance w.store templ info.index ≡ some obj
      → E.amxd.can_select w.store templ ≡ true
      → E.amxd.can_append w.store (record { object = templ; actions = [] }) (del_inst info.index)
        ≡ true
      → remove_instance E info w
        ≡ elim (E.amxd.apply true w.store
            (record { object = templ; actions = del_inst info.index ∷ [] })) [
              | none ↦ (false, record w { s_ignore_param_reads = false })
              | some store ↦ (true, record w { store = store; s_ignore_param_reads = false })
            ]
  unfolding remove_instance
  remove_instance_found info w templ obj f t g s a = ground arith

  -- If the library accepts every deletion, the transaction of remove_all_instances deletes the
  -- index of each instance of the list once, in order, and nothing else.
  delete_all_lem :
      (s : E.amxd.Store)
      → ((t : Transaction (Var E)) (a : Action (Var E)) → E.amxd.can_append s t a ≡ true)
      → (t : Transaction (Var E)) (objects : List Text)
      → delete_all E s t objects
        ≡ some (extend t (map (λ o. del_inst (E.amxd.get_index o)) objects))
  unfolding delete_all
  delete_all_lem s accepts t [] = ap some (extend_nil t)
  delete_all_lem s accepts t (o ∷ os) =
      rw (accepts t (del_inst (E.amxd.get_index o)), delete_all)
        (delete_all_lem s accepts (extend t (del_inst (E.amxd.get_index o) ∷ [])) os
          ∙ ap some (
              extend-extend t (del_inst (E.amxd.get_index o) ∷ [])
                (map (λ x. del_inst (E.amxd.get_index x)) os)))
