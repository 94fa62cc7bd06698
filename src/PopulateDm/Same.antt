-- ===== src/PopulateDm/Same.antt =====
-- populate_dm_startup.c: what a query leaves alone.
use tr181_xpon.Base.{
  ◌≡◌, refl, ◌∙◌, ℕ, zero, suc, Bool, true, false, Option, List, [], ◌∷◌, arith, Text, ◌≤◌,
  Bool-cases, Option-cases, inl, inr, ltb,
}
use tr181_xpon.DmInfo.{ObjectId, dm_get_object_info, dm_get_object_id}
use tr181_xpon.RestoreToHal.{is_onu}
use tr181_xpon.World.{Env, World}
use tr181_xpon.PonCtrl.{Vendor, pon_ctrl_get_object_content, pon_ctrl_get_list_of_instances}
use tr181_xpon.DataModel.Args.{is_unknown}
use tr181_xpon.DataModel.Change.{Var}
use tr181_xpon.PopulateDm.{
  TaskType, task_none, task_query_indexes, task_query_content, Task, Populate, task_create,
  create_child_tasks, create_content_tasks, is_wanted, query_children, children_of,
  mark_initialised, after_content, store_content, query_content, handle_indexes, indexes_of,
  check_return_values, query_indexes, perform,
}

-- What a query leaves alone: the timer and the counter of the queries, and the array beyond
-- its end.
pub record Same (n : ℕ) (p p' : Populate) : Type 0 where
  pub timer : p'.s_timer_query_onus ≡ p.s_timer_query_onus
  pub cntr : p'.s_cntr_query_onus ≡ p.s_cntr_query_onus
  pub beyond : (i : ℕ) → n ≤ i → p'.s_onu_initialised i ≡ p.s_onu_initialised i

pub Same-refl : (n : ℕ) (p : Populate) → Same n p p
Same-refl n p = record { timer = refl; cntr = refl; beyond = λ i h. refl }

Same-trans : {n : ℕ} {p q r : Populate} → Same n p q → Same n q r → Same n p r
Same-trans s t = record {
  timer = t.timer ∙ s.timer;
  cntr = t.cntr ∙ s.cntr;
  beyond = λ i h. t.beyond i h ∙ s.beyond i h;
}

Same-task_create :
    (n : ℕ) (ok : Bool) (path : Text) (index : ℕ) (type : TaskType) (p : Populate)
    → Same n p (task_create ok path index type p)
unfolding task_create
Same-task_create n true path index type p = record {
  timer = refl;
  cntr = refl;
  beyond = λ i h. refl;
}
Same-task_create n false path index type p = Same-refl n p

Same-child_tasks :
    (n : ℕ) (ok : Bool) (path : Text) (index : ℕ) (templates : Bool) (cs : List Text) (p : Populate)
    → Same n p (create_child_tasks ok path index templates cs p)
unfolding create_child_tasks
Same-child_tasks n ok path index templates [] p = Same-refl n p
Same-child_tasks n ok path index templates (c ∷ cs) p =
    Same-trans (Same-task_create n ok _ 0 _ p) (Same-child_tasks n ok path index templates cs _)

Same-mark : (n index : ℕ) (p : Populate) → Same n p (mark_initialised n index p)
unfolding mark_initialised
Same-mark n zero p = Same-refl n p
Same-mark n (suc k) p = elim (Bool-cases (ltb n (suc k))) [
  | inl beyond ↦ rw (beyond, mark_initialised) (Same-refl n p)
  | inr within ↦
      rw (within, mark_initialised)
        (record { timer = refl; cntr = refl; beyond = λ i h. ground arith })
]

module _ (E : Env) (vendor : Vendor E.variants) (n : ℕ) where
  Same-children :
      (path : Text) (index : ℕ) (id : ObjectId) (templates : Bool) (p : Populate)
      → Same n p (query_children E vendor n path index id templates p)
  unfolding query_children
  Same-children path index id templates p = elim (Option-cases (dm_get_object_info id)) [
    | inl none' ↦ rw (none', query_children) (Same-refl n p)
    | inr (info, e) ↦ elim (Option-cases (children_of info templates)) [
      | inl none' ↦ rw (e, none', query_children) (Same-refl n p)
      | inr (text, t) ↦ elim (Option-cases (E.strings.split_to_llist text b',')) [
        | inl none' ↦ rw (e, t, none', query_children) (Same-refl n p)
        | inr (cs, s) ↦
            rw (e, t, s, query_children) (Same-child_tasks n E.allocates path index templates cs p)
      ]
    ]
  ]

  Same-after_content : (task : Task) (p : Populate) → Same n p (after_content E vendor n task p)
  unfolding after_content
  Same-after_content task p =
      elim (Bool-cases (is_unknown (dm_get_object_id E.strings task.path))) [
        | inl unknown' ↦ rw (unknown', after_content) (Same-refl n p)
        | inr known ↦ elim (Bool-cases (is_onu (dm_get_object_id E.strings task.path))) [
          | inl onu' ↦ rw (known, onu', after_content) (Same-trans both (Same-mark n task.index _))
          | inr other ↦ rw (known, other, after_content) both
        ]
      ]
    where
      id : ObjectId
      id = dm_get_object_id E.strings task.path

      both : Same n p (
          query_children E vendor n task.path task.index id true
            (query_children E vendor n task.path task.index id false p))
      both =
          Same-trans (Same-children task.path task.index id false p)
            (Same-children task.path task.index id true _)

  Same-query_content :
      (task : Task) (p : Populate) (w : World E) → Same n p (query_content E vendor n task p w).0
  unfolding query_content
  Same-query_content task p w =
      let answered = pon_ctrl_get_object_content E vendor task.path task.index w in
      elim (Option-cases (check_return_values E.variants answered.0)) [
        | inl none' ↦ rw (none', query_content) (Same-refl n p)
        | inr (ret, e) ↦ elim (Bool-cases (store_content E vendor n task ret answered.1).0) [
          | inl goes_on ↦ rw (e, goes_on, query_content) (Same-after_content task p)
          | inr ends ↦ rw (e, ends, query_content) (Same-refl n p)
        ]
      ]

  Same-content_tasks :
      (path : Text) (w : World E) (pieces : List Text) (p : Populate)
      → Same n p (create_content_tasks E vendor n path w pieces p)
  unfolding create_content_tasks
  Same-content_tasks path w [] p = Same-refl n p
  Same-content_tasks path w (piece ∷ pieces) p =
      elim (Bool-cases (is_wanted E vendor n path w p.s_onu_initialised piece)) [
        | inl wanted ↦
            rw (wanted, create_content_tasks)
              (Same-trans (Same-task_create n E.allocates path _ task_query_content p)
                (Same-content_tasks path w pieces _))
        | inr unwanted ↦ rw (unwanted, create_content_tasks) (Same-content_tasks path w pieces p)
      ]

  Same-handle_indexes :
      (path : Text) (answer : Option (Var E)) (p : Populate) (w : World E)
      → Same n p (handle_indexes E vendor n path answer p w)
  unfolding handle_indexes
  Same-handle_indexes path answer p w =
      elim (Option-cases (check_return_values E.variants answer)) [
        | inl none' ↦ rw (none', handle_indexes) (Same-refl n p)
        | inr (ret, e) ↦ elim (Option-cases (indexes_of E vendor n ret)) [
          | inl none' ↦ rw (e, none', handle_indexes) (Same-refl n p)
          | inr (indexes, i) ↦ elim (Option-cases (E.strings.split_to_llist indexes b',')) [
            | inl none' ↦ rw (e, i, none', handle_indexes) (Same-refl n p)
            | inr (pieces, s) ↦ rw (e, i, s, handle_indexes) (Same-content_tasks path w pieces p)
          ]
        ]
      ]

  pub Same-query_indexes :
      (path : Text) (p : Populate) (w : World E) → Same n p (query_indexes E vendor n path p w).0
  unfolding query_indexes
  Same-query_indexes path p w =
      let answered = pon_ctrl_get_list_of_instances E vendor path w in
      Same-handle_indexes path answered.0 p answered.1

  pub Same-perform :
      (task : Task) (p : Populate) (w : World E) → Same n p (perform E vendor n task p w).0
  unfolding query_content store_content
  Same-perform task p w =
      elim (task.type) as (λ t. Same n p (perform E vendor n (record task { type = t }) p w).0) [
        | task_none ↦ Same-refl n p
        | task_query_indexes ↦ Same-query_indexes task.path p w
        | task_query_content ↦ Same-query_content task p w
      ]
