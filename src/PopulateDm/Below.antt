-- ===== src/PopulateDm/Below.antt =====
-- populate_dm_startup.c: a task leads to tasks below it only.
use tr181_xpon.Base.{
  ℕ, zero, suc, ◌+◌, ◌*◌, ◌-◌, ◌≤◌, ◌<◌, ◌≡◌, refl, ap, ◌∙◌, true, false, Option, List, [], ◌∷◌,
  ◌++◌, arith, Text, inl, inr, Bool-cases, Option-cases, atoi_u32, ltb,
}
use tr181_xpon.Amxc.{IsLawful}
use tr181_xpon.World.{Env, World}
use tr181_xpon.DataModel.Change.{Var}
use tr181_xpon.DataModel.Args.{is_unknown}
use tr181_xpon.PonCtrl.{Vendor, pon_ctrl_get_object_content, pon_ctrl_get_list_of_instances}
use tr181_xpon.DmInfo.{dm_get_object_id}
use tr181_xpon.RestoreToHal.{stopped, is_onu}
use tr181_xpon.PopulateDm.{
  task_none, task_query_content, task_query_indexes, Task, Populate, task_create, query_children,
  mark_initialised, after_content, store_content, query_content, is_wanted, create_content_tasks,
  handle_indexes, indexes_of, check_return_values, query_indexes, perform, handle_task, rest_of,
  schedule_remaining_tasks,
}
use tr181_xpon.PopulateDm.Shape.{IsPath}
use tr181_xpon.PopulateDm.Children.{
  All, weight, Bounded, Adds, Adds-none, Adds-both, task_create-Adds, query_children-Adds,
}

mark_initialised-Adds :
    (max_nr_of_onus bound index : ℕ) (p q : Populate)
    → Adds bound p q
    → Adds bound p (mark_initialised max_nr_of_onus index q)
unfolding mark_initialised
mark_initialised-Adds n bound zero p q a = a
mark_initialised-Adds n bound (suc i) p q a = elim (Bool-cases (ltb n (suc i))) [
  | inl outside ↦ rw (outside, mark_initialised) a
  | inr inside ↦ rw (inside, mark_initialised) a
]

module _ (E : Env) (lawful : IsLawful E.strings) (vendor : Vendor E.variants)
    (max_nr_of_onus : ℕ) where
  after_content-Adds :
      (m bound : ℕ) (task : Task) (p : Populate)
      → IsPath m task.path
      → 2 * (6 - m) ≤ bound
      → Adds bound p (after_content E vendor max_nr_of_onus task p)
  unfolding after_content
  after_content-Adds m bound task p at b =
      let id = dm_get_object_id E.strings task.path in
      let q = query_children E vendor max_nr_of_onus task.path task.index id false p in
      let r = query_children E vendor max_nr_of_onus task.path task.index id true q in
      let added =
        Adds-both bound p q r
          (query_children-Adds E lawful vendor max_nr_of_onus m bound task.path task.index id false
            p at refl b)
          (query_children-Adds E lawful vendor max_nr_of_onus m bound task.path task.index id true q
            at refl b) in
      elim (Bool-cases (is_unknown id)) [
        | inl unknown' ↦ rw (unknown', after_content) (Adds-none bound p p refl)
        | inr known ↦ elim (Bool-cases (is_onu id)) [
          | inl onu' ↦
              rw (known, onu', after_content)
                (mark_initialised-Adds max_nr_of_onus bound task.index p r added)
          | inr other ↦ rw (known, other, after_content) added
        ]
      ]

  query_content-Adds :
      (m bound : ℕ) (task : Task) (p : Populate) (w : World E)
      → IsPath m task.path
      → 2 * (6 - m) ≤ bound
      → Adds bound p (query_content E vendor max_nr_of_onus task p w).0
  unfolding query_content
  query_content-Adds m bound task p w at b =
      let (answer, w') = pon_ctrl_get_object_content E vendor task.path task.index w in
      elim (Option-cases (check_return_values E.variants answer)) [
        | inl failed ↦ rw (failed, query_content) (Adds-none bound p p refl)
        | inr (ret, e) ↦ elim (Bool-cases (store_content E vendor max_nr_of_onus task ret w').0) [
          | inl goes_on ↦ rw (e, goes_on, query_content) (after_content-Adds m bound task p at b)
          | inr stops ↦ rw (e, stops, query_content) (Adds-none bound p p refl)
        ]
      ]

  create_content_tasks-Adds :
      (m bound : ℕ) (path : Text) (w : World E) (pieces : List Text) (p : Populate)
      → IsPath m path
      → 2 * (6 - m) < bound
      → Adds bound p (create_content_tasks E vendor max_nr_of_onus path w pieces p)
  unfolding create_content_tasks
  create_content_tasks-Adds m bound path w [] p at b = Adds-none bound p p refl
  create_content_tasks-Adds m bound path w (piece ∷ pieces) p at b =
      let q = task_create E.allocates path (atoi_u32 piece) task_query_content p in
      let added =
        task_create-Adds E.allocates bound path (atoi_u32 piece) task_query_content p
          (record { depth = m; path = at; below = omega arith }) in
      elim (Bool-cases (is_wanted E vendor max_nr_of_onus path w p.s_onu_initialised piece)) [
        | inl wanted ↦
            rw (wanted, create_content_tasks)
              (Adds-both bound p q (create_content_tasks E vendor max_nr_of_onus path w pieces q)
                added (create_content_tasks-Adds m bound path w pieces q at b))
        | inr unwanted ↦
            rw (unwanted, create_content_tasks)
              (create_content_tasks-Adds m bound path w pieces p at b)
      ]

  handle_indexes-Adds :
      (m bound : ℕ) (path : Text) (answer : Option (Var E)) (p : Populate) (w : World E)
      → IsPath m path
      → 2 * (6 - m) < bound
      → Adds bound p (handle_indexes E vendor max_nr_of_onus path answer p w)
  unfolding handle_indexes
  handle_indexes-Adds m bound path answer p w at b =
      let nothing = Adds-none bound p p refl in
      elim (Option-cases (check_return_values E.variants answer)) [
        | inl none' ↦ rw (none', handle_indexes) nothing
        | inr (ret, e) ↦ elim (Option-cases (indexes_of E vendor max_nr_of_onus ret)) [
          | inl none' ↦ rw (e, none', handle_indexes) nothing
          | inr (indexes, i) ↦ elim (Option-cases (E.strings.split_to_llist indexes b',')) [
            | inl none' ↦ rw (e, i, none', handle_indexes) nothing
            | inr (pieces, s) ↦
                rw (e, i, s, handle_indexes)
                  (create_content_tasks-Adds m bound path w pieces p at b)
          ]
        ]
      ]

  pub query_indexes-Adds :
      (m bound : ℕ) (path : Text) (p : Populate) (w : World E)
      → IsPath m path
      → 2 * (6 - m) < bound
      → Adds bound p (query_indexes E vendor max_nr_of_onus path p w).0
  unfolding query_indexes
  query_indexes-Adds m bound path p w at b =
      let (answer, w') = pon_ctrl_get_list_of_instances E vendor path w in
      handle_indexes-Adds m bound path answer p w' at b

  perform-Adds :
      (bound : ℕ) (task : Task) (p : Populate) (w : World E)
      → Bounded (suc bound) task
      → Adds bound p (perform E vendor max_nr_of_onus task p w).0
  perform-Adds bound task p w b =
      elim (task.type)
          as (λ t.
            2 * (6 - b.depth) + weight t < suc bound
            → Adds bound p (perform E vendor max_nr_of_onus (record task { type = t }) p w).0) [
              | task_none ↦ λ h. Adds-none bound p p refl
              | task_query_indexes ↦
                  λ h. query_indexes-Adds b.depth bound task.path p w b.path (omega arith)
              | task_query_content ↦ λ h.
                  query_content-Adds b.depth bound (record task { type = task_query_content }) p w
                    b.path (omega arith)
            ]
        b.below

  -- One step takes the first task, and what it adds is below the bound of that task.
  pub handle_task-Adds :
      (bound : ℕ) (task : Task) (tasks : List Task) (p : Populate) (w : World E)
      → p.s_tasks ≡ task ∷ tasks
      → Bounded (suc bound) task
      → (more : List Task) × ((handle_task E vendor max_nr_of_onus p w).0.s_tasks ≡ tasks ++ more)
        × All (Bounded bound) more
  unfolding handle_task schedule_remaining_tasks
  handle_task-Adds bound task tasks p w e b =
      let q = record p { s_tasks = task ∷ tasks } in
      let same : p ≡ q = λ i. record p { s_tasks = e i } in
      let (more, f, good) =
        perform-Adds bound task (record q { s_timer_handle_tasks = stopped }) w b in
      (
        more,
        ap (λ s. (handle_task E vendor max_nr_of_onus s w).0.s_tasks) same ∙ ap rest_of f,
        good,
      )
