-- ===== src/System/Frame/Queries.antt =====
-- What the two timers of populate_dm_startup.c leave alone.
use tr181_xpon.Base.{
  ℕ, some, ◌%◌, ◌^◌, ◌+◌, Text, codes, ◌==◌, ltb, Bool-cases, Option-cases, inl, inr,
}
use tr181_xpon.World.{Env, World}
use tr181_xpon.PonCtrl.{Vendor, pon_ctrl_get_object_content}
use tr181_xpon.DataModel.Change.{Var}
use tr181_xpon.DataModel.Local.{Local, Local-refl, dm_change_object-Local}
use tr181_xpon.DataModel.Local.Calls.{dm_add_or_change_instance_impl-Local}
use tr181_xpon.PopulateDm.{
  Task, Populate, task_none, task_query_indexes, task_query_content, store_content,
  check_return_values, query_content, query_indexes, perform, handle_task, query_onu_instances,
  all_onus_initialised, query_onus_nr_times, onu_template,
}
use tr181_xpon.PopulateDm.Timers.{Fire, query_timer, task_timer, fire, is_started, tasks_cases}
use tr181_xpon.System.Frame.{Quiet, Quiet-refl, Quiet-trans, Local-Quiet, list-Quiet, content-Quiet}

module _ (E : Env) (vendor : Vendor E.variants) (n : ℕ) where
  store_content-Local :
      (task : Task) (ret : Var E) (w : World E) → Local E w (store_content E vendor n task ret w).1
  unfolding store_content
  store_content-Local task ret w =
      elim (Option-cases
        (E.variants.add_key ret (codes "path") (E.variants.of_cstring task.path))) [
          | inl none' ↦ rw (none', store_content) (Local-refl E w)
          | inr (ret', e) ↦ elim (Bool-cases (task.index == 0)) [
            | inl zero' ↦ rw (e, zero', store_content) (dm_change_object-Local E (some ret') w)
            | inr given ↦
                elim (Option-cases
                  (E.variants.add_key ret' (codes "index") (E.variants.of_uint32 task.index))) [
                    | inl none' ↦ rw (e, given, none', store_content) (Local-refl E w)
                    | inr (ret'', f) ↦
                        rw (e, given, f, store_content)
                          (dm_add_or_change_instance_impl-Local E (some ret'') w)
                  ]
          ]
        ]

  query_content-Quiet :
      (task : Task) (p : Populate) (w : World E) → Quiet E w (query_content E vendor n task p w).1
  unfolding query_content
  query_content-Quiet task p w =
      let (answer, w') = pon_ctrl_get_object_content E vendor task.path task.index w in
      let asked = content-Quiet E vendor task.path task.index w in
      elim (Option-cases (check_return_values E.variants answer)) [
        | inl none' ↦ rw (none', query_content) asked
        | inr (ret, e) ↦
            rw (e, query_content)
              (Quiet-trans E asked (Local-Quiet E (store_content-Local task ret w')))
      ]

  query_indexes-Quiet :
      (path : Text) (p : Populate) (w : World E) → Quiet E w (query_indexes E vendor n path p w).1
  unfolding query_indexes
  query_indexes-Quiet path p w = list-Quiet E vendor path w

  perform-Quiet :
      (task : Task) (p : Populate) (w : World E) → Quiet E w (perform E vendor n task p w).1
  unfolding query_content store_content
  perform-Quiet task p w =
      elim (task.type) as (λ t. Quiet E w (perform E vendor n (record task { type = t }) p w).1) [
        | task_none ↦ Quiet-refl E w
        | task_query_indexes ↦ query_indexes-Quiet task.path p w
        | task_query_content ↦ query_content-Quiet task p w
      ]

  handle_task-Quiet : (p : Populate) (w : World E) → Quiet E w (handle_task E vendor n p w).1
  unfolding handle_task
  handle_task-Quiet p w = elim (tasks_cases p.s_tasks) [
    | inl empty ↦ rw (empty, handle_task) (Quiet-refl E w)
    | inr (task, tasks, e) ↦ rw (e, handle_task) (perform-Quiet task _ w)
  ]

  query_onu_instances-Quiet :
      (p : Populate) (w : World E) → Quiet E w (query_onu_instances E vendor n p w).1
  unfolding query_onu_instances
  query_onu_instances-Quiet p w = elim (Bool-cases (all_onus_initialised p.s_onu_initialised n)) [
    | inl all_found ↦ rw (all_found, query_onu_instances) (Quiet-refl E w)
    | inr missing ↦
        elim (Bool-cases (ltb query_onus_nr_times ((p.s_cntr_query_onus + 1) % 2 ^ 32))) [
          | inl last ↦ rw (missing, last, query_onu_instances) (Quiet-refl E w)
          | inr more ↦
              rw (missing, more, query_onu_instances)
                (query_indexes-Quiet onu_template
                  (record p { s_cntr_query_onus = (p.s_cntr_query_onus + 1) % 2 ^ 32 }) w)
        ]
  ]

  pub fire-Quiet : (f : Fire) (p : Populate) (w : World E) → Quiet E w (fire E vendor n f p w).1
  unfolding fire
  fire-Quiet query_timer p w = elim (Bool-cases (is_started p.s_timer_query_onus)) [
    | inl running ↦ rw (running, fire) (query_onu_instances-Quiet _ w)
    | inr still ↦ rw (still, fire) (Quiet-refl E w)
  ]
  fire-Quiet task_timer p w = elim (Bool-cases (is_started p.s_timer_handle_tasks)) [
    | inl running ↦ rw (running, fire) (handle_task-Quiet p w)
    | inr still ↦ rw (still, fire) (Quiet-refl E w)
  ]
